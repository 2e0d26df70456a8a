-- ===== src/Gateway/Health/Recovery.antt =====
-- How the circuit of a provider opens on failures, and closes again on the successes of its probes.
use eden_os.Prelude.{
  ℕ, String, true, false, List, [], ◌∷◌, map, length, ◌≡◌, ◌≤◌, ◌<◌, ◌+◌, arith, leb, Bool-cases,
  inl, inr, if◌then◌else◌, str_eq, eq_iff,
}
use eden_os.Gateway.Health.{
  closed, half_open, CircuitBreakerConfig, Latency, ProviderHealth, Records, succeed, miss, admit,
  is_open, record_of, is_available,
}
use eden_os.Gateway.Health.Breaker.{IsSound}
use eden_os.Gateway.Health.Tracker.{Call, success, failure, admission, calls, call, record_of-call}

module _ {L : Type 0} (latency : Latency L) (config : CircuitBreakerConfig) where
  -- The failures and the successes of one provider, as calls.
  abbrev pub failures_of : String → List (String × ℕ) → List (Call L)
  failures_of q fs = map (λ f. failure q f.0 f.1) fs

  abbrev pub successes_of : String → List L → List (Call L)
  successes_of q ls = map (λ l. success q l) ls

  str_eq_refl : (q : String) → str_eq q q ≡ true
  str_eq_refl q = ground (arith, eq_iff q q)

  record_of-failure :
      (q e : String) (now : ℕ) (records : Records latency config)
      → record_of latency config q (call latency config (failure q e now) records)
        ≡ miss latency config e now (record_of latency config q records)
  record_of-failure q e now records =
      ground (arith, str_eq_refl q, record_of-call latency config q (failure q e now) records)

  record_of-success :
      (q : String) (l : L) (records : Records latency config)
      → record_of latency config q (call latency config (success q l) records)
        ≡ succeed latency config l (record_of latency config q records)
  record_of-success q l records =
      ground (arith, str_eq_refl q, record_of-call latency config q (success q l) records)

  miss-open :
      (e : String) (now : ℕ) (r : ProviderHealth L)
      → is_open r.circuit ≡ true
      → is_open (miss latency config e now r).circuit ≡ true
  unfolding miss
  miss-open e now r h = ground arith

  stays_open :
      (q : String) (fs : List (String × ℕ)) (records : Records latency config)
      → is_open (record_of latency config q records).circuit ≡ true
      → is_open
          (record_of latency config q (calls latency config (failures_of q fs) records)).circuit
        ≡ true
  unfolding calls
  stays_open q [] records h = h
  stays_open q ((e, now) ∷ fs) records h =
      stays_open q fs (call latency config (failure q e now) records) (
        ground (
          arith,
          record_of-failure q e now records,
          miss-open e now (record_of latency config q records) h,
        ))

  -- One failure either opens the circuit or adds to a run that is still short of the threshold.
  miss-trips :
      (e : String) (now : ℕ) (r : ProviderHealth L)
      → is_open (miss latency config e now r).circuit ≡ false
      → (r.consecutive_failures + 1 < config.failure_threshold)
        × ((miss latency config e now r).consecutive_failures ≡ r.consecutive_failures + 1)
  unfolding miss
  miss-trips e now r h = ground arith

  trips_from :
      (q : String) (fs : List (String × ℕ)) (records : Records latency config)
      → 0 < length fs
      → config.failure_threshold
        ≤ (record_of latency config q records).consecutive_failures + length fs
      → is_open
          (record_of latency config q (calls latency config (failures_of q fs) records)).circuit
        ≡ true
  unfolding calls
  trips_from q [] records some_failure enough = absurd (omega arith)
  trips_from q ((e, now) ∷ fs) records some_failure enough =
      let r = record_of latency config q records in
      let records' = call latency config (failure q e now) records in
      let made = record_of-failure q e now records in
      elim (Bool-cases (is_open (miss latency config e now r).circuit)) [
        | inl tripped ↦ stays_open q fs records' (ground (arith, made, tripped))
        | inr short ↦
            let (under, counted) = miss-trips e now r short in
            trips_from q fs records' (omega (arith, under)) (ground (arith, made, counted, under))
      ]

  -- Enough failures in a row always open the circuit, whatever state it was in and whatever was
  -- observed before: after `failure_threshold` failures of `q` or more, with no success between
  -- them, it is open, if the threshold is positive.
  pub failures_trip :
      (q : String) (fs : List (String × ℕ)) (records : Records latency config)
      → 0 < config.failure_threshold
      → config.failure_threshold ≤ length fs
      → is_open
          (record_of latency config q (calls latency config (failures_of q fs) records)).circuit
        ≡ true
  failures_trip q fs records positive enough = trips_from q fs records (omega arith) (omega arith)

  -- What a success makes of a half-open circuit, and of a closed one.
  succeed-half_open :
      (l : L) (r : ProviderHealth L)
      → r.circuit ≡ half_open
      → ((succeed latency config l r).circuit ≡ (
          if leb config.half_open_successes (r.consecutive_successes + 1)
          then closed
          else half_open))
        × ((succeed latency config l r).consecutive_successes ≡ r.consecutive_successes + 1)
  unfolding succeed
  succeed-half_open l r h = ground arith

  succeed-closed :
      (l : L) (r : ProviderHealth L)
      → r.circuit ≡ closed
      → (succeed latency config l r).circuit ≡ closed
  unfolding succeed
  succeed-closed l r h = ground arith

  stays_closed :
      (q : String) (ls : List L) (records : Records latency config)
      → (record_of latency config q records).circuit ≡ closed
      → (record_of latency config q (calls latency config (successes_of q ls) records)).circuit
        ≡ closed
  unfolding calls
  stays_closed q [] records h = h
  stays_closed q (l ∷ ls) records h =
      stays_closed q ls (call latency config (success q l) records) (
        ground (
          arith,
          record_of-success q l records,
          succeed-closed l (record_of latency config q records) h,
        ))

  recovers_from :
      (q : String) (ls : List L) (records : Records latency config)
      → (record_of latency config q records).circuit ≡ half_open
      → (record_of latency config q records).consecutive_successes < config.half_open_successes
      → (record_of latency config q (calls latency config (successes_of q ls) records)).circuit ≡ (
          if leb config.half_open_successes
            ((record_of latency config q records).consecutive_successes + length ls)
          then closed
          else half_open)
  unfolding calls
  recovers_from q [] records h short = ground arith
  recovers_from q (l ∷ ls) records h short =
      let r = record_of latency config q records in
      let records' = call latency config (success q l) records in
      let made = record_of-success q l records in
      let (next, counted) = succeed-half_open l r h in
      elim (Bool-cases (leb config.half_open_successes (r.consecutive_successes + 1))) [
        | inl done ↦
            ground (arith, done, stays_closed q ls records' (ground (arith, made, next, done)))
        | inr more ↦
            let half : (record_of latency config q records').circuit ≡ half_open =
              ground (arith, made, next, more) in
            let count : (record_of latency config q records').consecutive_successes
                ≡ r.consecutive_successes + 1 =
              ground (arith, made, counted) in
            ground (arith, count, recovers_from q ls records' half (ground (arith, count, more)))
      ]

  admitted :
      (q : String) (now : ℕ) (records : Records latency config)
      → is_open (record_of latency config q records).circuit ≡ true
      → (record_of latency config q records).opened_at + config.reset_seconds ≤ now
      → let (answer, after) = is_available latency config q now records in
        (answer ≡ true)
        × ((record_of latency config q after).circuit ≡ half_open)
        × ((record_of latency config q after).consecutive_successes ≡ 0)
  unfolding is_available admit
  admitted q now records h due =
      let e = record_of-call latency config q (admission q now) records in
      unfold call is_available admit in ground (arith, str_eq_refl q, e)

  -- An open circuit recovers by its probes. Once the cool-down is over, `is_available` admits `q`;
  -- and then, while its calls succeed, the circuit is closed exactly when at least
  -- `half_open_successes` of them did, and half-open until then, if that number is positive.
  pub probes_close :
      (q : String) (now : ℕ) (ls : List L) (records : Records latency config)
      → 0 < config.half_open_successes
      → is_open (record_of latency config q records).circuit ≡ true
      → (record_of latency config q records).opened_at + config.reset_seconds ≤ now
      → ((is_available latency config q now records).0 ≡ true)
        × ((record_of latency config q (
              calls latency config
                (successes_of q ls)
                (is_available latency config q now records).1)).circuit
            ≡ (if leb config.half_open_successes (length ls) then closed else half_open))
  probes_close q now ls records positive h due =
      let (answer, half, none_yet) = admitted q now records h due in
      let after = (is_available latency config q now records).1 in
      (answer, ground (arith, none_yet, recovers_from q ls after half (ground (arith, none_yet))))

  -- A probe that fails need not reopen the circuit: if a half-open circuit has seen a success since
  -- it let traffic through, its record is sound and the threshold is more than one, then after a
  -- failure of `q` it is still half-open, and `is_available` goes on to admit `q` at any time.
  pub failed_probe_admits :
      (q e : String) (at now : ℕ) (records : Records latency config)
      → IsSound config (record_of latency config q records)
      → (record_of latency config q records).circuit ≡ half_open
      → 0 < (record_of latency config q records).consecutive_successes
      → 1 < config.failure_threshold
      → let after = call latency config (failure q e at) records in
        ((record_of latency config q after).circuit ≡ half_open)
        × ((is_available latency config q now after).0 ≡ true)
  unfolding is_available admit miss
  failed_probe_admits q e at now records sound half seen more =
      let made = record_of-failure q e at records in ground (arith, made, sound.exclusive)
