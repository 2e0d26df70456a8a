-- ===== src/Gateway/Health/Tracker.antt =====
-- The tracker over any sequence of calls: what each call does to the record of each provider.
use eden_os.Prelude.{
  ℕ, String, true, false, Option, none, some, List, [], ◌∷◌, ◌≡◌, ◌<◌, ◌+◌, refl, sym, ap, All, ◌∙◌,
  subst, arith, str_eq, eq_iff, if◌then◌else◌, Bool-cases, inl, inr,
}
use eden_os.Prelude.Dict
use eden_os.Prelude.Dict.{get-put, get-remove}
use eden_os.Gateway.Health.{
  CircuitBreakerConfig, Latency, ProviderHealth, Records, fresh, succeed, miss, admit, is_open,
  record_of, observe_success, observe_failure, is_available, latency_ms, reset,
}
use eden_os.Gateway.Health.Breaker.{
  IsPositive, IsSound, fresh-IsSound, succeed-IsSound, miss-IsSound, admit-IsSound,
}

-- The calls of a tracker, each with the time of the clock where it reads it.
pub data Call (L : Type 0) : Type 0 where
  success : String → L → Call L
  failure : String → String → ℕ → Call L
  admission : String → ℕ → Call L
  reading : String → L → Call L
  clearing : Option String → Call L

module _ {L : Type 0} (latency : Latency L) (config : CircuitBreakerConfig) where
  unfoldable pub call : Call L → Records latency config → Records latency config
  call (success p l) records = observe_success latency config p l records
  call (failure p e now) records = observe_failure latency config p e now records
  call (admission p now) records = (is_available latency config p now records).1
  call (reading p l) records = (latency_ms latency config p l records).1
  call (clearing o) records = reset latency config o records

  unfoldable pub calls : List (Call L) → Records latency config → Records latency config
  unfolding call
  calls [] records = records
  calls (c ∷ cs) records = calls cs (call c records)

  -- What a call does to the record of one provider.
  abbrev pub on : String → Call L → ProviderHealth L → ProviderHealth L
  on q (success p l) r = if str_eq p q then succeed latency config l r else r
  on q (failure p e now) r = if str_eq p q then miss latency config e now r else r
  on q (admission p now) r = if str_eq p q then (admit latency config now r).1 else r
  on q (reading p l) r = r
  on q (clearing none) r = fresh latency config q
  on q (clearing (some p)) r = if str_eq p q then fresh latency config q else r

  record_of-put :
      (p q : String) (f : ProviderHealth L → ProviderHealth L) (records : Records latency config)
      → record_of latency config q (Dict.put p (f (record_of latency config p records)) records) ≡ (
          if str_eq p q
          then f (record_of latency config q records)
          else record_of latency config q records)
  unfolding record_of
  record_of-put p q f records =
      let e = get-put p q (f (record_of latency config p records)) records in
      elim (Bool-cases (str_eq p q)) [
        | inl same ↦
            let p≡q : p ≡ q = ground (arith, eq_iff p q) in
            rw (e, same) (ap (λ s. f (record_of latency config s records)) p≡q)
        | inr other ↦ rw (e, other) refl
      ]

  -- A call acts on the record of each provider by itself: `on` says how, and it leaves the records
  -- of the providers that the call does not name as they are.
  pub record_of-call :
      (q : String) (c : Call L) (records : Records latency config)
      → record_of latency config q (call c records) ≡ on q c (record_of latency config q records)
  unfolding call observe_success observe_failure is_available latency_ms reset Dict.get
  record_of-call q (success p l) records = record_of-put p q (succeed latency config l) records
  record_of-call q (failure p e now) records = record_of-put p q (miss latency config e now) records
  record_of-call q (admission p now) records =
      record_of-put p q (λ r. (admit latency config now r).1) records
  record_of-call q (reading p l) records = record_of-put p q (λ r. r) records ∙ ground arith
  record_of-call q (clearing none) records = unfold record_of in refl
  record_of-call q (clearing (some p)) records =
      unfold record_of in ground (arith, get-remove p q records, eq_iff p q)

  module _ (positive : IsPositive config) where
    on-IsSound :
        (q : String) (c : Call L) (r : ProviderHealth L)
        → IsSound config r
        → IsSound config (on q c r)
    on-IsSound q (success p l) r h = elim (Bool-cases (str_eq p q)) [
      | inl e ↦ rw e (succeed-IsSound latency config positive l r h)
      | inr e ↦ rw e h
    ]
    on-IsSound q (failure p code now) r h = elim (Bool-cases (str_eq p q)) [
      | inl e ↦ rw e (miss-IsSound latency config positive code now r h)
      | inr e ↦ rw e h
    ]
    on-IsSound q (admission p now) r h = elim (Bool-cases (str_eq p q)) [
      | inl e ↦ rw e (admit-IsSound latency config positive now r h)
      | inr e ↦ rw e h
    ]
    on-IsSound q (reading p l) r h = h
    on-IsSound q (clearing none) r h = fresh-IsSound latency config positive q
    on-IsSound q (clearing (some p)) r h = elim (Bool-cases (str_eq p q)) [
      | inl e ↦ rw e (fresh-IsSound latency config positive q)
      | inr e ↦ rw e h
    ]

    calls-keeps :
        (q : String) (cs : List (Call L)) (records : Records latency config)
        → IsSound config (record_of latency config q records)
        → IsSound config (record_of latency config q (calls cs records))
    unfolding calls
    calls-keeps q [] records h = h
    calls-keeps q (c ∷ cs) records h = calls-keeps q cs (call c records) (
        subst (IsSound config) (sym (record_of-call q c records))
          (on-IsSound q c (record_of latency config q records) h))

    -- Whatever calls a new tracker gets, in any order and at any times, the record of every
    -- provider is sound, if the configuration is positive: a closed circuit has fewer failures in a
    -- row than `failure_threshold`, a half-open one fewer successes than `half_open_successes`, and
    -- of the two runs, which the totals bound, at most one is under way.
    pub calls-IsSound :
        (q : String) (cs : List (Call L))
        → IsSound config (record_of latency config q (calls cs []))
    unfolding record_of Dict.get
    calls-IsSound q cs = calls-keeps q cs [] (fresh-IsSound latency config positive q)

  -- A call that, made before `limit`, neither clears the record of `q` nor asks for admission later.
  abbrev pub Early : String → ℕ → Call L → Type 0
  Early q limit (admission p now) = now < limit
  Early q limit (clearing none) = ⊥
  Early q limit (clearing (some p)) = str_eq p q ≡ false
  Early q limit _ = Unit

  OpenAt : ℕ → ProviderHealth L → Type 0
  OpenAt t r = (is_open r.circuit ≡ true) × (r.opened_at ≡ t)

  on-OpenAt :
      (q : String) (t : ℕ) (c : Call L) (r : ProviderHealth L)
      → Early q (t + config.reset_seconds) c
      → OpenAt t r
      → OpenAt t (on q c r)
  unfolding OpenAt succeed miss admit
  on-OpenAt q t (success p l) r early h = ground arith
  on-OpenAt q t (failure p e now) r early h = ground arith
  on-OpenAt q t (admission p now) r early h = ground arith
  on-OpenAt q t (reading p l) r early h = h
  on-OpenAt q t (clearing none) r early h = elim early [ ]
  on-OpenAt q t (clearing (some p)) r early h = ground arith

  on_calls-OpenAt :
      (q : String) (t : ℕ) (cs : List (Call L)) (records : Records latency config)
      → All (Early q (t + config.reset_seconds)) cs
      → OpenAt t (record_of latency config q records)
      → OpenAt t (record_of latency config q (calls cs records))
  unfolding calls
  on_calls-OpenAt q t [] records early h = h
  on_calls-OpenAt q t (c ∷ cs) records early h = on_calls-OpenAt q t cs (call c records) early.1 (
      subst (OpenAt t) (sym (record_of-call q c records))
        (on-OpenAt q t c (record_of latency config q records) early.0 h))

  -- An open circuit stops all traffic for the whole cool-down: if the circuit of `q` opened at `t`,
  -- then after any calls that do not clear its record and ask for its admission only before
  -- `t + reset_seconds`, `is_available` still refuses `q` at any time before that.
  pub open_excludes :
      (q : String) (t now : ℕ) (cs : List (Call L)) (records : Records latency config)
      → is_open (record_of latency config q records).circuit ≡ true
      → (record_of latency config q records).opened_at ≡ t
      → All (Early q (t + config.reset_seconds)) cs
      → now < t + config.reset_seconds
      → (is_available latency config q now (calls cs records)).0 ≡ false
  unfolding is_available admit OpenAt
  open_excludes q t now cs records is_opened at early before =
      let still = on_calls-OpenAt q t cs records early (is_opened, at) in ground (arith, still)
