-- ===== src/Gateway/Health/Breaker.antt =====
-- The circuit breaker of one provider: its invariant, and when it opens and closes.
use eden_os.Prelude.{
  ℕ, String, ◌≡◌, ◌≤◌, ◌<◌, ◌+◌, ◌⊎◌, arith, refl, not, leb, ◌&&◌, inl, inr, Bool-cases,
  if◌then◌else◌,
}
use eden_os.Gateway.Health.{
  CircuitState, closed, «open», half_open, CircuitBreakerConfig, Latency, ProviderHealth, fresh,
  succeed, miss, admit, is_open, is_half_open,
}

-- The configuration's own check: every field is positive.
pub record IsPositive (config : CircuitBreakerConfig) : Type 0 where
  pub threshold : 0 < config.failure_threshold
  pub cool_down : 0 < config.reset_seconds
  pub probes : 0 < config.half_open_successes

-- The bound on the run of calls that each state of the circuit keeps.
abbrev pub Bounded : CircuitBreakerConfig → CircuitState → (misses hits : ℕ) → Type 0
Bounded config closed misses hits = misses < config.failure_threshold
Bounded config half_open misses hits = hits < config.half_open_successes
Bounded config «open» misses hits = Unit

-- A closed circuit is below the threshold of failures and a half-open one below that of successes;
-- runs are counted within the totals, and only one of the two is under way.
pub record IsSound {L : Type 0} (config : CircuitBreakerConfig) (r : ProviderHealth L)
    : Type 0 where
  pub bounded : Bounded config r.circuit r.consecutive_failures r.consecutive_successes
  pub failed : r.consecutive_failures ≤ r.failures
  pub succeeded : r.consecutive_successes ≤ r.successes
  pub exclusive : (r.consecutive_failures ≡ 0) ⊎ (r.consecutive_successes ≡ 0)

module _ {L : Type 0} (latency : Latency L) (config : CircuitBreakerConfig)
    (positive : IsPositive config) where
  pub fresh-IsSound : (provider : String) → IsSound config (fresh latency config provider)
  fresh-IsSound provider = record {
    bounded = positive.threshold;
    failed = omega arith;
    succeeded = omega arith;
    exclusive = inl refl;
  }

  Bounded-succeed :
      (circuit : CircuitState) (misses hits : ℕ)
      → Bounded config circuit misses hits
      → Bounded config
          (if is_half_open circuit && leb config.half_open_successes (hits + 1)
            then closed
            else circuit)
          0
          (hits + 1)
  Bounded-succeed closed misses hits h = positive.threshold
  Bounded-succeed «open» misses hits h = tt
  Bounded-succeed half_open misses hits h =
      elim (Bool-cases (leb config.half_open_successes (hits + 1))) [
        | inl e ↦ rw e positive.threshold
        | inr e ↦ rw e (ground arith)
      ]

  Bounded-miss :
      (circuit : CircuitState) (misses hits : ℕ)
      → Bounded config circuit misses hits
      → Bounded config
          (if not (is_open circuit) && leb config.failure_threshold (misses + 1)
            then «open»
            else circuit)
          (misses + 1)
          0
  Bounded-miss «open» misses hits h = tt
  Bounded-miss closed misses hits h =
      elim (Bool-cases (leb config.failure_threshold (misses + 1))) [
        | inl e ↦ rw e tt
        | inr e ↦ rw e (ground arith)
      ]
  Bounded-miss half_open misses hits h =
      elim (Bool-cases (leb config.failure_threshold (misses + 1))) [
        | inl e ↦ rw e tt
        | inr e ↦ rw e positive.probes
      ]

  pub succeed-IsSound :
      (latency_ms : L) (r : ProviderHealth L)
      → IsSound config r
      → IsSound config (succeed latency config latency_ms r)
  unfolding succeed
  succeed-IsSound latency_ms r h = record {
    bounded = Bounded-succeed r.circuit r.consecutive_failures r.consecutive_successes h.bounded;
    failed = omega arith;
    succeeded = omega (arith, h.succeeded);
    exclusive = inl refl;
  }

  pub miss-IsSound :
      (error_code : String) (now : ℕ) (r : ProviderHealth L)
      → IsSound config r
      → IsSound config (miss latency config error_code now r)
  unfolding miss
  miss-IsSound error_code now r h = record {
    bounded = Bounded-miss r.circuit r.consecutive_failures r.consecutive_successes h.bounded;
    failed = omega (arith, h.failed);
    succeeded = omega arith;
    exclusive = inr refl;
  }

  pub admit-IsSound :
      (now : ℕ) (r : ProviderHealth L)
      → IsSound config r
      → IsSound config (admit latency config now r).1
  unfolding admit
  admit-IsSound now r h = elim (Bool-cases (is_open r.circuit)) [
    | inr e ↦ rw e h
    | inl e ↦ elim (Bool-cases (leb (r.opened_at + config.reset_seconds) now)) [
      | inr early ↦ rw (e, early) h
      | inl due ↦
          rw (e, due)
            (record {
              bounded = positive.probes;
              failed = h.failed;
              succeeded = omega arith;
              exclusive = inr refl;
            })
    ]
  ]
