-- ===== src/Gateway/HealthExamples.antt =====
-- The properties of the health tracker at concrete inputs.
use eden_os.Prelude.{
  ℕ, true, List, [], ◌∷◌, ◌≡◌, ◌≤◌, ◌<◌, ◌+◌, ◌*◌, ◌/◌, ◌==◌, refl, arith, ltb, leb, length,
  if◌then◌else◌, inl,
}
use eden_os.Prelude.Dict
use eden_os.Gateway.Health.{
  closed, half_open, CircuitBreakerConfig, Latency, Records, record_of, is_open, is_available,
  succeed, miss, admit, observe_success, observe_failure, latency_ms, reset,
}
use eden_os.Gateway.Health.Breaker.{IsPositive, IsSound}
use eden_os.Gateway.Health.Tracker.{Call, success, failure, admission, calls, calls-IsSound}
use eden_os.Gateway.Health.Recovery.{successes_of, probes_close}

abbrev latency : Latency ℕ
latency = record {
  nil = 0;
  is_nil = λ x. x == 0;
  is_positive = λ x. ltb 0 x;
  weigh = λ x y. (3 * x + 7 * y) / 10;
}

abbrev latencies : List ℕ
latencies = 30 ∷ 20 ∷ []

abbrev config : CircuitBreakerConfig
config = record { failure_threshold = 2; reset_seconds = 10; half_open_successes = 2 }

positive : IsPositive config
positive = record { threshold = omega arith; cool_down = omega arith; probes = omega arith }

-- Two failures of "p" open its circuit at time 5.
abbrev story : List (Call ℕ)
story = success "p" 40 ∷ failure "p" "e" 4 ∷ failure "p" "e" 5 ∷ []

abbrev opened : Records latency config
opened = calls latency config story []

-- A probe of the opened circuit has succeeded.
abbrev probing : Records latency config
probing = calls latency config (admission "p" 15 ∷ success "p" 30 ∷ []) opened

program : Unit {0}
unfolding calls record_of observe_success observe_failure is_available latency_ms reset succeed miss
    admit Dict.get Dict.put Dict.remove
program = tt

calls-IsSound_example :
    IsSound config (record_of latency config "p" (calls latency config story []))
calls-IsSound_example = calls-IsSound latency config positive "p" story

is_opened : is_open (record_of latency config "p" opened).circuit ≡ true
unfolding program
is_opened = refl

opened_at_five : (record_of latency config "p" opened).opened_at ≡ 5
unfolding program
opened_at_five = refl

due : (record_of latency config "p" opened).opened_at + config.reset_seconds ≤ 15
due = ground (arith, opened_at_five)

probes_close_example :
    ((is_available latency config "p" 15 opened).0 ≡ true)
    × ((record_of latency config "p" (
          calls latency config
            (successes_of latency config "p" latencies)
            (is_available latency config "p" 15 opened).1)).circuit
        ≡ (if leb config.half_open_successes (length latencies) then closed else half_open))
probes_close_example =
    probes_close latency config "p" 15 latencies opened (omega arith) is_opened due

probing-IsSound : IsSound config (record_of latency config "p" probing)
unfolding program
probing-IsSound = record {
  bounded = omega arith;
  failed = omega arith;
  succeeded = omega arith;
  exclusive = inl refl;
}

probe_half : (record_of latency config "p" probing).circuit ≡ half_open
unfolding program
probe_half = refl

probe_seen : 0 < (record_of latency config "p" probing).consecutive_successes
unfolding program
probe_seen = omega arith
