-- ===== src/Gateway/Health.antt =====
-- src/eden/gateway/health.py: the health records of the providers and their circuit breakers. Times
-- are natural numbers read from the monotonic clock; latencies are of any type, with the
-- floating-point operations that the tracker uses on them.
pub mod Breaker
pub mod Tracker
pub mod Recovery
use eden_os.Prelude.{
  ℕ, String, Bool, true, false, Option, none, some, [], ◌+◌, ◌-◌, ◌*◌, ltb, leb, ◌==◌, ◌&&◌, not,
  if◌then◌else◌,
}
use eden_os.Prelude.Dict
use eden_os.Prelude.Dict.{Dict}

pub data CircuitState : Type 0 where
  closed «open» half_open : CircuitState

pub data HealthState : Type 0 where
  unknown healthy degraded unhealthy : HealthState

-- The fields of `CircuitBreakerConfig`.
pub record CircuitBreakerConfig : Type 0 where
  pub failure_threshold : ℕ
  pub reset_seconds : ℕ
  pub half_open_successes : ℕ

-- The latencies: `0.0`, `x == 0.0`, `x > 0`, and `EWMA_ALPHA * x + (1 - EWMA_ALPHA) * y`.
pub record Latency (L : Type 0) : Type 0 where
  pub nil : L
  pub is_nil : L → Bool
  pub is_positive : L → Bool
  pub weigh : L → L → L

pub record ProviderHealth (L : Type 0) : Type 0 where
  pub provider : String
  pub successes : ℕ
  pub failures : ℕ
  pub consecutive_failures : ℕ
  pub consecutive_successes : ℕ
  pub ewma_latency_ms : L
  pub circuit : CircuitState
  pub opened_at : ℕ
  pub last_error_code : String

-- `circuit is CircuitState.OPEN`, `circuit is CircuitState.HALF_OPEN`
abbrev pub is_open : CircuitState → Bool
is_open «open» = true
is_open _ = false

abbrev pub is_half_open : CircuitState → Bool
is_half_open half_open = true
is_half_open _ = false

module _ {L : Type 0} where
  -- `total_calls`
  abbrev pub total_calls : ProviderHealth L → ℕ
  total_calls r = r.successes + r.failures

  -- `state`: the rate of success is compared with `0.5` and with `0.85`.
  unfoldable pub state : ProviderHealth L → HealthState
  state r =
      if is_open r.circuit
      then unhealthy
      else if total_calls r == 0
      then unknown
      else if ltb (total_calls r) 4
      then if r.consecutive_failures == 0 then healthy else degraded
      else if ltb (2 * r.successes) (total_calls r)
      then unhealthy
      else if ltb (20 * r.successes) (17 * total_calls r)
      then degraded
      else healthy

module _ {L : Type 0} (latency : Latency L) (config : CircuitBreakerConfig) where
  abbrev pub fresh : String → ProviderHealth L
  fresh provider = record {
    provider = provider;
    successes = 0;
    failures = 0;
    consecutive_failures = 0;
    consecutive_successes = 0;
    ewma_latency_ms = latency.nil;
    circuit = closed;
    opened_at = 0;
    last_error_code = "";
  }

  -- What `observe_success` does to a record.
  unfoldable pub succeed : L → ProviderHealth L → ProviderHealth L
  succeed latency_ms r =
      let recovered =
        is_half_open r.circuit && leb config.half_open_successes (r.consecutive_successes + 1) in
      record r {
        successes = r.successes + 1;
        consecutive_failures = 0;
        consecutive_successes = r.consecutive_successes + 1;
        ewma_latency_ms =
            if latency.is_nil r.ewma_latency_ms
            then latency_ms
            else latency.weigh latency_ms r.ewma_latency_ms;
        circuit = if recovered then closed else r.circuit;
      }

  -- What `observe_failure` does to a record.
  unfoldable pub miss : String → ℕ → ProviderHealth L → ProviderHealth L
  miss error_code now r =
      let tripped =
        not (is_open r.circuit) && leb config.failure_threshold (r.consecutive_failures + 1) in
      record r {
        failures = r.failures + 1;
        consecutive_successes = 0;
        consecutive_failures = r.consecutive_failures + 1;
        last_error_code = error_code;
        circuit = if tripped then «open» else r.circuit;
        opened_at = if tripped then now else r.opened_at;
      }

  -- What `is_available` answers of a record, and what it makes of it: `elapsed >= reset_seconds` is
  -- read as a sum, since the elapsed time may be negative.
  unfoldable pub admit : ℕ → ProviderHealth L → Bool × ProviderHealth L
  admit now r =
      if not (is_open r.circuit)
      then (true, r)
      else if leb (r.opened_at + config.reset_seconds) now
      then (true, record r { circuit = half_open; consecutive_successes = 0 })
      else (false, r)

  abbrev pub Records : Type 0
  Records = Dict (ProviderHealth L)

  -- `record`: the record of a provider, which is made if there is none.
  abbrev or_fresh : String → Option (ProviderHealth L) → ProviderHealth L
  or_fresh provider none = fresh provider
  or_fresh provider (some r) = r

  unfoldable pub record_of : String → Records → ProviderHealth L
  record_of provider records = or_fresh provider (Dict.get provider records)

  -- `observe_success`
  unfoldable pub observe_success : String → L → Records → Records
  observe_success provider latency_ms records =
      Dict.put provider (succeed latency_ms (record_of provider records)) records

  -- `observe_failure`
  unfoldable pub observe_failure : String → String → ℕ → Records → Records
  observe_failure provider error_code now records =
      Dict.put provider (miss error_code now (record_of provider records)) records

  -- `is_available`
  unfoldable pub is_available : String → ℕ → Records → Bool × Records
  is_available provider now records =
      let (answer, r) = admit now (record_of provider records) in
      (answer, Dict.put provider r records)

  -- `latency_ms`
  unfoldable pub latency_ms : String → L → Records → L × Records
  latency_ms provider fallback records =
      let r = record_of provider records in
      (
        if latency.is_positive r.ewma_latency_ms then r.ewma_latency_ms else fallback,
        Dict.put provider r records,
      )

  -- `reset`
  unfoldable pub reset : Option String → Records → Records
  reset none records = []
  reset (some provider) records = Dict.remove provider records
