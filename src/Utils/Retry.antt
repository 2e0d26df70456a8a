-- ===== src/Utils/Retry.antt =====
-- The retry of src/eden/utils/async_tools.py, and the `RetryConfig` of src/eden/config/schema.py.
-- Times are in microseconds; the multiplier, the jitter and a random draw are in millionths. A
-- product of them is rounded down.
pub mod Bounded
use eden_os.Prelude.{
  ℕ, zero, suc, ◌+◌, ◌-◌, ◌*◌, ◌/◌, String, Bool, true, false, not, ◌||◌, leb, ltb, ◌==◌, min, max,
  if◌then◌else◌,
}
use eden_os.Errors.{EdenError, retryable, invalid_config_error}
use eden_os.Effect.{Outcome, ok, eden, crash, Eff}
use Prim.Native.Nat.{◌^◌}

abbrev pub one : ℕ
one = 1000000

-- `RetryConfig`
pub record RetryConfig : Type 0 where
  pub max_attempts : ℕ
  pub initial_backoff : ℕ
  pub max_backoff : ℕ
  pub multiplier : ℕ
  pub jitter_ratio : ℕ

abbrev pub invalid : String → Outcome RetryConfig
invalid m = eden (record { class = invalid_config_error; message = m })

-- `RetryConfig.__post_init__`; the first backoff is not negative here.
unfoldable pub retry_post_init : RetryConfig → Outcome RetryConfig
retry_post_init c =
    if leb c.max_attempts 0
    then invalid "Value must be strictly positive."
    else if leb c.max_backoff 0
    then invalid "Value must be strictly positive."
    else if leb c.multiplier 0
    then invalid "Value must be strictly positive."
    else if not (leb c.jitter_ratio one)
    then invalid "Jitter ratio must be between 0 and 1."
    else ok c

-- The delay of `compute_backoff` with jitter, where the generator draws `draw` in [0, 1).
abbrev pub jittered : RetryConfig → (capped draw : ℕ) → ℕ
jittered policy capped draw =
    let spread = capped * policy.jitter_ratio / one in
    min (capped - spread + draw * (2 * spread) / one) policy.max_backoff

-- `min(initial_backoff_seconds * multiplier ** (attempt - 2), max_backoff_seconds)`
unfoldable pub capped_backoff : RetryConfig → (attempt : ℕ) → ℕ
capped_backoff policy attempt =
    min (policy.initial_backoff * policy.multiplier ^ (attempt - 2) / one ^ (attempt - 2))
      policy.max_backoff

-- `isinstance(error, TimeoutError | ConnectionError)`, by the name of the type
abbrev pub is_retryable {ℓ} : {A : Type ℓ} → (is_connection : String → Bool) → Outcome A → Bool
is_retryable is_connection (ok a) = false
is_retryable is_connection (eden e) = retryable e.class
is_retryable is_connection (crash t m) = is_connection t

abbrev pub is_error {ℓ} : {A : Type ℓ} → Outcome A → Bool
is_error (ok a) = false
is_error (eden e) = true
is_error (crash t m) = true

-- `random` is the generator's next draw, and `sleep` the clock's.
module _ {W : Type 0} (random : W → ℕ × W) (sleep : ℕ → W → W) where
  -- `compute_backoff`
  unfoldable pub compute_backoff : (attempt : ℕ) → RetryConfig → W → ℕ × W
  unfolding capped_backoff
  compute_backoff attempt policy w =
      if leb attempt 1
      then (0, w)
      else if leb policy.jitter_ratio 0
      then (capped_backoff policy attempt, w)
      else let (draw, w') = random w in (jittered policy (capped_backoff policy attempt) draw, w')

  -- `if delay > 0: await active_clock.sleep(delay)`
  abbrev pub paused : ℕ × W → W
  paused (delay, w) = if ltb 0 delay then sleep delay w else w

  module _ {A : Type 0} (operation : Eff W A) (may_retry : Outcome A → Bool)
      (policy : RetryConfig) where
    -- The loop of `retry_async`, from one attempt on, with the number of the attempts that are left.
    unfoldable pub attempts : (left attempt : ℕ) → Eff W A
    unfolding compute_backoff
    attempts zero attempt w = (crash "RuntimeError" "retry loop exited unexpectedly", w)
    attempts (suc left) attempt w =
        let (outcome, w') = operation (paused (compute_backoff attempt policy w)) in
        let rest = attempts left (suc attempt) w' in
        if not (is_error outcome)
        then (outcome, w')
        else if leb policy.max_attempts attempt || not (may_retry outcome)
        then (outcome, w')
        else rest

    -- `retry_async`
    unfoldable pub retry_async : Eff W A
    unfolding attempts
    retry_async w = attempts policy.max_attempts 1 w
