-- ===== src/Utils/Bucket.antt =====
-- The token bucket of src/eden/utils/ratelimit.py. Tokens are counted in sixtieths and times in
-- seconds, so the quota per minute is what a second earns; a delay is the pair of the deficit and the
-- rate that divides it.
pub mod Quota
pub mod Ends
use eden_os.Prelude.{
  ℕ, zero, suc, ◌+◌, ◌-◌, ◌*◌, Bool, true, false, Option, none, some, List, [], ◌∷◌, ◌++◌, leb,
  ◌==◌, min, max, if◌then◌else◌,
}

abbrev pub minute : ℕ
minute = 60

-- `TokenBucket`
pub record TokenBucket : Type 0 where
  pub rate : ℕ
  pub capacity : ℕ
  pub tokens : ℕ
  pub updated_at : ℕ

abbrev pub capacity_of : Option ℕ → (requests_per_minute : ℕ) → ℕ
capacity_of none requests_per_minute = minute * max requests_per_minute 1
capacity_of (some burst) requests_per_minute = minute * burst

-- `TokenBucket.__init__`, where a quota is not negative
unfoldable pub new_bucket : (requests_per_minute : ℕ) → (burst : Option ℕ) → (now : ℕ) → TokenBucket
new_bucket requests_per_minute burst now = record {
  rate = requests_per_minute;
  capacity = capacity_of burst requests_per_minute;
  tokens = capacity_of burst requests_per_minute;
  updated_at = now;
}

-- `unlimited`
abbrev pub is_unlimited : TokenBucket → Bool
is_unlimited b = b.rate == 0

-- `available`; the difference stops at zero, as `max(0.0, …)` does.
abbrev pub available : TokenBucket → (now : ℕ) → ℕ
available b now =
    if is_unlimited b then b.capacity else min b.capacity (b.tokens + (now - b.updated_at) * b.rate)

-- `_refill`
abbrev pub refill : (now : ℕ) → TokenBucket → TokenBucket
refill now b = record {
  rate = b.rate;
  capacity = b.capacity;
  tokens = min b.capacity (b.tokens + (now - b.updated_at) * b.rate);
  updated_at = now;
}

abbrev pub spend : ℕ → TokenBucket → TokenBucket
spend tokens b = record {
  rate = b.rate;
  capacity = b.capacity;
  tokens = b.tokens - tokens;
  updated_at = b.updated_at;
}

-- `try_acquire`
unfoldable pub try_acquire : (tokens now : ℕ) → TokenBucket → Bool × TokenBucket
try_acquire tokens now b =
    if is_unlimited b
    then (true, b)
    else if leb tokens (refill now b).tokens
    then (true, spend tokens (refill now b))
    else (false, refill now b)

-- The clock that `acquire` reads, and its sleep of a deficit divided by a rate.
pub record Clock (W : Type 0) : Type 0 where
  pub monotonic : W → ℕ
  pub sleep : (deficit rate : ℕ) → W → W

module _ {W : Type 0} (clock : Clock W) where
  -- The loop of `acquire`, with the delays that it has slept; without fuel it is still running.
  unfoldable pub acquire_loop :
      (fuel tokens : ℕ) → List (ℕ × ℕ) → TokenBucket → W → Option (List (ℕ × ℕ) × TokenBucket × W)
  acquire_loop zero tokens waited b w = none
  acquire_loop (suc fuel) tokens waited b w =
      let b' = refill (clock.monotonic w) b in
      let deficit = tokens - b'.tokens in
      let rest =
        acquire_loop fuel tokens (waited ++ (deficit, b.rate) ∷ []) b'
          (clock.sleep deficit b.rate w) in
      if leb tokens b'.tokens then some (waited, spend tokens b', w) else rest

  -- `acquire`
  unfoldable pub acquire :
      (fuel tokens : ℕ) → TokenBucket → W → Option (List (ℕ × ℕ) × TokenBucket × W)
  unfolding acquire_loop
  acquire fuel tokens b w =
      if is_unlimited b then some ([], b, w) else acquire_loop fuel tokens [] b w
