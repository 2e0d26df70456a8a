-- ===== src/Utils/Examples.antt =====
-- The properties of the retry and of the token bucket at concrete inputs.
use eden_os.Prelude.{
  ℕ, ◌+◌, ◌-◌, ◌*◌, ◌≤◌, ◌<◌, false, none, some, List, [], ◌∷◌, ◌≡◌, refl, arith, ltb,
  if◌then◌else◌,
}
use eden_os.Errors.{transport_error, retryable}
use eden_os.Effect.{ok, eden, Eff}
use eden_os.Utils.Retry.{RetryConfig, is_retryable, retry_async}
use eden_os.Utils.Retry.Bounded.{Counts, Cheap, retry_async-Cheap}
use eden_os.Utils.Bucket.{TokenBucket, new_bucket, Clock, try_acquire, acquire}
use eden_os.Utils.Bucket.Quota.{granted, granted-le}
use eden_os.Utils.Bucket.Ends.{acquire-Ends}

-- The number of calls, and the time slept.
abbrev World : Type 0
World = ℕ × ℕ

-- The first two calls find no connection.
abbrev fetch : Eff World ℕ
fetch w =
    if ltb w.0 2
    then (eden (record { class = transport_error; message = "Down." }), (w.0 + 1, w.1))
    else (ok 7, (w.0 + 1, w.1))

abbrev policy : RetryConfig
policy = record {
  max_attempts = 3;
  initial_backoff = 250000;
  max_backoff = 8000000;
  multiplier = 2000000;
  jitter_ratio = 200000;
}

abbrev draw : World → ℕ × World
draw w = (500000, w)

abbrev sleep : ℕ → World → World
sleep d w = (w.0, d + w.1)

third_call :
    retry_async draw sleep fetch (is_retryable (λ t. false)) policy (0, 0) ≡ (ok 7, (3, 750000))
unfolding retry_async retryable
third_call = refl

counts : Counts draw sleep fetch (λ w. w.0) (λ w. w.1)
counts = record {
  called = λ w. ground (arith, w);
  called_awake = λ w. ground (arith, w);
  sleeps = λ d w. refl;
  sleeps_idle = λ d w. refl;
  draws = λ w. refl;
  draws_awake = λ w. refl;
}

retry_async-Cheap_example :
    Cheap draw sleep fetch
      (is_retryable (λ t. false))
      policy
      (λ w. w.0)
      (λ w. w.1)
      counts
      (0, 0)
      (retry_async draw sleep fetch (is_retryable (λ t. false)) policy (0, 0))
retry_async-Cheap_example =
    retry_async-Cheap draw sleep fetch (is_retryable (λ t. false)) policy (λ w. w.0) (λ w. w.1)
      counts (0, 0) (omega arith)

-- Two requests a minute, with one token of burst.
abbrev bucket : TokenBucket
bucket = record { rate = 2; capacity = 60; tokens = 60; updated_at = 0 }

bucket_new : new_bucket 2 (some 1) 0 ≡ bucket
unfolding new_bucket
bucket_new = refl

abbrev requests : List (ℕ × ℕ)
requests = (60, 0) ∷ (60, 10) ∷ (60, 31) ∷ (60, 90) ∷ []

three_granted : (granted requests bucket).0 ≡ 180
unfolding granted try_acquire
three_granted = refl

granted-le_example : (granted requests bucket).0 ≤ 60 + (90 - 0) * 2
granted-le_example =
    granted-le requests bucket refl (omega arith, (omega arith, (omega arith, (omega arith, tt))))

abbrev clock : Clock ℕ
clock = record { monotonic = λ w. w; sleep = λ deficit rate w. w + deficit }

acquire-Ends_example :
    (60 ≤ 60 → (r : List (ℕ × ℕ) × TokenBucket × ℕ) × (acquire clock 2 60 bucket 0 ≡ some r))
    × (60 < 60 → (fuel : ℕ) → acquire clock fuel 60 bucket 0 ≡ none)
acquire-Ends_example = acquire-Ends clock 60 bucket 0 refl (λ deficit w. omega arith)
