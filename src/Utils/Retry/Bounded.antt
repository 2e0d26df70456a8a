-- ===== src/Utils/Retry/Bounded.antt =====
-- How often `retry_async` calls the operation, and how long it waits.
use eden_os.Prelude.{
  ℕ, zero, suc, ◌+◌, ◌-◌, ◌*◌, ◌≤◌, ◌<◌, Bool, true, not, ◌||◌, leb, ltb, ◌≡◌, refl, ◌∙◌, arith,
  inl, inr, Bool-cases,
}
use native.Mathlib.Nat.{suc-mul}
use eden_os.Effect.{Outcome, Eff}
use eden_os.Utils.Retry.{
  RetryConfig, capped_backoff, is_error, compute_backoff, paused, attempts, retry_async,
}

module _ {W : Type 0} (random : W → ℕ × W) (sleep : ℕ → W → W) where
  compute_backoff-le :
      (attempt : ℕ) (policy : RetryConfig) (w : W)
      → (compute_backoff random sleep attempt policy w).0 ≤ policy.max_backoff
  unfolding compute_backoff capped_backoff
  compute_backoff-le attempt policy w = ground arith

  -- The views of the world that the theorem speaks of: how often the operation was called, and how
  -- long the clock has slept.
  pub record Counts {A : Type 0} (operation : Eff W A) (calls slept : W → ℕ) : Type 0 where
    pub called : (w : W) → calls (operation w).1 ≡ suc (calls w)
    pub called_awake : (w : W) → slept (operation w).1 ≡ slept w
    pub sleeps : (d : ℕ) (w : W) → slept (sleep d w) ≡ d + slept w
    pub sleeps_idle : (d : ℕ) (w : W) → calls (sleep d w) ≡ calls w
    pub draws : (w : W) → calls (random w).1 ≡ calls w
    pub draws_awake : (w : W) → slept (random w).1 ≡ slept w

  module _ {A : Type 0} (operation : Eff W A) (may_retry : Outcome A → Bool) (policy : RetryConfig)
      (calls slept : W → ℕ) (counts : Counts operation calls slept) where
    abbrev Slow : ℕ → W → W → Type 0
    Slow d w w' = (calls w' ≡ calls w) × (slept w' ≤ slept w + d)

    paused-Slow : (d : ℕ) (w : W) → Slow d w (paused random sleep (d, w))
    paused-Slow d w = elim (Bool-cases (ltb 0 d)) [
      | inl e ↦ rw e (counts.sleeps_idle d w, omega (arith, counts.sleeps d w))
      | inr e ↦ rw e (refl, omega arith)
    ]

    backoff-Slow :
        (attempt : ℕ) (w : W) → Slow 0 w (compute_backoff random sleep attempt policy w).1
    unfolding compute_backoff
    backoff-Slow attempt w = ground (arith, counts.draws w, counts.draws_awake w)

    waits-Slow :
        (attempt : ℕ) (w : W)
        → Slow policy.max_backoff w
            (paused random sleep (compute_backoff random sleep attempt policy w))
    waits-Slow attempt w =
        let b = compute_backoff random sleep attempt policy w in
        let p = paused-Slow b.0 b.1 in
        let q = backoff-Slow attempt w in
        (p.0 ∙ q.0, omega (arith, p.1, q.1, compute_backoff-le attempt policy w))

    abbrev pub Within : (left : ℕ) → W → Outcome A × W → Type 0
    Within left w r =
        (calls r.1 ≤ calls w + left)
        × (slept r.1 ≤ slept w + left * policy.max_backoff)
        × (is_error r.0 ≡ true → may_retry r.0 ≡ true → calls r.1 ≡ calls w + left)
        × (calls w ≤ calls r.1)

    attempts-Within :
        (left attempt : ℕ) (w : W)
        → left + attempt ≡ suc policy.max_attempts
        → Within left w (attempts random sleep operation may_retry policy left attempt w)
    unfolding attempts
    attempts-Within zero attempt w e = (omega arith, omega arith, λ a b. omega arith, omega arith)
    attempts-Within (suc left) attempt w e =
        let p = paused random sleep (compute_backoff random sleep attempt policy w) in
        let s = waits-Slow attempt w in
        let r = operation p in
        let c = counts.called p in
        let m = suc-mul left policy.max_backoff in
        let d = counts.called_awake p in
        elim (Bool-cases (is_error r.0)) [
          | inr f ↦ rw f (
            omega (arith, c, s.0),
            omega (arith, d, s.1, m),
            λ a b. absurd (ground (arith, a)),
            omega (arith, c, s.0),
          )
          | inl f ↦ elim (Bool-cases (leb policy.max_attempts attempt || not (may_retry r.0))) [
            | inl g ↦
                rw (f, g)
                  (
                    omega (arith, c, s.0),
                    omega (arith, d, s.1, m),
                    λ a b. ground (arith, c, s.0, b, g, e),
                    omega (arith, c, s.0),
                  )
            | inr g ↦
                let ih = attempts-Within left (suc attempt) r.1 (omega (arith, e)) in
                rw (f, g)
                  (
                    omega (arith, ih.0, c, s.0),
                    omega (arith, ih.1, d, s.1, m),
                    λ a b. let n = ih.2 a b in omega (arith, n, c, s.0),
                    omega (arith, ih.3, c, s.0),
                  )
          ]
        ]

    abbrev pub Cheap : W → Outcome A × W → Type 0
    Cheap w r =
        (suc (calls w) ≤ calls r.1)
        × (calls r.1 ≤ calls w + policy.max_attempts)
        × (slept r.1 ≤ slept w + (policy.max_attempts - 1) * policy.max_backoff)
        × (is_error r.0 ≡ true → may_retry r.0 ≡ true → calls r.1 ≡ calls w + policy.max_attempts)

    -- The first attempt does not wait.
    first-Cheap :
        (n : ℕ) (w : W)
        → n ≡ policy.max_attempts
        → 0 < n
        → Cheap w (attempts random sleep operation may_retry policy n 1 w)
    unfolding attempts compute_backoff
    first-Cheap zero w e h = absurd (omega (arith, h))
    first-Cheap (suc left) w e h =
        let r = operation w in
        let c = counts.called w in
        let d = counts.called_awake w in
        let x : policy.max_attempts - 1 ≡ left = omega (arith, e) in
        let later = attempts-Within left 2 r.1 (omega (arith, e)) in
        elim (Bool-cases (is_error r.0)) [
          | inr f ↦ rw f (
            omega (arith, c),
            omega (arith, c, h, e),
            omega (arith, d),
            λ a b. absurd (ground (arith, a)),
          )
          | inl f ↦ elim (Bool-cases (leb policy.max_attempts 1 || not (may_retry r.0))) [
            | inl g ↦
                rw (f, g)
                  (
                    omega (arith, c),
                    omega (arith, c, h, e),
                    omega (arith, d),
                    λ a b. ground (arith, c, b, g, e),
                  )
            | inr g ↦
                rw (f, g)
                  (
                    omega (arith, later.3, c),
                    omega (arith, later.0, c, e),
                    rw x (omega (arith, later.1, d)),
                    λ a b. let n = later.2 a b in omega (arith, n, c, e),
                  )
          ]
        ]

    -- What a retry costs at most, whatever the operation answers. If every call of the operation
    -- counts as one and sleeps nothing, the clock sleeps as long as it is told, and the random draws
    -- do neither, then a policy that allows an attempt calls the operation at least once and at most
    -- `max_attempts` times, with at most `max_attempts - 1` sleeps of the longest backoff; and it
    -- gives up on an error that may be retried only after `max_attempts` calls.
    pub retry_async-Cheap :
        (w : W)
        → 0 < policy.max_attempts
        → Cheap w (retry_async random sleep operation may_retry policy w)
    unfolding retry_async
    retry_async-Cheap w h = first-Cheap policy.max_attempts w refl h
