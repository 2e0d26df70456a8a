-- ===== src/Utils/Bucket/Ends.antt =====
-- When `acquire` returns.
use eden_os.Prelude.{
  ℕ, zero, suc, ◌-◌, ◌*◌, ◌≤◌, ◌<◌, true, false, none, some, List, [], ◌∷◌, ◌++◌, leb, ◌≡◌, refl,
  arith, inl, inr, Bool-cases,
}
use eden_os.Utils.Bucket.{TokenBucket, is_unlimited, refill, spend, Clock, acquire_loop, acquire}

module _ {W : Type 0} (clock : Clock W) where
  never :
      (fuel tokens : ℕ) (waited : List (ℕ × ℕ)) (b : TokenBucket) (w : W)
      → b.capacity < tokens
      → acquire_loop clock fuel tokens waited b w ≡ none
  unfolding acquire_loop
  never zero tokens waited b w h = refl
  never (suc fuel) tokens waited b w h =
      let b' = refill (clock.monotonic w) b in
      let deficit = tokens - b'.tokens in
      let rest =
        never fuel tokens (waited ++ (deficit, b.rate) ∷ []) b' (clock.sleep deficit b.rate w) h in
      let e : leb tokens b'.tokens ≡ false = ground (arith, h) in rw e rest

  second :
      (tokens : ℕ) (waited : List (ℕ × ℕ)) (b : TokenBucket) (w : W)
      → leb tokens (refill (clock.monotonic w) b).tokens ≡ true
      → (r : List (ℕ × ℕ) × TokenBucket × W) × (acquire_loop clock 1 tokens waited b w ≡ some r)
  unfolding acquire_loop
  second tokens waited b w h = ((waited, spend tokens (refill (clock.monotonic w) b), w), rw h refl)

  -- `acquire` of a limited bucket, if a sleep lasts until its deficit is earned: it returns after at
  -- most one sleep if the bucket can hold the tokens that are asked for, and if it cannot, then the
  -- loop never ends, however long it runs.
  pub acquire-Ends :
      (tokens : ℕ) (b : TokenBucket) (w : W)
      → is_unlimited b ≡ false
      → ((deficit : ℕ) (w : W)
          → deficit ≤ (clock.monotonic (clock.sleep deficit b.rate w) - clock.monotonic w) * b.rate)
      → (tokens ≤ b.capacity
          → (r : List (ℕ × ℕ) × TokenBucket × W) × (acquire clock 2 tokens b w ≡ some r))
        × (b.capacity < tokens → (fuel : ℕ) → acquire clock fuel tokens b w ≡ none)
  unfolding acquire
  acquire-Ends tokens b w limited sleeps =
      (λ fits. rw limited (ends fits), λ h fuel. rw limited (never fuel tokens [] b w h))
    where
      ends :
          tokens ≤ b.capacity
          → (r : List (ℕ × ℕ) × TokenBucket × W) × (acquire_loop clock 2 tokens [] b w ≡ some r)
      ends fits =
          let b' = refill (clock.monotonic w) b in
          let deficit = tokens - b'.tokens in
          let later = clock.sleep deficit b.rate w in
          let earned = sleeps deficit w in
          unfold acquire_loop in
          elim (Bool-cases (leb tokens b'.tokens)) [
            | inl e ↦ (([], spend tokens b', w), rw e refl)
            | inr e ↦
                rw e
                  (second tokens ((deficit, b.rate) ∷ []) b' later (ground (arith, fits, earned)))
          ]
