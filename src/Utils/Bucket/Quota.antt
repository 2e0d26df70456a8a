-- ===== src/Utils/Bucket/Quota.antt =====
-- What a token bucket grants in a stretch of time.
use eden_os.Prelude.{
  ℕ, ◌+◌, ◌-◌, ◌*◌, ◌≤◌, false, List, [], ◌∷◌, leb, ◌==◌, ◌≡◌, refl, ap, ◌∙◌, arith, inl, inr,
  Bool-cases, if◌then◌else◌,
}
use native.Mathlib.Nat.{add-mul}
use eden_os.Utils.Bucket.{TokenBucket, is_unlimited, refill, try_acquire}

-- The tokens granted by a row of calls of `try_acquire`, each at its time.
unfoldable pub granted : List (ℕ × ℕ) → TokenBucket → ℕ × TokenBucket
granted [] b = (0, b)
granted ((tokens, now) ∷ calls) b =
    let (admitted, b') = try_acquire tokens now b in
    let (rest, b'') = granted calls b' in ((if admitted then tokens else 0) + rest, b'')

-- The clock does not go back.
abbrev pub Forward : (now : ℕ) → List (ℕ × ℕ) → Type 0
Forward now [] = Unit
Forward now (call ∷ calls) = (now ≤ call.1) × Forward call.1 calls

abbrev pub last_time : ℕ → List (ℕ × ℕ) → ℕ
last_time now [] = now
last_time now (call ∷ calls) = last_time call.1 calls

last_time-le : (now : ℕ) (calls : List (ℕ × ℕ)) → Forward now calls → now ≤ last_time now calls
last_time-le now [] h = omega arith
last_time-le now (call ∷ calls) h = omega (arith, last_time-le call.1 calls h.1, h.0)

-- One call.
step :
    (tokens now : ℕ) (b : TokenBucket)
    → (b.rate == 0) ≡ false
    → (let r = try_acquire tokens now b in
        ((if r.0 then tokens else 0) + r.1.tokens ≤ b.tokens + (now - b.updated_at) * b.rate)
        × (r.1.rate ≡ b.rate)
        × (r.1.updated_at ≡ now))
unfolding try_acquire
step tokens now b limited = elim (Bool-cases (leb tokens (refill now b).tokens)) [
  | inl e ↦ rw (limited, e) (ground (arith, e), refl, refl)
  | inr e ↦ rw (limited, e) (ground arith, refl, refl)
]

earned : (a b c r : ℕ) → a ≤ b → b ≤ c → (b - a) * r + (c - b) * r ≡ (c - a) * r
earned a b c r h g =
    let e : (b - a) + (c - b) ≡ c - a = omega (arith, h, g) in
    let s = add-mul (b - a) (c - b) r in
    let t : ((b - a) + (c - b)) * r ≡ (c - a) * r = ap (λ n. n * r) e in omega (arith, s, t)

total :
    (calls : List (ℕ × ℕ)) (b : TokenBucket) (u r : ℕ)
    → b.updated_at ≡ u
    → b.rate ≡ r
    → (r == 0) ≡ false
    → Forward u calls
    → (granted calls b).0 ≤ b.tokens + (last_time u calls - u) * r
unfolding granted
total [] b u r eu er limited forward = omega arith
total ((tokens, now) ∷ calls) b u r eu er limited forward =
    let s = step tokens now b (ap (λ n. n == 0) er ∙ limited) in
    let next = (try_acquire tokens now b).1 in
    let ih = total calls next now r s.2 (s.1 ∙ er) limited forward.1 in
    let q : (now - b.updated_at) * b.rate ≡ (now - u) * r =
      ap (λ n. (now - n) * b.rate) eu ∙ ap (λ n. (now - u) * n) er in
    let t = earned u now (last_time now calls) r forward.0 (last_time-le now calls forward.1) in
    omega (arith, s.0, ih, q, t)

-- The quota of a limited bucket: any row of calls of `try_acquire`, at times that do not go back,
-- is granted no more tokens than the bucket held and its rate earned since it was last refilled.
pub granted-le :
    (calls : List (ℕ × ℕ)) (b : TokenBucket)
    → is_unlimited b ≡ false
    → Forward b.updated_at calls
    → (granted calls b).0 ≤ b.tokens + (last_time b.updated_at calls - b.updated_at) * b.rate
granted-le calls b limited forward = total calls b b.updated_at b.rate refl refl limited forward
