-- ===== src/Memory/ShortTerm/Eviction.antt =====
-- What short-term memory forgets when a buffer is too long.
use eden_os.Prelude.{
  ℕ, zero, suc, ◌+◌, ◌-◌, ◌≤◌, ◌<◌, ◌⊎◌, Bool, true, false, not, ◌||◌, List, [], ◌∷◌, ◌++◌, map,
  ◌≡◌, refl, sym, ap, subst, ◌∙◌, inl, inr, arith, leb, length, take, drop, keep, str_eq, eq_iff,
  All, Bool-cases, take-append-drop,
}
use mathlib.Core.List.{Perm}
use mathlib.Core.List.Perm
use eden_os.Prelude.Text.{contains}
use eden_os.Prelude.Sorting.{
  sort, Sorted, Order, length-sort, sort-perm, keep-sort-length, keep-sort_perm,
}
use eden_os.Prelude.Selection.{
  Sorted-cut, keep-append, keep-All, keep_none, All-map, All-swap, Sorted-sort, sort-Sorted,
}
use eden_os.Memory.Records.{MemoryRecord}
use eden_os.Memory.ShortTerm.{Policy, weaker, doomed, evict}

weaker-Order : Order weaker
weaker-Order = record { total = λ x y h. ground arith; trans = λ x y z h g. ground arith }

-- The victims are known by their identifiers.
contains_self :
    (names : List MemoryRecord) → All (λ r. contains (map (λ s. s.id) names) r.id ≡ true) names
unfolding contains
contains_self [] = tt
contains_self (r ∷ rs) = (
  ground (arith, eq_iff r.id r.id),
  All-map (λ s. contains (map (λ s. s.id) rs) s.id ≡ true)
      (λ s. (str_eq r.id s.id || contains (map (λ s. s.id) rs) s.id) ≡ true)
      (λ s h. ground (arith, h)) rs (contains_self rs),
)

keep-length_ge :
    (p : MemoryRecord → Bool) (n : ℕ) (xs : List MemoryRecord)
    → All (λ r. p r ≡ false) (take n xs)
    → n ≤ length xs
    → length (keep p xs) + n ≤ length xs
keep-length_ge p zero [] h l = omega arith
keep-length_ge p zero (x ∷ xs) h l = ground (arith, keep-length_ge p zero xs tt (omega arith))
keep-length_ge p (suc n) [] h l = absurd (omega arith)
keep-length_ge p (suc n) (x ∷ xs) h l = ground (arith, keep-length_ge p n xs h.1 (omega arith))

spares : ℕ → List MemoryRecord → MemoryRecord → Bool
spares n buffer r = not (contains (doomed n buffer) r.id)

spares_none :
    (n : ℕ) (buffer : List MemoryRecord)
    → All (λ r. spares n buffer r ≡ false) (take n (sort weaker buffer))
unfolding spares
spares_none n buffer =
    let cut = take n (sort weaker buffer) in
    All-map (λ r. contains (map (λ s. s.id) cut) r.id ≡ true) (λ r. spares n buffer r ≡ false)
      (λ r h. ap not h) cut (contains_self cut)

-- Whatever the buffer was, what eviction leaves is within the capacity.
pub length-evict_le :
    (policy : Policy) (buffer : List MemoryRecord) → length (evict policy buffer) ≤ policy.capacity
unfolding evict spares
length-evict_le policy buffer =
    let n = length buffer - policy.capacity in
    let sorted = sort weaker buffer in
    let fits : n ≤ length sorted = omega (arith, length-sort weaker buffer) in
    let cut = keep-length_ge (spares n buffer) n sorted (spares_none n buffer) fits in
    ground (arith, cut, length-sort weaker buffer, keep-sort-length weaker (spares n buffer) buffer)

abbrev pub differ : MemoryRecord → MemoryRecord → Bool
differ a b = not (str_eq a.id b.id)

-- No two records have the same identifier.
abbrev pub Distinct : List MemoryRecord → Type 0
Distinct = Sorted differ

differ_sym : (a b : MemoryRecord) → differ a b ≡ true → differ b a ≡ true
differ_sym a b h = ground (arith, eq_iff a.id b.id, eq_iff b.id a.id)

contains_none :
    (names : List MemoryRecord) (t : MemoryRecord)
    → All (λ r. differ r t ≡ true) names
    → contains (map (λ s. s.id) names) t.id ≡ false
unfolding contains
contains_none [] t h = refl
contains_none (r ∷ rs) t h = ground (arith, contains_none rs t h.1)

-- What should be left: the strongest records, as many as the capacity allows.
unfoldable pub strongest : Policy → List MemoryRecord → List MemoryRecord
strongest policy buffer = drop (length buffer - policy.capacity) (sort weaker buffer)

-- What should go: the others.
unfoldable pub weakest : Policy → List MemoryRecord → List MemoryRecord
weakest policy buffer = take (length buffer - policy.capacity) (sort weaker buffer)

-- The first record is less important than the second, or as important and not younger.
abbrev pub Outranked : MemoryRecord → MemoryRecord → Type 0
Outranked a b =
    (a.importance < b.importance) ⊎ ((a.importance ≡ b.importance) × (a.created_at ≤ b.created_at))

pub weakest-Outranked :
    (policy : Policy) (buffer : List MemoryRecord)
    → All (λ a. All (Outranked a) (strongest policy buffer)) (weakest policy buffer)
unfolding weakest strongest
weakest-Outranked policy buffer =
    let n = length buffer - policy.capacity in
    let sorted = sort weaker buffer in
    All-map (λ a. All (λ b. weaker a b ≡ true) (drop n sorted))
      (λ a. All (Outranked a) (drop n sorted))
      (λ a.
        All-map (λ b. weaker a b ≡ true) (Outranked a) (λ b h. ground (arith, h)) (drop n sorted))
      (take n sorted) (Sorted-cut weaker n sorted (sort-Sorted weaker weaker-Order buffer))

pub weakest-strongest :
    (policy : Policy) (buffer : List MemoryRecord)
    → Perm (weakest policy buffer ++ strongest policy buffer) buffer
unfolding weakest strongest
weakest-strongest policy buffer =
    let n = length buffer - policy.capacity in
    let sorted = sort weaker buffer in
    subst (λ l. Perm l buffer) (sym (take-append-drop n sorted)) (sort-perm weaker buffer)

spares_rest :
    (n : ℕ) (buffer : List MemoryRecord)
    → Distinct buffer
    → All (λ r. spares n buffer r ≡ true) (drop n (sort weaker buffer))
unfolding spares
spares_rest n buffer d =
    let sorted = sort weaker buffer in
    let apart = Sorted-cut differ n sorted (Sorted-sort weaker differ differ_sym buffer d) in
    All-map (λ t. All (λ r. differ r t ≡ true) (take n sorted)) (λ t. spares n buffer t ≡ true)
      (λ t h. ap not (contains_none (take n sorted) t h)) (drop n sorted)
      (All-swap (λ r t. differ r t ≡ true) (take n sorted) (drop n sorted) apart)

keep-spares :
    (n : ℕ) (buffer : List MemoryRecord)
    → Distinct buffer
    → keep (spares n buffer) (sort weaker buffer) ≡ drop n (sort weaker buffer)
keep-spares n buffer d =
    let sorted = sort weaker buffer in
    let p = spares n buffer in
    ap (keep p) (sym (take-append-drop n sorted))
    ∙ keep-append p (take n sorted) (drop n sorted)
    ∙ ap (λ l. l ++ keep p (drop n sorted)) (keep_none p (take n sorted) (spares_none n buffer))
    ∙ keep-All p (drop n sorted) (spares_rest n buffer d)

-- Eviction leaves the strongest records.
pub evict-perm :
    (policy : Policy) (buffer : List MemoryRecord)
    → Distinct buffer
    → Perm (evict policy buffer) (strongest policy buffer)
unfolding evict strongest spares
evict-perm policy buffer d =
    let n = length buffer - policy.capacity in
    elim (Bool-cases (leb n 0)) [
      | inl e ↦
          let none_over : n ≡ 0 = ground arith in
          rw e (rw none_over (Perm.symm (sort-perm weaker buffer)))
      | inr e ↦ rw e (
          subst (λ l. Perm (keep (spares n buffer) buffer) l) (keep-spares n buffer d)
            (Perm.symm (keep-sort_perm weaker (spares n buffer) buffer)))
    ]

-- and it is a filter, so those left keep their order.
pub evict_filters :
    (policy : Policy) (buffer : List MemoryRecord)
    → (p : MemoryRecord → Bool) × (evict policy buffer ≡ keep p buffer)
unfolding evict
evict_filters policy buffer =
    let n = length buffer - policy.capacity in
    elim (Bool-cases (leb n 0)) [
      | inl e ↦ ((λ r. true), rw e (sym (keep-All (λ r. true) buffer (everyone buffer))))
      | inr e ↦ (spares n buffer, unfold spares in rw e refl)
    ]
  where
    everyone : (l : List MemoryRecord) → All (λ r. true ≡ true) l
    everyone [] = tt
    everyone (r ∷ rs) = (refl, everyone rs)
