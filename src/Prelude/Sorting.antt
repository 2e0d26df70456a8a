-- ===== src/Prelude/Sorting.antt =====
-- Python's stable `sorted`, by a test of whether one element may stand before another.
use Prim.Native.Nat.{suc}
use mathlib.Core.Path.{◌≡◌, refl, ap, ◌∙◌}
use mathlib.Core.Logic.{◌⊎◌, inl, inr}
use mathlib.Core.Bool.{Bool, true, false}
use mathlib.Core.List.{List, [], ◌∷◌, Perm}
use mathlib.Core.List.Perm
use native.Mathlib.Omega.{arith}
use eden_os.Prelude.Tests.{if◌then◌else◌, Bool-cases}
use eden_os.Prelude.Lists.{length, keep}
use eden_os.Prelude.Predicates.{All}

module _ {ℓ} {A : Type ℓ} (before : A → A → Bool) where
  -- `x` goes in front of the first element that it may stand before, so equals keep their order.
  unfoldable pub insert : A → List A → List A
  insert x [] = x ∷ []
  insert x (y ∷ ys) = let rest = insert x ys in if before x y then x ∷ y ∷ ys else y ∷ rest

  -- `sorted(xs, key=…)`
  unfoldable pub sort : List A → List A
  unfolding insert
  sort [] = []
  sort (x ∷ xs) = insert x (sort xs)

  -- Every element may stand before all that follow it.
  abbrev pub Sorted : List A → Type 0
  Sorted [] = Unit
  Sorted (x ∷ xs) = All (λ y. before x y ≡ true) xs × Sorted xs

  pub record Order : Type ℓ where
    pub total : (x y : A) → before x y ≡ false → before y x ≡ true
    pub trans : (x y z : A) → before x y ≡ true → before y z ≡ true → before x z ≡ true

  insert-perm : (x : A) (xs : List A) → Perm (insert x xs) (x ∷ xs)
  unfolding insert
  insert-perm x [] = Perm.rfl
  insert-perm x (y ∷ ys) = elim (Bool-cases (before x y)) [
    | inl e ↦ rw e Perm.rfl
    | inr e ↦ rw e (Perm.trans (Perm.cons y (insert-perm x ys)) (Perm.swap x y ys))
  ]

  -- A sorted list is a rearrangement.
  pub sort-perm : (xs : List A) → Perm (sort xs) xs
  unfolding sort
  sort-perm [] = Perm.rfl
  sort-perm (x ∷ xs) = Perm.trans (insert-perm x (sort xs)) (Perm.cons x (sort-perm xs))

  length-insert : (x : A) (xs : List A) → length (insert x xs) ≡ suc (length xs)
  unfolding insert
  length-insert x [] = refl
  length-insert x (y ∷ ys) = ground (arith, length-insert x ys)

  pub length-sort : (xs : List A) → length (sort xs) ≡ length xs
  unfolding sort
  length-sort [] = refl
  length-sort (x ∷ xs) = length-insert x (sort xs) ∙ ap suc (length-sort xs)

  keep-insert-length :
      (p : A → Bool) (x : A) (xs : List A)
      → length (keep p (insert x xs)) ≡ length (keep p (x ∷ xs))
  unfolding insert
  keep-insert-length p x [] = refl
  keep-insert-length p x (y ∷ ys) = ground (arith, keep-insert-length p x ys)

  -- Sorting does not change how many elements pass a test.
  pub keep-sort-length :
      (p : A → Bool) (xs : List A) → length (keep p (sort xs)) ≡ length (keep p xs)
  unfolding sort
  keep-sort-length p [] = refl
  keep-sort-length p (x ∷ xs) =
      let ih = keep-sort-length p xs in keep-insert-length p x (sort xs) ∙ ground (arith, ih)

  keep-insert_perm :
      (p : A → Bool) (x : A) (xs : List A) → Perm (keep p (insert x xs)) (keep p (x ∷ xs))
  unfolding insert
  keep-insert_perm p x [] = Perm.rfl
  keep-insert_perm p x (y ∷ ys) = elim (Bool-cases (before x y)) [
    | inl e ↦ rw e Perm.rfl
    | inr e ↦ rw e (over p x y ys (keep-insert_perm p x ys))
  ]
    where
      over :
          (p : A → Bool) (x y : A) (ys : List A)
          → Perm (keep p (insert x ys)) (keep p (x ∷ ys))
          → Perm (keep p (y ∷ insert x ys)) (keep p (x ∷ y ∷ ys))
      over p x y ys ih = elim (Bool-cases (p y)) [
        | inl h ↦ elim (Bool-cases (p x)) [
          | inl g ↦ rw (h, g) (Perm.trans (Perm.cons y (rw g at ih)) (Perm.swap x y (keep p ys)))
          | inr g ↦ rw (h, g) (Perm.cons y (rw g at ih))
        ]
        | inr h ↦ rw h ih
      ]

  pub keep-sort_perm : (p : A → Bool) (xs : List A) → Perm (keep p (sort xs)) (keep p xs)
  unfolding sort
  keep-sort_perm p [] = Perm.rfl
  keep-sort_perm p (x ∷ xs) =
      Perm.trans (keep-insert_perm p x (sort xs)) (front (Bool-cases (p x)) (keep-sort_perm p xs))
    where
      front :
          (p x ≡ true) ⊎ (p x ≡ false)
          → Perm (keep p (sort xs)) (keep p xs)
          → Perm (keep p (x ∷ sort xs)) (keep p (x ∷ xs))
      front (inl e) ih = rw e (Perm.cons x ih)
      front (inr e) ih = rw e ih

  pub All-insert {κ} : (P : A → Type κ) (x : A) (xs : List A) → P x → All P xs → All P (insert x xs)
  unfolding insert
  All-insert P x [] h hs = (h, tt)
  All-insert P x (y ∷ ys) h hs = elim (Bool-cases (before x y)) [
    | inl e ↦ rw e (h, hs)
    | inr e ↦ rw e (hs.0, All-insert P x ys h hs.1)
  ]

  pub All-sort {κ} : (P : A → Type κ) (xs : List A) → All P xs → All P (sort xs)
  unfolding sort
  All-sort P [] h = tt
  All-sort P (x ∷ xs) h = All-insert P x (sort xs) h.0 (All-sort P xs h.1)

  All-uninsert {κ} : (P : A → Type κ) (x : A) (xs : List A) → All P (insert x xs) → P x × All P xs
  unfolding insert
  All-uninsert P x [] h = h
  All-uninsert P x (y ∷ ys) h = elim (Bool-cases (before x y)) [
    | inl e ↦ rw e at h
    | inr e ↦
        let g : All P (y ∷ insert x ys) = rw e at h in
        let ih = All-uninsert P x ys g.1 in (ih.0, (g.0, ih.1))
  ]

  pub All-unsort {κ} : (P : A → Type κ) (xs : List A) → All P (sort xs) → All P xs
  unfolding sort
  All-unsort P [] h = tt
  All-unsort P (x ∷ xs) h = let g = All-uninsert P x (sort xs) h in (g.0, All-unsort P xs g.1)
