-- ===== src/Prelude/Selection.antt =====
-- What a cut of a sorted list takes, and what a filter by that cut leaves.
use Prim.Native.Nat.{ℕ, zero, suc}
use mathlib.Core.Path.{◌≡◌, refl}
use mathlib.Core.Logic.{inl, inr}
use mathlib.Core.Bool.{Bool, true, false}
use mathlib.Core.List.{List, [], ◌∷◌, ◌++◌}
use native.Mathlib.Omega.{arith}
use eden_os.Prelude.Tests.{Bool-cases}
use eden_os.Prelude.Lists.{take, drop, keep}
use eden_os.Prelude.Predicates.{All, All-keep_sub}
use eden_os.Prelude.Sorting.{insert, sort, Sorted, Order, All-insert, All-sort}

pub All-map {ℓ κ μ} :
    {A : Type ℓ} (P : A → Type κ) (Q : A → Type μ) (f : (x : A) → P x → Q x) (xs : List A)
    → All P xs
    → All Q xs
All-map P Q f [] h = tt
All-map P Q f (x ∷ xs) h = (f x h.0, All-map P Q f xs h.1)

pub All-take {ℓ κ} :
    {A : Type ℓ} (P : A → Type κ) (n : ℕ) (xs : List A) → All P xs → All P (take n xs)
All-take P zero xs h = tt
All-take P (suc n) [] h = tt
All-take P (suc n) (x ∷ xs) h = (h.0, All-take P n xs h.1)

pub All-drop {ℓ κ} :
    {A : Type ℓ} (P : A → Type κ) (n : ℕ) (xs : List A) → All P xs → All P (drop n xs)
All-drop P zero xs h = h
All-drop P (suc n) [] h = tt
All-drop P (suc n) (x ∷ xs) h = All-drop P n xs h.1

module _ {ℓ κ} {A : Type ℓ} (R : A → A → Type κ) where
  swap_empty : (ys : List A) → All (λ y. All (λ x. R x y) []) ys
  swap_empty [] = tt
  swap_empty (y ∷ ys) = (tt, swap_empty ys)

  swap_head :
      (x : A) (xs ys : List A)
      → All (R x) ys
      → All (λ y. All (λ z. R z y) xs) ys
      → All (λ y. All (λ z. R z y) (x ∷ xs)) ys
  swap_head x xs [] h g = tt
  swap_head x xs (y ∷ ys) h g = ((h.0, g.0), swap_head x xs ys h.1 g.1)

  pub All-swap : (xs ys : List A) → All (λ x. All (R x) ys) xs → All (λ y. All (λ x. R x y) xs) ys
  All-swap [] ys h = swap_empty ys
  All-swap (x ∷ xs) ys h = swap_head x xs ys h.0 (All-swap xs ys h.1)

module _ {ℓ} {A : Type ℓ} where
  pub keep-append : (p : A → Bool) (xs ys : List A) → keep p (xs ++ ys) ≡ keep p xs ++ keep p ys
  keep-append p [] ys = refl
  keep-append p (x ∷ xs) ys = ground (arith, keep-append p xs ys)

  pub keep_none : (p : A → Bool) (xs : List A) → All (λ x. p x ≡ false) xs → keep p xs ≡ []
  keep_none p [] h = refl
  keep_none p (x ∷ xs) h = ground (arith, keep_none p xs h.1)

  pub keep-All : (p : A → Bool) (xs : List A) → All (λ x. p x ≡ true) xs → keep p xs ≡ xs
  keep-All p [] h = refl
  keep-All p (x ∷ xs) h = ground (arith, keep-All p xs h.1)

module _ {ℓ} {A : Type ℓ} (before : A → A → Bool) where
  insert-Sorted :
      Order before → (x : A) (xs : List A) → Sorted before xs → Sorted before (insert before x xs)
  unfolding insert
  insert-Sorted o x [] s = (tt, tt)
  insert-Sorted o x (y ∷ ys) s = elim (Bool-cases (before x y)) [
    | inl e ↦ rw e (
      (
        e,
        All-map (λ z. before y z ≡ true) (λ z. before x z ≡ true) (λ z h. o.trans x y z e h) ys s.0,
      ),
      s,
    )
    | inr e ↦ rw e (
      All-insert before (λ z. before y z ≡ true) x ys (o.total x y e) s.0,
      insert-Sorted o x ys s.1,
    )
  ]

  -- A sorted list is in order.
  pub sort-Sorted : Order before → (xs : List A) → Sorted before (sort before xs)
  unfolding sort
  sort-Sorted o [] = tt
  sort-Sorted o (x ∷ xs) = insert-Sorted o x (sort before xs) (sort-Sorted o xs)

  -- What a cut takes of a list in order may stand before all that it leaves.
  pub Sorted-cut :
      (n : ℕ) (xs : List A)
      → Sorted before xs
      → All (λ r. All (λ s. before r s ≡ true) (drop n xs)) (take n xs)
  Sorted-cut zero xs s = tt
  Sorted-cut (suc n) [] s = tt
  Sorted-cut (suc n) (x ∷ xs) s = (All-drop (λ y. before x y ≡ true) n xs s.0, Sorted-cut n xs s.1)

  pub Sorted-take : (n : ℕ) (xs : List A) → Sorted before xs → Sorted before (take n xs)
  Sorted-take zero xs s = tt
  Sorted-take (suc n) [] s = tt
  Sorted-take (suc n) (x ∷ xs) s =
      (All-take (λ y. before x y ≡ true) n xs s.0, Sorted-take n xs s.1)

  -- A symmetric relation between any two elements does not notice the order.
  module _ (rel : A → A → Bool) (symmetric : (x y : A) → rel x y ≡ true → rel y x ≡ true) where
    Sorted-insert : (x : A) (xs : List A) → Sorted rel (x ∷ xs) → Sorted rel (insert before x xs)
    unfolding insert
    Sorted-insert x [] h = h
    Sorted-insert x (y ∷ ys) h = elim (Bool-cases (before x y)) [
      | inl e ↦ rw e h
      | inr e ↦ rw e (
        All-insert before (λ z. rel y z ≡ true) x ys (symmetric x y h.0.0) h.1.0,
        Sorted-insert x ys (h.0.1, h.1.1),
      )
    ]

    pub Sorted-sort : (xs : List A) → Sorted rel xs → Sorted rel (sort before xs)
    unfolding sort
    Sorted-sort [] h = tt
    Sorted-sort (x ∷ xs) h =
        Sorted-insert x (sort before xs)
          (All-sort before (λ y. rel x y ≡ true) xs h.0, Sorted-sort xs h.1)

  pub Sorted-keep : (p : A → Bool) (xs : List A) → Sorted before xs → Sorted before (keep p xs)
  Sorted-keep p [] h = tt
  Sorted-keep p (x ∷ xs) h = elim (Bool-cases (p x)) [
    | inl e ↦ rw e (All-keep_sub (λ y. before x y ≡ true) p xs h.0, Sorted-keep p xs h.1)
    | inr e ↦ rw e (Sorted-keep p xs h.1)
  ]
