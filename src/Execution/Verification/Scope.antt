-- ===== src/Execution/Verification/Scope.antt =====
-- The paths of src/eden/execution/verification.py: `_is_within` and `_matches_glob`, over a resolved
-- path as the list of its parts.
use eden_os.Prelude.{
  String, Bool, true, false, List, [], ◌∷◌, ◌++◌, map, ◌≡◌, ◌↔◌, refl, arith, ◌&&◌, ◌||◌, any,
  str_eq, eq_iff,
}

abbrev pub Parts : Type 0
Parts = List String

unfoldable pub parts_eq : Parts → Parts → Bool
parts_eq [] [] = true
parts_eq [] (y ∷ ys) = false
parts_eq (x ∷ xs) [] = false
parts_eq (x ∷ xs) (y ∷ ys) = str_eq x y && parts_eq xs ys

-- `path.parents`: the proper prefixes.
unfoldable pub parents : Parts → List Parts
parents [] = []
parents (x ∷ xs) = [] ∷ map (λ p. x ∷ p) (parents xs)

-- `_is_within`
unfoldable pub is_within : Parts → Parts → Bool
unfolding parts_eq parents
is_within candidate root = parts_eq candidate root || any (λ p. parts_eq root p) (parents candidate)

pub parts_eq_sound : (xs ys : Parts) → parts_eq xs ys ≡ true → xs ≡ ys
unfolding parts_eq
parts_eq_sound [] [] h = refl
parts_eq_sound [] (y ∷ ys) h = ground arith
parts_eq_sound (x ∷ xs) [] h = ground arith
parts_eq_sound (x ∷ xs) (y ∷ ys) h = ground (arith, eq_iff x y, parts_eq_sound xs ys)

pub parts_eq_refl : (xs : Parts) → parts_eq xs xs ≡ true
unfolding parts_eq
parts_eq_refl [] = refl
parts_eq_refl (x ∷ xs) = ground (arith, eq_iff x x, parts_eq_refl xs)

-- The tests of the parents of a path, one part down.
any-parts_eq-map :
    (x y : String) (ys : Parts) (ps : List Parts)
    → any (λ p. parts_eq (y ∷ ys) p) (map (λ p. x ∷ p) ps)
      ≡ (str_eq y x && any (λ p. parts_eq ys p) ps)
unfolding parts_eq
any-parts_eq-map x y ys [] = ground arith
any-parts_eq-map x y ys (p ∷ ps) = ground (arith, any-parts_eq-map x y ys ps)

-- The root is tested part by part, and is met when it ends.
is_within-cons :
    (x y : String) (xs ys : Parts) → is_within (x ∷ xs) (y ∷ ys) ≡ (str_eq y x && is_within xs ys)
unfolding is_within
is_within-cons x y xs ys =
    ground (arith, any-parts_eq-map x y ys (parents xs), eq_iff x y, eq_iff y x)

is_within-nil : (xs : Parts) → is_within xs [] ≡ true
unfolding is_within
is_within-nil [] = refl
is_within-nil (x ∷ xs) = refl

-- `_is_within` answers whether the path lies at or below the root: exactly when the root is a
-- prefix of the path, part by part.
pub is_within_iff :
    (candidate root : Parts)
    → (is_within candidate root ≡ true) ↔ ((rest : Parts) × (candidate ≡ root ++ rest))
is_within_iff candidate root = (sound candidate root, λ e. complete candidate root e.0 e.1)
  where
    complete : (c r rest : Parts) → c ≡ r ++ rest → is_within c r ≡ true
    complete c [] rest e = is_within-nil c
    complete [] (y ∷ r) rest e = cc
    complete (x ∷ c) (y ∷ r) rest e =
        ground (arith, is_within-cons x y c r, eq_iff y x, complete c r rest)

    sound : (c r : Parts) → is_within c r ≡ true → (rest : Parts) × (c ≡ r ++ rest)
    sound c [] h = (c, refl)
    sound [] (y ∷ r) h = unfold is_within in cc
    sound (x ∷ c) (y ∷ r) h =
        let (rest, e) = sound c r (ground (arith, is_within-cons x y c r)) in
        (rest, ground (arith, is_within-cons x y c r, eq_iff y x))
