-- ===== src/Config/Sources/Lookup.antt =====
-- What a table holds at a path, after an assignment.
use eden_os.Prelude.{
  String, false, Option, none, some, List, [], ◌∷◌, ◌≡◌, refl, sym, ap, ◌∙◌, arith, if◌then◌else◌,
  str_eq, eq_iff,
}
use eden_os.Effect.{Outcome, ok, eden, crash}
use eden_os.Config.Sources.{
  Raw, text, table, Table, no_entries, entry, get, put, conflict, nested, entered, assign,
}

pub get-put :
    (k j : String) (v : Raw) (t : Table)
    → get j (put k v t) ≡ (if str_eq k j then some v else get j t)
unfolding get put
get-put k j v no_entries = refl
get-put k j v (entry i w t) = ground (arith, eq_iff k j, eq_iff i k, eq_iff i j, get-put k j v t)

pub get-put_same : (k : String) (v : Raw) (t : Table) → get k (put k v t) ≡ some v
get-put_same k v t = ground (arith, get-put k k v t, eq_iff k k)

-- What a function answers about the table that a key holds, and nothing for another value.
abbrev pub inside : Option Raw → (Table → Option Raw) → Option Raw
inside (some (table u)) f = f u
inside _ f = none

-- What a table holds at a path.
unfoldable pub lookup : List String → Table → Option Raw
lookup [] t = none
lookup (k ∷ []) t = get k t
lookup (k ∷ j ∷ path) t = inside (get k t) (lookup (j ∷ path))

module _ (k j : String) (path : List String) (value : String) (t t' : Table) where
  nested_found :
      (o : Outcome Table)
      → nested k t o ≡ ok t'
      → ((u : Table) → o ≡ ok u → lookup (j ∷ path) u ≡ some (text value))
      → lookup (k ∷ j ∷ path) t' ≡ some (text value)
  unfolding lookup
  nested_found (ok u) e ih =
      let same : put k (table u) t ≡ t' = cc in
      ap (λ x. inside (get k x) (lookup (j ∷ path))) (sym same)
      ∙ ap (λ x. inside x (lookup (j ∷ path))) (get-put_same k (table u) t)
      ∙ ih u refl
  nested_found (eden x) e ih = absurd (cc)
  nested_found (crash n m) e ih = absurd (cc)

  nested_frame :
      (o : Outcome Table) (i : String)
      → nested k t o ≡ ok t'
      → str_eq k i ≡ false
      → get i t' ≡ get i t
  nested_frame (ok u) i e h =
      let same : put k (table u) t ≡ t' = cc in
      ap (get i) (sym same) ∙ get-put k i (table u) t ∙ rw h refl
  nested_frame (eden x) i e h = absurd (cc)
  nested_frame (crash n m) i e h = absurd (cc)

-- The value of an environment variable is found under its path once it is assigned, and no other
-- setting at the top is touched: if `_assign` does not raise.
pub lookup-assign :
    (k : String) (path : List String) (value : String) (t t' : Table)
    → assign (k ∷ path) value t ≡ ok t'
    → (lookup (k ∷ path) t' ≡ some (text value))
      × ((i : String) → str_eq k i ≡ false → get i t' ≡ get i t)
unfolding assign lookup
lookup-assign k [] value t t' e =
    let same : put k (text value) t ≡ t' = cc in
    (
      ap (get k) (sym same) ∙ get-put_same k (text value) t,
      λ i h. ap (get i) (sym same) ∙ get-put k i (text value) t ∙ rw h refl,
    )
lookup-assign k (j ∷ path) value t t' e =
    go (entered (get k t)) e (λ u u' e'. (lookup-assign j path value u u' e').0)
  where
    go :
        (x : Option Table)
        → elim x as (λ _. Outcome Table) [
          | none ↦ eden conflict
          | some u ↦ nested k t (assign (j ∷ path) value u)
        ]
          ≡ ok t'
        → ((u u' : Table)
            → assign (j ∷ path) value u ≡ ok u'
            → lookup (j ∷ path) u' ≡ some (text value))
        → (lookup (k ∷ j ∷ path) t' ≡ some (text value))
          × ((i : String) → str_eq k i ≡ false → get i t' ≡ get i t)
    go none e ih = absurd (cc)
    go (some u) e ih = (
      nested_found k j path value t t' (assign (j ∷ path) value u) e (λ u' e'. ih u u' e'),
      λ i h. nested_frame k j path value t t' (assign (j ∷ path) value u) i e h,
    )
