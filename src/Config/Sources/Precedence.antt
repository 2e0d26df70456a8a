-- ===== src/Config/Sources/Precedence.antt =====
-- The precedence of the sources: what the merged table holds at a path.
use eden_os.Prelude.{
  String, Bool, true, false, Option, none, some, List, [], ◌∷◌, ◌++◌, ◌≡◌, refl, sym, ap, ◌∙◌,
  subst, arith, ◌⊎◌, inl, inr, Bool-cases, if◌then◌else◌, str_eq, eq_iff, All,
}
use eden_os.Config.Sources.{
  Raw, text, flag, int, float, items, table, Table, no_entries, entry, get, put, deep_merge,
  merge_value, merge_all,
}
use eden_os.Config.Sources.Lookup.{get-put, get-put_same, inside, lookup}

abbrev mutual
  -- A `dict` has every key once, at every depth.
  pub IsDict : Table → Type 0
  IsDict no_entries = Unit
  IsDict (entry k v t) = (get k t ≡ none) × IsValue v × IsDict t

  pub IsValue : Raw → Type 0
  IsValue (table t) = IsDict t
  IsValue _ = Unit

get-IsDict : (k : String) (t u : Table) → IsDict t → get k t ≡ some (table u) → IsDict u
unfolding get
get-IsDict k no_entries u h e = absurd (cc)
get-IsDict k (entry j v t) u h e = elim (Bool-cases (str_eq j k)) [
  | inl f ↦
      let same : v ≡ table u = (let g : some v ≡ some (table u) = rw f at e in cc) in
      subst IsValue same h.1
  | inr f ↦ get-IsDict k t u h.2 (rw f at e)
]

abbrev merged_at : Option Raw → Option Raw → Option Raw
merged_at b none = b
merged_at b (some v) = some (merge_value b v)

get-deep_merge :
    (k : String) (base o : Table)
    → IsDict o
    → get k (deep_merge base o) ≡ merged_at (get k base) (get k o)
unfolding get deep_merge
get-deep_merge k base no_entries h = refl
get-deep_merge k base (entry j v o) h =
    let x = merge_value (get j base) v in
    get-deep_merge k (put j x base) o h.2 ∙ after (Bool-cases (str_eq j k))
  where
    after :
        (str_eq j k ≡ true) ⊎ (str_eq j k ≡ false)
        → merged_at (get k (put j (merge_value (get j base) v) base)) (get k o)
          ≡ merged_at (get k base) (if str_eq j k then some v else get k o)
    after (inl e) =
        let same : j ≡ k = ground (arith, eq_iff j k, e) in
        let absent : get k o ≡ none = ap (λ i. get i o) (sym same) ∙ h.0 in
        let here = get-put_same j (merge_value (get j base) v) base in
        ap (merged_at (get k (put j (merge_value (get j base) v) base))) absent
        ∙ subst
            (λ i.
              get i (put j (merge_value (get j base) v) base) ≡ some (merge_value (get j base) v))
            same here
        ∙ ap (λ i. some (merge_value (get i base) v)) same
        ∙ rw e refl
    after (inr e) = rw e (
        ap (λ y. merged_at y (get k o)) (get-put j k (merge_value (get j base) v) base ∙ rw e refl))

abbrev pub is_scalar : Raw → Bool
is_scalar (table t) = false
is_scalar _ = true

merge_scalar : (b : Option Raw) (v : Raw) → is_scalar v ≡ true → merge_value b v ≡ v
unfolding merge_value
merge_scalar none v h = refl
merge_scalar (some (table t)) (table u) h = absurd (ground (arith, h))
merge_scalar (some (table t)) (text s) h = refl
merge_scalar (some (table t)) (flag b) h = refl
merge_scalar (some (table t)) (int n) h = refl
merge_scalar (some (table t)) (float s) h = refl
merge_scalar (some (table t)) (items l) h = refl
merge_scalar (some (text s)) v h = refl
merge_scalar (some (flag b)) v h = refl
merge_scalar (some (int n)) v h = refl
merge_scalar (some (float s)) v h = refl
merge_scalar (some (items l)) v h = refl

-- What a merged table holds inside a key that the overlay gives a table.
merged_inside :
    (f : Table → Option Raw) (b : Option Raw) (u : Table) (v : Option Raw)
    → f u ≡ v
    → ((t : Table) → b ≡ some (table t) → f (deep_merge t u) ≡ v)
    → inside (some (merge_value b (table u))) f ≡ v
unfolding merge_value
merged_inside f none u v h g = h
merged_inside f (some (table t)) u v h g = g t refl
merged_inside f (some (text s)) u v h g = h
merged_inside f (some (flag b)) u v h g = h
merged_inside f (some (int n)) u v h g = h
merged_inside f (some (float s)) u v h g = h
merged_inside f (some (items l)) u v h g = h

-- A scalar of the overlay wins.
overlay_wins :
    (path : List String) (base o : Table) (v : Raw)
    → IsDict o
    → is_scalar v ≡ true
    → lookup path o ≡ some v
    → lookup path (deep_merge base o) ≡ some v
unfolding lookup
overlay_wins [] base o v dict scalar e = e
overlay_wins (k ∷ []) base o v dict scalar e =
    get-deep_merge k base o dict
    ∙ ap (merged_at (get k base)) e
    ∙ ap some (merge_scalar (get k base) v scalar)
overlay_wins (k ∷ j ∷ path) base o v dict scalar e =
    ap (λ x. inside x (lookup (j ∷ path))) (get-deep_merge k base o dict)
    ∙ go (get k o) refl e (λ u t d h. overlay_wins (j ∷ path) t u v d scalar h)
  where
    go :
        (x : Option Raw)
        → get k o ≡ x
        → inside x (lookup (j ∷ path)) ≡ some v
        → ((u t : Table)
            → IsDict u
            → lookup (j ∷ path) u ≡ some v
            → lookup (j ∷ path) (deep_merge t u) ≡ some v)
        → inside (merged_at (get k base) x) (lookup (j ∷ path)) ≡ some v
    go (some (table u)) here e ih =
        merged_inside (lookup (j ∷ path)) (get k base) u (some v) e
          (λ t b. ih u t (get-IsDict k o u dict here) e)
    go none here e ih = absurd (cc)
    go (some (text s)) here e ih = absurd (cc)
    go (some (flag b)) here e ih = absurd (cc)
    go (some (int n)) here e ih = absurd (cc)
    go (some (float s)) here e ih = absurd (cc)
    go (some (items l)) here e ih = absurd (cc)

-- A table says nothing at a path: the path leaves its tables.
abbrev pub Quiet : Option Raw → (Table → Type 0) → Type 0
Quiet none P = Unit
Quiet (some (table u)) P = P u
Quiet _ P = ⊥

unfoldable pub Silent : List String → Table → Type 0
Silent [] t = Unit
Silent (k ∷ []) t = get k t ≡ none
Silent (k ∷ j ∷ path) t = Quiet (get k t) (Silent (j ∷ path))

unheard : (path : List String) (t : Table) → Silent path t → lookup path t ≡ none
unfolding lookup Silent
unheard [] t h = refl
unheard (k ∷ []) t h = h
unheard (k ∷ j ∷ path) t h = go (get k t) h (λ u q. unheard (j ∷ path) u q)
  where
    go :
        (x : Option Raw)
        → Quiet x (Silent (j ∷ path))
        → ((u : Table) → Silent (j ∷ path) u → lookup (j ∷ path) u ≡ none)
        → inside x (lookup (j ∷ path)) ≡ none
    go none h ih = refl
    go (some (table u)) h ih = ih u h
    go (some (text s)) h ih = refl
    go (some (flag b)) h ih = refl
    go (some (int n)) h ih = refl
    go (some (float s)) h ih = refl
    go (some (items l)) h ih = refl

quiet_inside :
    (f : Table → Option Raw) (b : Option Raw) (u : Table)
    → f u ≡ none
    → ((t : Table) → f (deep_merge t u) ≡ f t)
    → inside (some (merge_value b (table u))) f ≡ inside b f
unfolding merge_value
quiet_inside f none u h g = h
quiet_inside f (some (table t)) u h g = g t
quiet_inside f (some (text s)) u h g = h
quiet_inside f (some (flag b)) u h g = h
quiet_inside f (some (int n)) u h g = h
quiet_inside f (some (float s)) u h g = h
quiet_inside f (some (items l)) u h g = h

-- An overlay that is silent at a path changes nothing there.
unchanged :
    (path : List String) (base o : Table)
    → IsDict o
    → Silent path o
    → lookup path (deep_merge base o) ≡ lookup path base
unfolding lookup Silent
unchanged [] base o dict h = refl
unchanged (k ∷ []) base o dict h = get-deep_merge k base o dict ∙ ap (merged_at (get k base)) h
unchanged (k ∷ j ∷ path) base o dict h =
    ap (λ x. inside x (lookup (j ∷ path))) (get-deep_merge k base o dict)
    ∙ go (get k o) refl h (λ u t d q. unchanged (j ∷ path) t u d q)
  where
    go :
        (x : Option Raw)
        → get k o ≡ x
        → Quiet x (Silent (j ∷ path))
        → ((u t : Table)
            → IsDict u
            → Silent (j ∷ path) u
            → lookup (j ∷ path) (deep_merge t u) ≡ lookup (j ∷ path) t)
        → inside (merged_at (get k base) x) (lookup (j ∷ path))
          ≡ inside (get k base) (lookup (j ∷ path))
    go none here q ih = refl
    go (some (table u)) here q ih =
        quiet_inside (lookup (j ∷ path)) (get k base) u (unheard (j ∷ path) u q)
          (λ t. ih u t (get-IsDict k o u dict here) q)
    go (some (text s)) here q ih = absurd q
    go (some (flag b)) here q ih = absurd q
    go (some (int n)) here q ih = absurd q
    go (some (float s)) here q ih = absurd q
    go (some (items l)) here q ih = absurd q

later_keep :
    (path : List String) (base : Table) (later : List Table)
    → All IsDict later
    → All (Silent path) later
    → lookup path (merge_all base later) ≡ lookup path base
unfolding merge_all
later_keep path base [] dicts silent = refl
later_keep path base (o ∷ later) dicts silent =
    later_keep path (deep_merge base o) later dicts.1 silent.1
    ∙ unchanged path base o dicts.0 silent.0

-- The precedence of the sources, from the lowest to the highest: the merged settings hold at a path
-- what the last source with a say there gives, if that is a scalar and the sources are dictionaries,
-- with every key once. The sources before it do not matter, whatever they hold.
pub lookup-merge_all :
    (path : List String) (base s : Table) (earlier later : List Table) (v : Raw)
    → All IsDict (s ∷ later)
    → is_scalar v ≡ true
    → lookup path s ≡ some v
    → All (Silent path) later
    → lookup path (merge_all base (earlier ++ s ∷ later)) ≡ some v
unfolding merge_all
lookup-merge_all path base s [] later v dicts scalar e silent =
    later_keep path (deep_merge base s) later dicts.1 silent
    ∙ overlay_wins path base s v dicts.0 scalar e
lookup-merge_all path base s (t ∷ earlier) later v dicts scalar e silent =
    lookup-merge_all path (deep_merge base t) s earlier later v dicts scalar e silent
