-- ===== src/Agents/Search/Roots.antt =====
-- Which directories a file search may walk, and where their paths lead.
use eden_os.Prelude.{
  String, Bool, not, ◌⊎◌, All-keep_sub, true, Option, none, some, List, [], ◌∷◌, ◌++◌, map, keep,
  ◌≡◌, refl, sym, subst, ap, ◌∙◌, arith, inl, inr, Bool-cases, All, All-keep,
}
use eden_os.Prelude.Sorting.{All-sort}
use eden_os.Prelude.Selection.{All-map}
use eden_os.Execution.Verification.Scope.{Parts, parts_eq, parts_eq_refl, is_within, is_within_iff}
use eden_os.Agents.Search.{
  Host, unique, path_leb, search_roots, inside, narrow_roots, or_all, targets_of,
}

append_assoc : (p q r : Parts) → (p ++ q) ++ r ≡ p ++ (q ++ r)
append_assoc [] q r = refl
append_assoc (x ∷ p) q r = ap (λ l. x ∷ l) (append_assoc p q r)

pub within_append : (p q root : Parts) → is_within p root ≡ true → is_within (p ++ q) root ≡ true
within_append p q root h =
    let (rest, e) = (is_within_iff p root).0 h in
    (is_within_iff (p ++ q) root).1 (rest ++ q, ap (λ l. l ++ q) e ∙ append_assoc root rest q)

pub within_self : (p : Parts) → is_within p p ≡ true
unfolding is_within
within_self p = ground (arith, parts_eq_refl p)

within_trans : (p q r : Parts) → is_within p q ≡ true → is_within q r ≡ true → is_within p r ≡ true
within_trans p q r h g =
    let (rest, e) = (is_within_iff p q).0 h in
    subst (λ l. is_within l r ≡ true) (sym e) (within_append q rest r g)

-- What the file system says of symbolic links: where a path leads once they are followed, and
-- whether it is one.
pub record Links : Type 0 where
  pub real : Parts → Parts
  pub is_link : Parts → Bool

module _ (host : Host) (links : Links) where
  -- A file that is no link is found where its path says.
  abbrev pub Direct : Parts → String → Type 0
  Direct dir f = let path = dir ++ f ∷ [] in (links.is_link path ≡ true) ⊎ (links.real path ≡ path)

  -- What `Path.resolve` and `os.walk` promise: a resolved path holds no link, and a walk yields
  -- directories at or below its root, which it enters without following links.
  pub record IsDisk : Type 0 where
    pub resolves : (s : String) → links.real (host.resolve s) ≡ host.resolve s
    pub walks : (root : Parts) → All (λ d. is_within d.0 root ≡ true) (host.walk root)
    pub direct :
        (root : Parts) → links.real root ≡ root → All (λ d. All (Direct d.0) d.1) (host.walk root)

module _ (host : Host) (links : Links) where
  pub inside_under :
      (allowed : List Parts) (p q : Parts)
      → is_within p q ≡ true
      → inside host allowed q ≡ true
      → inside host allowed p ≡ true
  inside_under [] p q h g = g
  inside_under (r ∷ allowed) p q h g = elim (Bool-cases (is_within q r)) [
    | inl e ↦ let t = within_trans p q r h e in ground (arith, t)
    | inr e ↦ let ih = inside_under allowed p q h (ground (arith, g, e)) in ground (arith, ih)
  ]

  -- A root that may be searched: at or below an allowed one, and with no link in its path.
  abbrev pub Root : List Parts → Parts → Type 0
  Root allowed p = (inside host allowed p ≡ true) × (links.real p ≡ p)

  inside_self :
      (allowed : List Parts) → All (λ p. links.real p ≡ p) allowed → All (Root allowed) allowed
  inside_self [] h = tt
  inside_self (r ∷ allowed) h =
      let self = within_self r in
      (
        (ground (arith, self), h.0),
        All-map (Root allowed) (Root (r ∷ allowed)) (λ p h. (ground (arith, h.0), h.1)) allowed
            (inside_self allowed h.1),
      )

  resolved :
      IsDisk host links → (raws : List String) → All (λ p. links.real p ≡ p) (map host.resolve raws)
  resolved disk [] = tt
  resolved disk (s ∷ raws) = (disk.resolves s, resolved disk raws)

  unique-All : (P : Parts → Type 0) (ps : List Parts) → All P ps → All P (unique ps)
  unfolding unique
  unique-All P [] h = tt
  unique-All P (p ∷ ps) h =
      (h.0, All-keep_sub P (λ q. not (parts_eq p q)) (unique ps) (unique-All P ps h.1))

  pub search_roots-real :
      IsDisk host links
      → (configured : List String) (workspace : Option String)
      → All (λ p. links.real p ≡ p) (search_roots host configured workspace)
  unfolding search_roots
  search_roots-real disk configured none =
      All-sort path_leb (λ p. links.real p ≡ p) (unique (map host.resolve configured))
        (unique-All (λ p. links.real p ≡ p) (map host.resolve configured)
          (resolved disk configured))
  search_roots-real disk configured (some root) =
      let raws = configured ++ root ∷ [] in
      All-sort path_leb (λ p. links.real p ≡ p) (unique (map host.resolve raws))
        (unique-All (λ p. links.real p ≡ p) (map host.resolve raws) (resolved disk raws))

  pairs :
      (allowed ps : List Parts)
      → All (λ p. inside host allowed p ≡ true) ps
      → All (λ p. links.real p ≡ p) ps
      → All (Root allowed) ps
  pairs allowed [] h g = tt
  pairs allowed (p ∷ ps) h g = ((h.0, g.0), pairs allowed ps h.1 g.1)

  pub targets-Root :
      IsDisk host links
      → (roots : List String) (allowed : List Parts) → All (λ p. links.real p ≡ p) allowed
      → All (Root allowed) (targets_of host roots allowed)
  unfolding narrow_roots
  targets-Root disk [] allowed h = inside_self allowed h
  targets-Root disk (r ∷ roots) allowed h =
      let raws = map host.resolve (r ∷ roots) in
      either (keep (inside host allowed) raws) (
        pairs allowed (keep (inside host allowed) raws) (All-keep (inside host allowed) raws) (
          All-keep_sub (λ p. links.real p ≡ p) (inside host allowed) raws
            (resolved disk (r ∷ roots))))
    where
      either : (l : List Parts) → All (Root allowed) l → All (Root allowed) (or_all host l allowed)
      either [] g = inside_self allowed h
      either (p ∷ l) g = g
