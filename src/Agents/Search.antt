-- ===== src/Agents/Search.antt =====
-- The file search of src/eden/agents/context.py. A path is the list of its parts, and a hit keeps it
-- unprinted; what the operating system answers is a record of functions.
pub mod Roots
pub mod Confined
use eden_os.Prelude.{
  ℕ, zero, String, Bool, true, false, Option, none, some, List, [], ◌∷◌, ◌++◌, map, not, ◌||◌, any,
  keep, leb, ◌==◌, length, if◌then◌else◌, str_eq,
}
use eden_os.Prelude.Order.{str_leb}
use eden_os.Prelude.Sorting.{sort}
use eden_os.Errors.{EdenError, agent_capability_error}
use eden_os.Effect.{Outcome, ok, eden}
use eden_os.Execution.Verification.Scope.{Parts, parts_eq, is_within}

-- `walk` is `os.walk` without the directories of `_SKIPPED_DIRECTORY_NAMES`: every directory with
-- the names of its files. `stat` answers the size and the time, and nothing when it raises.
pub record Host : Type 0 where
  pub resolve : String → Parts
  pub is_dir : Parts → Bool
  pub walk : Parts → List (Parts × List String)
  pub fnmatch : (filename pattern : String) → Bool
  pub stat : Parts → Option (ℕ × ℕ)
  pub show : Parts → String

pub record FileHit : Type 0 where
  pub path : Parts
  pub size_bytes : ℕ
  pub modified_at : ℕ

-- `_SENSITIVE_NAME_GLOBS`
abbrev pub sensitive_name_globs : List String
sensitive_name_globs =
    ".env" ∷ ".env.*" ∷ "*.pem" ∷ "*.key" ∷ "id_rsa*" ∷ "id_ed25519*" ∷ "credentials*" ∷ "*.token"
    ∷ []

abbrev pub no_roots : EdenError
no_roots = record {
  class = agent_capability_error;
  message =
      "No search roots are configured. Add paths to agents.search_roots in eden.toml, or enable execution so its workspace becomes searchable.";
}

-- Where `_walk` stands: in its loops, or after the `return` inside them.
pub data Walk : Type 0 where
  going : (hits : List FileHit) → (seen : List Parts) → Walk
  returned : (hits : List FileHit) → Walk

-- `sorted` compares paths part by part.
unfoldable pub path_leb : Parts → Parts → Bool
path_leb [] q = true
path_leb (x ∷ p) [] = false
path_leb (x ∷ p) (y ∷ q) = let rest = path_leb p q in if str_eq x y then rest else str_leb x y

-- The elements of a set, each once.
unfoldable pub unique : List Parts → List Parts
unique [] = []
unique (p ∷ ps) = p ∷ keep (λ q. not (parts_eq p q)) (unique ps)

module _ (host : Host) where
  -- `_search_roots`, with the workspace root when there is an execution engine
  unfoldable pub search_roots :
      (configured : List String) → (workspace : Option String) → List Parts
  unfolding unique path_leb
  search_roots configured none = sort path_leb (unique (map host.resolve configured))
  search_roots configured (some root) =
      sort path_leb (unique (map host.resolve (configured ++ root ∷ [])))

  abbrev pub inside : List Parts → Parts → Bool
  inside allowed p = any (λ root. is_within p root) allowed

  abbrev pub or_all : List Parts → List Parts → List Parts
  or_all [] allowed = allowed
  or_all (p ∷ ps) allowed = p ∷ ps

  -- `_narrow_roots`
  unfoldable pub narrow_roots : (requested : List String) → (allowed : List Parts) → List Parts
  narrow_roots requested allowed =
      or_all (keep (inside allowed) (map host.resolve requested)) allowed

  abbrev pub hit_at : Parts → Option (ℕ × ℕ) → List FileHit → List FileHit
  hit_at path none hits = hits
  hit_at path (some (size, time)) hits =
      hits ++ record { path = path; size_bytes = size; modified_at = time } ∷ []

  module _ (pattern : String) (limit : ℕ) where
    -- One pass of the innermost loop of `_walk`.
    unfoldable pub visit : Parts → String → Walk → Walk
    visit dir filename (returned hits) = returned hits
    visit dir filename (going hits seen) =
        let path = dir ++ filename ∷ [] in
        if leb limit (length hits)
        then returned hits
        else if not (host.fnmatch filename pattern)
        then going hits seen
        else if any (host.fnmatch filename) sensitive_name_globs
        then going hits seen
        else if any (parts_eq path) seen
        then going hits seen
        else going (hit_at path (host.stat path) hits) (path ∷ seen)

    unfoldable pub visit_files : Parts → List String → Walk → Walk
    unfolding visit
    visit_files dir [] s = s
    visit_files dir (f ∷ fs) s = visit_files dir fs (visit dir f s)

    unfoldable pub visit_dirs : List (Parts × List String) → Walk → Walk
    unfolding visit_files
    visit_dirs [] s = s
    visit_dirs ((dir, fs) ∷ ds) s = visit_dirs ds (visit_files dir fs s)

    unfoldable pub visit_roots : List Parts → Walk → Walk
    unfolding visit_dirs
    visit_roots [] s = s
    visit_roots (root ∷ roots) s =
        visit_roots roots (if host.is_dir root then visit_dirs (host.walk root) s else s)

    abbrev pub finished : Walk → List FileHit
    finished (going hits seen) = sort (λ h g. str_leb (host.show h.path) (host.show g.path)) hits
    finished (returned hits) = hits

    -- `_walk`
    unfoldable pub walk_roots : List Parts → List FileHit
    unfolding visit_roots
    walk_roots roots = finished (visit_roots roots (going [] []))

  -- `limit or self._config.search_max_results`
  abbrev pub ceiling_of : Option ℕ → ℕ → ℕ
  ceiling_of none maximum = maximum
  ceiling_of (some n) maximum = if n == 0 then maximum else n

  abbrev pub targets_of : List String → List Parts → List Parts
  targets_of [] allowed = allowed
  targets_of (r ∷ rs) allowed = narrow_roots (r ∷ rs) allowed

  abbrev pub searched : String → List String → ℕ → List Parts → Outcome (List FileHit)
  searched pattern roots ceiling [] = eden no_roots
  searched pattern roots ceiling (a ∷ more) =
      ok (walk_roots pattern ceiling (targets_of roots (a ∷ more)))

  -- `search_files`
  unfoldable pub search_files :
      (configured : List String)
      → (workspace : Option String) → (maximum : ℕ) → (pattern : String) → (roots : List String)
      → (limit : Option ℕ) → Outcome (List FileHit)
  unfolding search_roots
  search_files configured workspace maximum pattern roots limit =
      searched pattern roots (ceiling_of limit maximum) (search_roots configured workspace)
