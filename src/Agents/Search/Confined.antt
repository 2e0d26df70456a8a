-- ===== src/Agents/Search/Confined.antt =====
-- Where the hits of a file search lie.
use eden_os.Prelude.{ℕ, ◌≤◌, String, ◌⊎◌, true, false, List, [], ◌∷◌, ◌++◌, any, length, ◌≡◌, All}
use eden_os.Effect.{Outcome, ok, eden, crash}
use eden_os.Execution.Verification.Scope.{Parts}
use eden_os.Agents.Search.{Host, FileHit, sensitive_name_globs, Walk, going, returned, inside}
use eden_os.Agents.Search.Roots.{Links}

module _ (host : Host) (links : Links) where
  module _ (allowed : List Parts) (pattern : String) where
    -- The path lies at or below an allowed root, and so does the file that it leads to unless it
    -- is a link; its name matches the pattern and none of the sensitive ones.
    pub record IsConfined (h : FileHit) : Type 0 where
      pub dir : Parts
      pub filename : String
      pub path : h.path ≡ dir ++ filename ∷ []
      pub within : inside host allowed h.path ≡ true
      pub leads : (links.is_link h.path ≡ true) ⊎ (inside host allowed (links.real h.path) ≡ true)
      pub matches : host.fnmatch filename pattern ≡ true
      pub harmless : any (host.fnmatch filename) sensitive_name_globs ≡ false

    module _ (limit : ℕ) where
      abbrev pub AreConfined : List FileHit → Type 0
      AreConfined hits = All IsConfined hits × (length hits ≤ limit)

      abbrev Sound : Walk → Type 0
      Sound (going hits seen) = AreConfined hits
      Sound (returned hits) = AreConfined hits

  abbrev pub Answer : List Parts → String → ℕ → Outcome (List FileHit) → Type 0
  Answer allowed pattern limit (ok hits) = AreConfined allowed pattern limit hits
  Answer allowed pattern limit (eden e) = allowed ≡ []
  Answer allowed pattern limit (crash t m) = ⊥
