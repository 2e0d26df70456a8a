-- ===== src/Config/Examples.antt =====
-- The properties of the configuration's sources at concrete inputs: a file, the environment and the
-- overrides of one call.
use eden_os.Prelude.{String, some, List, [], ◌∷◌, ◌++◌, ◌≡◌, refl, str_eq, false}
use eden_os.Effect.{ok}
use eden_os.Config.Sources.{
  Raw, text, int, table, Table, no_entries, entry, get, put, merge_all, after_prefix, split,
  path_of, assign, load,
}
use eden_os.Config.Sources.Lookup.{lookup, lookup-assign}
use eden_os.Config.Sources.Precedence.{Silent, lookup-merge_all}
use eden_os.Prelude.Order.{str_leb}
use eden_os.Prelude.Sorting.{sort}

abbrev in_logging : String → Raw → Table
in_logging k v = entry "logging" (table (entry k v no_entries)) no_entries

abbrev file : Table
file = entry "app_name" (text "home") (in_logging "level" (text "info"))

abbrev level : List String
level = "logging" ∷ "level" ∷ []

-- The level of the environment wins over the file's, and the overrides are silent.
lookup-merge_all_example :
    lookup level (
      merge_all no_entries
        ((file ∷ []) ++ in_logging "level" (text "debug") ∷ in_logging "max_bytes" (int 9) ∷ []))
    ≡ some (text "debug")
unfolding lookup get Silent
lookup-merge_all_example =
    lookup-merge_all level no_entries (in_logging "level" (text "debug")) (file ∷ [])
      (in_logging "max_bytes" (int 9) ∷ []) (text "debug")
      ((refl, (refl, tt, tt), tt), ((refl, (refl, tt, tt), tt), tt)) refl refl (refl, tt)

lookup-assign_example :
    (lookup level (put "logging" (table (entry "level" (text "debug") no_entries)) file)
      ≡ some (text "debug"))
    × ((i : String)
        → str_eq "logging" i ≡ false
        → get i (put "logging" (table (entry "level" (text "debug") no_entries)) file) ≡ get i file)
unfolding assign get put
lookup-assign_example =
    lookup-assign "logging" ("level" ∷ []) "debug" file
      (put "logging" (table (entry "level" (text "debug") no_entries)) file) refl

environment_loaded :
    load (λ s. s) "EDEN__" (("PATH", "/bin") ∷ ("EDEN__logging__level", "debug") ∷ [])
    ≡ ok (in_logging "level" (text "debug"))
unfolding load path_of after_prefix split assign get put str_leb sort
environment_loaded = refl
