-- ===== src/Memory/Repository/Jsonl.antt =====
-- `JsonlRecordRepository`, over the files of its directory. `line.strip()` of a line that
-- `decode` is asked about is left to `decode`; a blank line is skipped before.
use eden_os.Prelude.{
  ℕ, String, Bool, true, false, Option, none, some, List, [], ◌∷◌, ◌++◌, map, length, if◌then◌else◌,
  ◌==◌,
}
use eden_os.Prelude.Dict
use eden_os.Prelude.Dict.{Dict}
use eden_os.Prelude.Text.{is_blank}
use eden_os.Memory.Records.{MemoryRecord}
use eden_os.Memory.ShortTerm.{or_empty, without}

-- The lines of each file, by its path.
abbrev pub Files : Type 0
Files = Dict (List String)

module _ (path_for : String → String) (encode : MemoryRecord → String)
    (decode : String → Option MemoryRecord) where
  abbrev cons_some : Option MemoryRecord → List MemoryRecord → List MemoryRecord
  cons_some none rs = rs
  cons_some (some r) rs = r ∷ rs

  -- The loop of `_read_sync`, which skips what it cannot read.
  unfoldable pub parse : List String → List MemoryRecord
  parse [] = []
  parse (line ∷ lines) =
      let rest = parse lines in if is_blank line then rest else cons_some (decode line) rest

  -- `read`; a file that is not there has no records.
  unfoldable pub read : (namespace : String) → Files → List MemoryRecord
  unfolding parse
  read namespace files = parse (or_empty (Dict.get (path_for namespace) files))

  -- `append`
  unfoldable pub append : MemoryRecord → Files → Files
  append r files =
      let path = path_for r.namespace in
      Dict.put path (or_empty (Dict.get path files) ++ encode r ∷ []) files

  -- `replace_all`: the temporary file is renamed over the old one.
  unfoldable pub replace_all : (namespace : String) → List MemoryRecord → Files → Files
  replace_all namespace records files = Dict.put (path_for namespace) (map encode records) files

  -- `remove`
  unfoldable pub remove : (record_id namespace : String) → Files → Bool × Files
  unfolding read replace_all
  remove record_id namespace files =
      let existing = read namespace files in
      let remaining = without record_id existing in
      if length remaining == length existing
      then (false, files)
      else (true, replace_all namespace remaining files)

  -- `purge`
  unfoldable pub purge : (namespace : String) → Files → ℕ × Files
  unfolding read
  purge namespace files = (length (read namespace files), Dict.remove (path_for namespace) files)
