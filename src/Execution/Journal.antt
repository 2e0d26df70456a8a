-- ===== src/Execution/Journal.antt =====
-- src/eden/execution/journal.py: the journals that the engine may be given. An entry is what
-- `to_dict` makes of a record; `json` supplies how entries are written and read.
use eden_os.Prelude.{
  ℕ, zero, suc, String, Bool, true, false, Option, none, some, List, [], ◌∷◌, ◌++◌, ◌≡◌, ◌≤◌, ◌+◌,
  ◌-◌, refl, sym, ap, ◌∙◌, arith, drop, length, length-append, length-drop, last_slice,
  if◌then◌else◌,
}
use mathlib.Core.List.{append_assoc, append-nil}
use eden_os.Prelude.Text.{◌⧺◌, is_blank}

-- The journals; a file journal has the path of its file.
pub data Journal : Type 0 where
  null_journal in_memory_journal : Journal
  jsonl_journal : String → Journal

-- `build_journal`; `path / name` is the host's.
abbrev pub build_journal : (String → String) → Bool → Option String → Journal
build_journal in_directory false directory = null_journal
build_journal in_directory true none = in_memory_journal
build_journal in_directory true (some directory) = jsonl_journal (in_directory directory)

module _ {E : Type 0} where
  -- `InMemoryJournal`: its entries, and `append`, which drops the oldest beyond the capacity.
  unfoldable pub append : (capacity : ℕ) → E → List E → List E
  append capacity e entries = let all = entries ++ e ∷ [] in drop (length all - capacity) all

  -- `InMemoryJournal.read`
  unfoldable pub read : (limit : ℕ) → List E → List E
  read limit entries = last_slice limit entries

  unfoldable pub append_all : (capacity : ℕ) → List E → List E → List E
  unfolding append
  append_all capacity [] entries = entries
  append_all capacity (e ∷ es) entries = append_all capacity es (append capacity e entries)

  drop-append : (k : ℕ) (xs ys : List E) → k ≤ length xs → drop k (xs ++ ys) ≡ drop k xs ++ ys
  drop-append zero xs ys h = refl
  drop-append (suc k) [] ys h = absurd (omega arith)
  drop-append (suc k) (x ∷ xs) ys h = drop-append k xs ys (omega arith)

  drop_nil : (n : ℕ) → drop {A = E} n [] ≡ []
  drop_nil zero = refl
  drop_nil (suc n) = refl

  drop-drop : (a b n : ℕ) (xs : List E) → n ≡ b + a → drop a (drop b xs) ≡ drop n xs
  drop-drop a zero n xs h = ap (λ m. drop m xs) (omega (arith, h))
  drop-drop a (suc b) n [] h = drop_nil a ∙ sym (drop_nil n)
  drop-drop a (suc b) n (x ∷ xs) h =
      let same : suc (b + a) ≡ n = omega (arith, h) in
      drop-drop a b (b + a) xs refl ∙ ap (λ m. drop m (x ∷ xs)) same

  -- The last `capacity` of a list.
  abbrev pub kept : ℕ → List E → List E
  kept capacity xs = drop (length xs - capacity) xs

  append-kept :
      (capacity : ℕ) (e : E) (xs : List E)
      → append capacity e (kept capacity xs) ≡ kept capacity (xs ++ e ∷ [])
  unfolding append
  append-kept capacity e xs =
      let k = length xs - capacity in
      let all = xs ++ e ∷ [] in
      let cut = drop-append k xs (e ∷ []) (omega arith) in
      ap (λ l. kept capacity l) (sym cut)
      ∙ drop-drop (length (drop k all) - capacity) k (length all - capacity) all
          (omega (arith, length-drop k all, length-append xs (e ∷ [])))

  append_all-kept :
      (capacity : ℕ) (es xs : List E)
      → append_all capacity es (kept capacity xs) ≡ kept capacity (xs ++ es)
  unfolding append_all
  append_all-kept capacity [] xs = ap (kept capacity) (sym (append-nil xs))
  append_all-kept capacity (e ∷ es) xs =
      ap (append_all capacity es) (append-kept capacity e xs)
      ∙ append_all-kept capacity es (xs ++ e ∷ [])
      ∙ ap (kept capacity) (append_assoc xs (e ∷ []) es)

  -- An in-memory journal is the list of everything that was appended, cut to its last `capacity`
  -- entries in their order; `read` returns the last `limit` of these, for a positive limit.
  pub read-append_all :
      (capacity limit : ℕ) (es : List E)
      → read (suc limit) (append_all capacity es []) ≡ kept (suc limit) (kept capacity es)
  unfolding read
  read-append_all capacity limit es =
      ap (last_slice (suc limit)) (
        ap (append_all capacity es) (sym (drop_nil (0 - capacity)))
        ∙ append_all-kept capacity es [])

-- How entries are written and read: `json.dumps`, and `json.loads` where it gives an object.
pub record Json (E : Type 0) : Type 0 where
  pub dumps : E → String
  pub loads : String → Option E

-- The file of a `JsonlJournal`: its lines that are ended, and the rest if it does not end with one.
pub record JournalFile : Type 0 where
  pub lines : List String
  pub tail : Option String

module _ {E : Type 0} (json : Json E) where
  abbrev joined : Option String → String → String
  joined none s = s
  joined (some t) s = t ⧺ s

  -- `_append_sync`
  unfoldable pub append_line : E → JournalFile → JournalFile
  append_line e file = record {
    lines = file.lines ++ joined file.tail (json.dumps e) ∷ [];
    tail = none;
  }

  abbrev all_lines : List String → Option String → List String
  all_lines lines none = lines
  all_lines lines (some t) = lines ++ t ∷ []

  abbrev entry_of : String → Option E
  entry_of line = if is_blank line then none else json.loads line

  abbrev prepend : Option E → List E → List E
  prepend none entries = entries
  prepend (some e) entries = e ∷ entries

  -- The loop of `_read_sync`, which skips what it cannot read.
  unfoldable pub parsed : List String → List E
  parsed [] = []
  parsed (line ∷ lines) = prepend (entry_of line) (parsed lines)

  -- `_read_sync`
  unfoldable pub read_lines : (limit : ℕ) → JournalFile → List E
  unfolding parsed
  read_lines limit file = last_slice limit (parsed (all_lines file.lines file.tail))

  prepend-append : (o : Option E) (xs ys : List E) → prepend o (xs ++ ys) ≡ prepend o xs ++ ys
  prepend-append none xs ys = refl
  prepend-append (some e) xs ys = refl

  parsed-append : (ls ms : List String) → parsed (ls ++ ms) ≡ parsed ls ++ parsed ms
  unfolding parsed
  parsed-append [] ms = refl
  parsed-append (l ∷ ls) ms =
      ap (prepend (entry_of l)) (parsed-append ls ms)
      ∙ prepend-append (entry_of l) (parsed ls) (parsed ms)

  parsed_one :
      (line : String) (o : Option E) → entry_of line ≡ o → parsed (line ∷ []) ≡ prepend o []
  unfolding parsed
  parsed_one line o h = ap (λ x. prepend x []) h

  -- A file journal returns what was written to it: an entry that can be read back from its line, and
  -- is appended to a file that ends with a line end, is the last of the entries that are read, after
  -- those that were read before.
  pub read_lines-append_line :
      (e : E) (lines : List String) (limit : ℕ)
      → is_blank (json.dumps e) ≡ false
      → json.loads (json.dumps e) ≡ some e
      → read_lines limit (append_line e (record { lines = lines; tail = none }))
        ≡ last_slice limit (parsed lines ++ e ∷ [])
  unfolding read_lines append_line
  read_lines-append_line e lines limit some_text reads = ap (last_slice limit) (
      parsed-append lines (json.dumps e ∷ [])
      ∙ ap (λ l. parsed lines ++ l)
          (parsed_one (json.dumps e) (some e) (ground (arith, some_text, reads))))

  -- An interrupted write costs the next entry too. If the file ends in the middle of a line, and
  -- that part followed by the text of `e` cannot be read, then `e` is appended to the part's line
  -- and lost: what is read after that is what the ended lines before it hold.
  pub torn_line :
      (e : E) (lines : List String) (part : String) (limit : ℕ)
      → json.loads (part ⧺ json.dumps e) ≡ none
      → read_lines limit (append_line e (record { lines = lines; tail = some part }))
        ≡ last_slice limit (parsed lines)
  unfolding read_lines append_line
  torn_line e lines part limit unread = ap (last_slice limit) (
      parsed-append lines ((part ⧺ json.dumps e) ∷ [])
      ∙ ap (λ l. parsed lines ++ l) (parsed_one (part ⧺ json.dumps e) none (ground (arith, unread)))
      ∙ append-nil (parsed lines))
