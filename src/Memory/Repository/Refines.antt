-- ===== src/Memory/Repository/Refines.antt =====
-- The files answer as the memory does.
use eden_os.Prelude.{
  ℕ, String, Bool, true, false, not, Option, some, List, [], ◌∷◌, ◌++◌, map, ◌≡◌, refl, ap, ◌∙◌,
  inl, inr, arith, length, ◌==◌, str_eq, All, Bool-cases, All-keep_sub, All-append,
}
use eden_os.Prelude.Dict
use eden_os.Prelude.Dict.{get-put, get-remove}
use eden_os.Prelude.Text.{is_blank}
use eden_os.Memory.Records.{MemoryRecord}
use eden_os.Memory.ShortTerm.{Buffers, or_empty, without}
use eden_os.Memory.Repository.InMemory
use eden_os.Memory.Repository.Jsonl
use eden_os.Memory.Repository.Jsonl.{Files, parse}

-- The calls that clients make of a repository, and what they return.
pub data Call : Type 0 where
  append : MemoryRecord → Call
  read : (namespace : String) → Call
  remove : (record_id namespace : String) → Call
  purge : (namespace : String) → Call
  replace_all : (namespace : String) → List MemoryRecord → Call

pub data Answer : Type 0 where
  done : Answer
  records : List MemoryRecord → Answer
  existed : Bool → Answer
  removed : ℕ → Answer

unfoldable pub in_memory : Call → Buffers → Answer × Buffers
in_memory (append r) store = (done, InMemory.append r store)
in_memory (read namespace) store = (records (InMemory.read namespace store), store)
in_memory (remove record_id namespace) store =
    let (b, after) = InMemory.remove record_id namespace store in (existed b, after)
in_memory (purge namespace) store =
    let (n, after) = InMemory.purge namespace store in (removed n, after)
in_memory (replace_all namespace rs) store = (done, InMemory.replace_all namespace rs store)

unfoldable pub in_memory_all : List Call → Buffers → List Answer
in_memory_all [] store = []
in_memory_all (c ∷ cs) store =
    let (answer, after) = in_memory c store in answer ∷ in_memory_all cs after

module _ (path_for : String → String) (encode : MemoryRecord → String)
    (decode : String → Option MemoryRecord) where
  unfoldable pub on_files : Call → Files → Answer × Files
  on_files (append r) files = (done, Jsonl.append path_for encode decode r files)
  on_files (read namespace) files =
      (records (Jsonl.read path_for encode decode namespace files), files)
  on_files (remove record_id namespace) files =
      let (b, after) = Jsonl.remove path_for encode decode record_id namespace files in
      (existed b, after)
  on_files (purge namespace) files =
      let (n, after) = Jsonl.purge path_for encode decode namespace files in (removed n, after)
  on_files (replace_all namespace rs) files =
      (done, Jsonl.replace_all path_for encode decode namespace rs files)

  unfoldable pub on_files_all : List Call → Files → List Answer
  on_files_all [] files = []
  on_files_all (c ∷ cs) files =
      let (answer, after) = on_files c files in answer ∷ on_files_all cs after

  -- A record that is written as a line which is read back.
  abbrev pub IsWritable : MemoryRecord → Type 0
  IsWritable r = (is_blank (encode r) ≡ false) × (decode (encode r) ≡ some r)

  module _ (Used : String → Type 0) where
    -- The files of namespaces in use are apart.
    abbrev pub AreApart : Type 0
    AreApart = (n m : String) → Used n → Used m → str_eq (path_for n) (path_for m) ≡ str_eq n m

    -- A call about namespaces in use and records that can be written.
    unfoldable pub IsProper : Call → Type 0
    IsProper (append r) = Used r.namespace × IsWritable r
    IsProper (read namespace) = Used namespace
    IsProper (remove record_id namespace) = Used namespace
    IsProper (purge namespace) = Used namespace
    IsProper (replace_all namespace rs) = Used namespace × All IsWritable rs

    -- The files hold what the memory holds, and it can be written again.
    abbrev pub Represents : Files → Buffers → Type 0
    Represents files store =
        (n : String)
        → Used n
        → (Jsonl.read path_for encode decode n files ≡ InMemory.read n store)
          × All IsWritable (InMemory.read n store)

    parse-append :
        (lines more : List String)
        → parse path_for encode decode (lines ++ more)
          ≡ parse path_for encode decode lines ++ parse path_for encode decode more
    unfolding parse
    parse-append [] more = refl
    parse-append (l ∷ ls) more = ground (arith, parse-append ls more)

    parse-encode :
        (rs : List MemoryRecord)
        → All IsWritable rs
        → parse path_for encode decode (map encode rs) ≡ rs
    unfolding parse
    parse-encode [] h = refl
    parse-encode (r ∷ rs) h = rw (h.0.0, h.0.1) (ap (λ l. r ∷ l) (parse-encode rs h.1))

    -- To write a namespace in both keeps the relation.
    put-Represents :
        AreApart
        → (namespace : String) (lines : List String) (rs : List MemoryRecord) (files : Files)
          (store : Buffers)
        → Used namespace
        → parse path_for encode decode lines ≡ rs
        → All IsWritable rs
        → Represents files store
        → Represents (Dict.put (path_for namespace) lines files) (Dict.put namespace rs store)
    unfolding Jsonl.read InMemory.read
    put-Represents apart namespace lines rs files store used same writable rel n u =
        elim (Bool-cases (str_eq namespace n)) [
          | inl e ↦
              let there : str_eq (path_for namespace) (path_for n) ≡ true =
                apart namespace n used u ∙ e in
              rw
                (
                  get-put (path_for namespace) (path_for n) lines files,
                  get-put namespace n rs store,
                  e,
                  there,
                )
                (same, writable)
          | inr e ↦
              let there : str_eq (path_for namespace) (path_for n) ≡ false =
                apart namespace n used u ∙ e in
              rw
                (
                  get-put (path_for namespace) (path_for n) lines files,
                  get-put namespace n rs store,
                  e,
                  there,
                )
                (rel n u)
        ]

    remove-Represents :
        AreApart
        → (namespace : String) (files : Files) (store : Buffers) → Used namespace
        → Represents files store
        → Represents (Dict.remove (path_for namespace) files) (Dict.remove namespace store)
    unfolding Jsonl.read InMemory.read
    remove-Represents apart namespace files store used rel n u =
        elim (Bool-cases (str_eq namespace n)) [
          | inl e ↦
              let there : str_eq (path_for namespace) (path_for n) ≡ true =
                apart namespace n used u ∙ e in
              rw
                (
                  get-remove (path_for namespace) (path_for n) files,
                  get-remove namespace n store,
                  e,
                  there,
                )
                (unfold parse in refl, tt)
          | inr e ↦
              let there : str_eq (path_for namespace) (path_for n) ≡ false =
                apart namespace n used u ∙ e in
              rw
                (
                  get-remove (path_for namespace) (path_for n) files,
                  get-remove namespace n store,
                  e,
                  there,
                )
                (rel n u)
        ]

    removed_both :
        AreApart
        → (record_id namespace : String) (files : Files) (store : Buffers) → Used namespace
        → Represents files store
        → let (b, f) = Jsonl.remove path_for encode decode record_id namespace files in
          let (b', s) = InMemory.remove record_id namespace store in
          (existed b ≡ existed b') × Represents f s
    unfolding Jsonl.remove InMemory.remove Jsonl.replace_all
    removed_both apart record_id namespace files store used rel =
        let held = InMemory.read namespace store in
        let same : Jsonl.read path_for encode decode namespace files ≡ held =
          (rel namespace used).0 in
        let left = without record_id held in
        let writable =
          All-keep_sub IsWritable (λ r. not (str_eq r.id record_id)) held (rel namespace used).1 in
        let written =
          put-Represents apart namespace (map encode left) left files store used
            (parse-encode left writable) writable rel in
        rw same (elim (Bool-cases (length left == length held)) [
          | inl e ↦ unfold InMemory.read in rw e (refl, rel)
          | inr e ↦ unfold InMemory.read in rw e (refl, written)
        ])

    step-Represents :
        AreApart
        → (c : Call) (files : Files) (store : Buffers) → IsProper c
        → Represents files store
        → ((on_files c files).0 ≡ (in_memory c store).0)
          × Represents (on_files c files).1 (in_memory c store).1
    unfolding on_files in_memory IsProper
    step-Represents apart (append r) files store proper rel =
        let ns = r.namespace in
        let lines = or_empty (Dict.get (path_for ns) files) in
        let before : parse path_for encode decode lines ≡ InMemory.read ns store =
          unfold Jsonl.read in (rel ns proper.0).0 in
        let one = parse-encode (r ∷ []) (proper.1, tt) in
        let both =
          parse-append lines (encode r ∷ [])
          ∙ ap (λ l. parse path_for encode decode lines ++ l) one
          ∙ ap (λ l. l ++ r ∷ []) before in
        (
          refl,
          unfold Jsonl.append InMemory.append InMemory.read in
              put-Represents apart ns (lines ++ encode r ∷ [])
                (or_empty (Dict.get ns store) ++ r ∷ []) files store proper.0 both
                (All-append IsWritable (or_empty (Dict.get ns store)) (r ∷ []) (rel ns proper.0).1
                  (proper.1, tt))
                rel,
        )
    step-Represents apart (read namespace) files store proper rel =
        (ap records (rel namespace proper).0, rel)
    step-Represents apart (remove record_id namespace) files store proper rel =
        removed_both apart record_id namespace files store proper rel
    step-Represents apart (purge namespace) files store proper rel = (
      unfold Jsonl.purge InMemory.purge InMemory.read in
          ap (λ l. removed (length l)) (rel namespace proper).0,
      unfold Jsonl.purge InMemory.purge in remove-Represents apart namespace files store proper rel,
    )
    step-Represents apart (replace_all namespace rs) files store proper rel = (
      refl,
      unfold Jsonl.replace_all InMemory.replace_all in
          put-Represents apart namespace (map encode rs) rs files store proper.0
            (parse-encode rs proper.1) proper.1 rel,
    )

    answers_agree :
        AreApart
        → (cs : List Call) (files : Files) (store : Buffers) → All IsProper cs
        → Represents files store
        → on_files_all cs files ≡ in_memory_all cs store
    unfolding on_files_all in_memory_all
    answers_agree apart [] files store proper rel = refl
    answers_agree apart (c ∷ cs) files store proper rel =
        let (answer, next) = step-Represents apart c files store proper.0 rel in
        ap (λ a. a ∷ on_files_all cs (on_files c files).1) answer
        ∙ ap (λ l. (in_memory c store).0 ∷ l)
            (answers_agree apart cs (on_files c files).1 (in_memory c store).1 proper.1 next)

    -- The repository of files refines the repository in memory. Over any sequence of appends,
    -- reads, removals, purges and replacements, both begun empty, the two give the same answers;
    -- if no two namespaces in use have the same file, every call is about a namespace in use, and
    -- each record that is written has a line that is not blank and is read back as that record.
    pub on_files-in_memory :
        AreApart → (cs : List Call) → All IsProper cs → on_files_all cs [] ≡ in_memory_all cs []
    on_files-in_memory apart cs proper = answers_agree apart cs [] [] proper (λ n u. (
      unfold Jsonl.read InMemory.read parse Dict.get in refl,
      unfold InMemory.read Dict.get in tt,
    ))
