-- ===== src/Memory/Facts.antt =====
-- `ProjectMemory` of src/eden/memory/conversation.py: the facts of a project, over the long-term store
-- of src/eden/memory/stores.py and a repository in memory. `words` and `decay` are those of a search,
-- `now` the time, and `fresh` what `new_id("mem")` returns.
pub mod Found
pub mod Replaced
pub mod Remembered
use eden_os.Prelude.{
  ℕ, String, Bool, true, false, Option, none, some, List, [], ◌∷◌, leb, length, if◌then◌else◌,
  str_eq,
}
use eden_os.Prelude.Dict
use eden_os.Prelude.Dict.{Dict}
use eden_os.Errors.{EdenError, memory_capacity_error}
use eden_os.Effect.{Outcome, ok, eden, crash}
use eden_os.Enums.{MemoryKind, project}
use eden_os.Memory.Records.{MemoryRecord, post_init, MemoryQuery, query_post_init, SearchHit}
use eden_os.Memory.ShortTerm.{Buffers}
use eden_os.Memory.Search.{relevance, search}
use eden_os.Memory.Repository.InMemory

-- The limit of the query that looks for facts.
abbrev pub fact_limit : ℕ
fact_limit = 10000

abbrev pub full : EdenError
full = record {
  class = memory_capacity_error;
  message = "Long-term namespace has reached its configured record ceiling.";
}

-- `LongTermMemory._persist`
unfoldable pub persist : (max_records : ℕ) → MemoryRecord → Buffers → Outcome MemoryRecord × Buffers
persist max_records r store =
    if leb max_records (length (InMemory.read r.namespace store))
    then (eden full, store)
    else (ok r, InMemory.append r store)

-- The query of `_find_fact`, before it is checked.
abbrev pub fact_query : (namespace : String) → MemoryQuery
fact_query namespace = record {
  text = "";
  namespace = namespace;
  kinds = [];
  tags = "fact" ∷ [];
  limit = fact_limit;
  min_score = 0;
  since = none;
}

abbrev pub same_key : Option String → String → Bool
same_key none key = false
same_key (some k) key = str_eq k key

-- `record.metadata.get("fact_key") == key`
abbrev pub holds : String → MemoryRecord → Bool
holds key r = same_key (Dict.get "fact_key" r.metadata) key

-- The loop of `_find_fact`.
unfoldable pub first_with : String → List SearchHit → Option MemoryRecord
first_with key [] = none
first_with key (h ∷ hs) =
    let rest = first_with key hs in if holds key h.item then some h.item else rest

-- The record of a new fact, before it is checked.
abbrev pub fact_record : (key value namespace : String) → (importance now : ℕ) → MemoryRecord
fact_record key value namespace importance now = record {
  id = "";
  content = value;
  kind = project;
  namespace = namespace;
  created_at = now;
  importance = importance;
  tags = "fact" ∷ [];
  metadata = ("fact_key", key) ∷ [];
}

-- `self._store.delete(existing.id, namespace=project)`, if there is a previous value
abbrev pub forgotten : Option MemoryRecord → String → Buffers → Buffers
forgotten none namespace store = store
forgotten (some r) namespace store = (InMemory.remove r.id namespace store).1

abbrev pub stored :
    (max_records : ℕ) → Buffers → Outcome MemoryRecord → Outcome MemoryRecord × Buffers
stored max_records store (ok r) = persist max_records r store
stored max_records store (eden e) = (eden e, store)
stored max_records store (crash t m) = (crash t m, store)

abbrev pub replaced :
    (max_records : ℕ)
    → (namespace fresh : String) → MemoryRecord
    → Buffers
    → Outcome (Option MemoryRecord)
    → Outcome MemoryRecord × Buffers
replaced max_records namespace fresh r store (ok existing) =
    stored max_records (forgotten existing namespace store) (post_init fresh r)
replaced max_records namespace fresh r store (eden e) = (eden e, store)
replaced max_records namespace fresh r store (crash t m) = (crash t m, store)

abbrev pub content_of : Outcome (Option MemoryRecord) → Outcome (Option String)
content_of (ok none) = ok none
content_of (ok (some r)) = ok (some r.content)
content_of (eden e) = eden e
content_of (crash t m) = crash t m

abbrev pub existed : String → Buffers → Outcome (Option MemoryRecord) → Outcome Bool × Buffers
existed namespace store (ok none) = (ok false, store)
existed namespace store (ok (some r)) =
    let (removed, rest) = InMemory.remove r.id namespace store in (ok removed, rest)
existed namespace store (eden e) = (eden e, store)
existed namespace store (crash t m) = (crash t m, store)

module _ (words : String → List String) (decay : ℕ → ℕ) (now : ℕ) where
  abbrev pub looked_up :
      String → String → Buffers → Outcome MemoryQuery → Outcome (Option MemoryRecord)
  looked_up key namespace store (ok q) = ok (
      first_with key
        (search decay "project" project (relevance words q) q now (InMemory.read namespace store)))
  looked_up key namespace store (eden e) = eden e
  looked_up key namespace store (crash t m) = crash t m

  -- `_find_fact`
  unfoldable pub find_fact : (key namespace : String) → Buffers → Outcome (Option MemoryRecord)
  find_fact key namespace store =
      looked_up key namespace store (query_post_init (fact_query namespace))

  -- `remember_fact`
  unfoldable pub remember_fact :
      (max_records : ℕ)
      → (fresh key value namespace : String) → (importance : ℕ) → Buffers
      → Outcome MemoryRecord × Buffers
  unfolding find_fact
  remember_fact max_records fresh key value namespace importance store =
      replaced max_records namespace fresh (fact_record key value namespace importance now) store
        (find_fact key namespace store)

  -- `fact`
  unfoldable pub fact : (key namespace : String) → Buffers → Outcome (Option String)
  unfolding find_fact
  fact key namespace store = content_of (find_fact key namespace store)

  -- `forget_fact`
  unfoldable pub forget_fact : (key namespace : String) → Buffers → Outcome Bool × Buffers
  unfolding find_fact
  forget_fact key namespace store = existed namespace store (find_fact key namespace store)
