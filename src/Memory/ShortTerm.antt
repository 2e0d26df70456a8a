-- ===== src/Memory/ShortTerm.antt =====
-- src/eden/memory/stores.py: short-term memory, a bounded buffer for each namespace. `now` is the
-- clock, and an operation returns the buffers it leaves.
pub mod Eviction
pub mod Bounded
use eden_os.Prelude.{
  ℕ, ◌-◌, String, Bool, true, false, not, ◌&&◌, ◌||◌, Option, none, some, List, [], ◌∷◌, ◌++◌, map,
  ltb, leb, ◌==◌, length, take, keep, if◌then◌else◌, str_eq,
}
use eden_os.Prelude.Dict
use eden_os.Prelude.Dict.{Dict}
use eden_os.Prelude.Text.{contains}
use eden_os.Prelude.Sorting.{sort}
use eden_os.Enums.{MemoryKind, same_memory_kind}
use eden_os.Memory.Records.{MemoryRecord, age}

abbrev pub Buffers : Type 0
Buffers = Dict (List MemoryRecord)

-- `self._buffers.get(namespace, [])`
abbrev pub or_empty {ℓ} : {A : Type ℓ} → Option (List A) → List A
or_empty none = []
or_empty (some xs) = xs

-- The retention policy: `short_term_capacity` and `short_term_ttl_seconds`.
pub record Policy : Type 0 where
  pub capacity : ℕ
  pub ttl : ℕ

-- `_expire`
unfoldable pub expire : Policy → (now : ℕ) → List MemoryRecord → List MemoryRecord
expire policy now buffer = keep (λ r. ltb (age now r) policy.ttl) buffer

-- The order of the key `(record.importance, record.created_at)`.
abbrev pub weaker : MemoryRecord → MemoryRecord → Bool
weaker a b =
    ltb a.importance b.importance || (a.importance == b.importance && leb a.created_at b.created_at)

-- `doomed`: the identifiers of the weakest `overflow` records.
abbrev pub doomed : (overflow : ℕ) → List MemoryRecord → List String
doomed overflow buffer = map (λ r. r.id) (take overflow (sort weaker buffer))

-- `_evict`
unfoldable pub evict : Policy → List MemoryRecord → List MemoryRecord
evict policy buffer =
    let overflow = length buffer - policy.capacity in
    if leb overflow 0
    then buffer
    else keep (λ r. not (contains (doomed overflow buffer) r.id)) buffer

-- `_persist`
unfoldable pub persist : Policy → (now : ℕ) → MemoryRecord → Buffers → Buffers
unfolding evict expire
persist policy now r buffers =
    let buffer = or_empty (Dict.get r.namespace buffers) ++ r ∷ [] in
    Dict.put r.namespace (evict policy (expire policy now buffer)) buffers

abbrev loaded :
    Policy → (now : ℕ) → String → Option (List MemoryRecord) → Buffers → List MemoryRecord × Buffers
unfolding expire
loaded policy now namespace none buffers = ([], buffers)
loaded policy now namespace (some buffer) buffers =
    let live = expire policy now buffer in (live, Dict.put namespace live buffers)

-- `_load`
unfoldable pub load : Policy → (now : ℕ) → String → Buffers → List MemoryRecord × Buffers
unfolding loaded
load policy now namespace buffers = loaded policy now namespace (Dict.get namespace buffers) buffers

-- `[record for record in buffer if record.id != record_id]`
abbrev pub without : String → List MemoryRecord → List MemoryRecord
without record_id buffer = keep (λ r. not (str_eq r.id record_id)) buffer

-- `_remove`; an absent and an empty buffer are treated alike, and hold nothing to remove.
unfoldable pub remove : (record_id namespace : String) → Buffers → Bool × Buffers
remove record_id namespace buffers =
    let buffer = or_empty (Dict.get namespace buffers) in
    let remaining = without record_id buffer in
    if length remaining == length buffer
    then (false, buffers)
    else (true, Dict.put namespace remaining buffers)

-- `_purge`
unfoldable pub purge : (namespace : String) → Buffers → ℕ × Buffers
purge namespace buffers =
    (length (or_empty (Dict.get namespace buffers)), Dict.remove namespace buffers)

-- `BaseMemoryStore._prepare_many` for one record: the record with the store's kind.
abbrev pub prepare : MemoryKind → MemoryRecord → MemoryRecord
prepare kind r = if same_memory_kind r.kind kind then r else record r { kind = kind }

-- `BaseMemoryStore.add`
unfoldable pub add : Policy → (now : ℕ) → MemoryRecord → Buffers → MemoryRecord × Buffers
unfolding persist
add policy now r buffers =
    let prepared = prepare MemoryKind.short_term r in
    (prepared, persist policy now prepared buffers)
