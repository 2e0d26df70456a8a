-- ===== src/Memory/Repository/InMemory.antt =====
-- `InMemoryRecordRepository`: the records of each namespace, oldest first.
use eden_os.Prelude.{ℕ, String, Bool, true, false, List, [], ◌∷◌, ◌++◌, length, if◌then◌else◌, ◌==◌}
use eden_os.Prelude.Dict
use eden_os.Memory.Records.{MemoryRecord}
use eden_os.Memory.ShortTerm.{Buffers, or_empty, without}

-- `append`
unfoldable pub append : MemoryRecord → Buffers → Buffers
append r store = Dict.put r.namespace (or_empty (Dict.get r.namespace store) ++ r ∷ []) store

-- `read`
unfoldable pub read : (namespace : String) → Buffers → List MemoryRecord
read namespace store = or_empty (Dict.get namespace store)

-- `remove`
unfoldable pub remove : (record_id namespace : String) → Buffers → Bool × Buffers
remove record_id namespace store =
    let records = or_empty (Dict.get namespace store) in
    let remaining = without record_id records in
    if length remaining == length records
    then (false, store)
    else (true, Dict.put namespace remaining store)

-- `purge`
unfoldable pub purge : (namespace : String) → Buffers → ℕ × Buffers
purge namespace store = (length (or_empty (Dict.get namespace store)), Dict.remove namespace store)

-- `replace_all`
unfoldable pub replace_all : (namespace : String) → List MemoryRecord → Buffers → Buffers
replace_all namespace records store = Dict.put namespace records store
