-- ===== src/Memory/Conversation/Cache.antt =====
-- The cached turns and the stored ones.
use eden_os.Prelude.{ℕ, ◌-◌, ◌≤◌, true, some, [], ◌∷◌, ◌++◌, ◌≡◌, refl, arith, str_eq, eq_iff}
use eden_os.Prelude.Dict
use eden_os.Prelude.Dict.{get-put}
use eden_os.Memory.Records.{MemoryRecord}
use eden_os.Memory.ShortTerm.{Buffers, or_empty}
use eden_os.Memory.Repository.InMemory
use eden_os.Memory.Conversation.{persist, load}

-- `append_turn` and then `history` after a restart: nothing is cached, and the repository holds
-- the turns of before. If the turn limit is positive, the new turn is all that the history shows,
-- although the repository holds the earlier turns as well.
pub cold_turns_hidden :
    (turn_limit : ℕ) (r : MemoryRecord) (stored : Buffers)
    → 1 ≤ turn_limit
    → let c = persist turn_limit r (record { turns = []; repository = some stored }) in
      ((load r.namespace c).0 ≡ r ∷ [])
      × (c.repository ≡ some (InMemory.append r stored))
      × (InMemory.read r.namespace (InMemory.append r stored)
          ≡ InMemory.read r.namespace stored ++ r ∷ [])
unfolding persist load Dict.get Dict.put InMemory.append InMemory.read
cold_turns_hidden turn_limit r stored h =
    let ns = r.namespace in
    let none_over : 1 - turn_limit ≡ 0 = omega (arith, h) in
    let same : str_eq ns ns ≡ true = ground (arith, eq_iff ns ns) in
    let all = or_empty (Dict.get ns stored) ++ r ∷ [] in
    let found : or_empty (Dict.get ns (Dict.put ns all stored)) ≡ all =
      ground (arith, get-put ns ns all stored, same) in
    (rw (same, none_over) refl, refl, found)
