-- ===== src/Memory/Conversation.antt =====
-- src/eden/memory/conversation.py: `ConversationMemory`. The durable backend is a repository in
-- memory, which every repository answers like. `len` is the number of characters of a text.
pub mod Window
pub mod Cache
use eden_os.Prelude.{
  ℕ, ◌+◌, ◌-◌, String, Bool, true, false, not, ◌||◌, Option, none, some, List, [], ◌∷◌, ◌++◌, map,
  max, ltb, leb, ◌==◌, length, drop, keep, if◌then◌else◌, str_eq,
}
use eden_os.Prelude.Dict
use eden_os.Prelude.Sorting.{sort}
use eden_os.Enums.{Role, system, user, assistant, tool}
use eden_os.Memory.Records.{MemoryRecord, estimated_tokens}
use eden_os.Memory.ShortTerm.{Buffers, or_empty, without}
use eden_os.Memory.Repository.InMemory

-- `Role(raw)`, with `USER` for another text.
abbrev role_named : String → Role
role_named raw =
    if str_eq raw "system"
    then system
    else if str_eq raw "assistant"
    then assistant
    else if str_eq raw "tool"
    then tool
    else user

abbrev role_in : Option String → Role
role_in none = user
role_in (some raw) = role_named raw

-- `_role_of`
unfoldable pub role_of : MemoryRecord → Role
role_of r = role_in (Dict.get "role" r.metadata)

abbrev is_system_role : Role → Bool
is_system_role system = true
is_system_role _ = false

abbrev pub is_system : MemoryRecord → Bool
is_system r = is_system_role (role_of r)

pub record Message : Type 0 where
  pub role : Role
  pub content : String

-- `_to_message`
abbrev pub to_message : MemoryRecord → Message
to_message r = record { role = role_of r; content = r.content }

-- `token_budget or self._config.conversation_token_budget`
abbrev pub budget_of : Option ℕ → (configured : ℕ) → ℕ
budget_of none configured = configured
budget_of (some n) configured = if n == 0 then configured else n

-- `list.reverse`
abbrev pub reverse : List MemoryRecord → List MemoryRecord
reverse [] = []
reverse (r ∷ rs) = reverse rs ++ r ∷ []

-- The order of the key `record.created_at`.
abbrev pub earlier : MemoryRecord → MemoryRecord → Bool
earlier a b = leb a.created_at b.created_at

module _ (len : String → ℕ) where
  -- `sum(record.estimated_tokens for record in …)`
  abbrev pub cost : List MemoryRecord → ℕ
  cost [] = 0
  cost (r ∷ rs) = estimated_tokens len r + cost rs

  -- The loop of `window` over the reversed records. What remains may be negative there; a record
  -- costs at least one token, so it fits neither a negative nor an empty remainder.
  unfoldable pub select : (remaining : ℕ) → List MemoryRecord → List MemoryRecord
  select remaining [] = []
  select remaining (r ∷ rs) =
      let skipped = select remaining rs in
      let taken = select (remaining - estimated_tokens len r) rs in
      if is_system r
      then skipped
      else if ltb remaining (estimated_tokens len r)
      then []
      else r ∷ taken

  -- The records of `window`.
  unfoldable pub window_records : (budget : ℕ) → List MemoryRecord → List MemoryRecord
  unfolding select
  window_records budget records =
      let instructions = keep is_system records in
      let selected = reverse (select (budget - cost instructions) (reverse records)) in
      sort earlier (instructions ++ selected)

-- The cached turns and the backend, if there is one.
pub record Conversation : Type 0 where
  pub turns : Buffers
  pub repository : Option Buffers

abbrev appended : MemoryRecord → Option Buffers → Option Buffers
appended r none = none
appended r (some stored) = some (InMemory.append r stored)

-- `_persist`
unfoldable pub persist : (turn_limit : ℕ) → MemoryRecord → Conversation → Conversation
persist turn_limit r c =
    let turns = or_empty (Dict.get r.namespace c.turns) ++ r ∷ [] in
    record {
      turns = Dict.put r.namespace (drop (length turns - turn_limit) turns) c.turns;
      repository = appended r c.repository;
    }

abbrev hydrated :
    (namespace : String)
    → Option (List MemoryRecord)
    → Option Buffers
    → Conversation
    → List MemoryRecord × Conversation
hydrated namespace (some cached) repository c = (cached, c)
hydrated namespace none none c = ([], c)
hydrated namespace none (some stored) c =
    let records = InMemory.read namespace stored in
    (records, record c { turns = Dict.put namespace records c.turns })

-- `_load`
unfoldable pub load : (namespace : String) → Conversation → List MemoryRecord × Conversation
load namespace c = hydrated namespace (Dict.get namespace c.turns) c.repository c

abbrev removed_from :
    (record_id namespace : String)
    → (changed : Bool) → (turns : Buffers) → Option Buffers
    → Bool × Conversation
removed_from record_id namespace changed turns none =
    (changed, record { turns = turns; repository = none })
removed_from record_id namespace changed turns (some stored) =
    let (existed, rest) = InMemory.remove record_id namespace stored in
    (existed || changed, record { turns = turns; repository = some rest })

-- `_remove`
unfoldable pub remove : (record_id namespace : String) → Conversation → Bool × Conversation
remove record_id namespace c =
    let turns = or_empty (Dict.get namespace c.turns) in
    let remaining = without record_id turns in
    removed_from record_id namespace (not (length remaining == length turns))
      (Dict.put namespace remaining c.turns) c.repository

abbrev purged : (namespace : String) → ℕ → (turns : Buffers) → Option Buffers → ℕ × Conversation
purged namespace removed turns none = (removed, record { turns = turns; repository = none })
purged namespace removed turns (some stored) =
    let (count, rest) = InMemory.purge namespace stored in
    (max removed count, record { turns = turns; repository = some rest })

-- `_purge`
unfoldable pub purge : (namespace : String) → Conversation → ℕ × Conversation
purge namespace c =
    purged namespace (length (or_empty (Dict.get namespace c.turns)))
      (Dict.remove namespace c.turns) c.repository

-- `history`
abbrev pub history : (namespace : String) → Conversation → List Message × Conversation
history namespace c = let (records, after) = load namespace c in (map to_message records, after)

-- `window`
unfoldable pub window :
    (len : String → ℕ) (configured : ℕ) (namespace : String) (token_budget : Option ℕ)
    → Conversation
    → List Message × Conversation
unfolding load window_records
window len configured namespace token_budget c =
    let (records, after) = load namespace c in
    (map to_message (window_records len (budget_of token_budget configured) records), after)
