-- ===== src/Memory/Records.antt =====
-- src/eden/memory/types.py: records, queries and hits. A number in [0, 1] is a natural number of
-- millionths, rounded down; a time is a natural number of microseconds. The embedding of a record
-- belongs to vector memory and is left out.
use eden_os.Prelude.{
  ℕ, ◌-◌, ◌*◌, ◌/◌, min, max, String, Bool, true, false, not, ◌||◌, Option, List, [], ◌∷◌, leb,
  length, keep, any, if◌then◌else◌, str_eq,
}
use eden_os.Prelude.Dict.{Dict}
use eden_os.Prelude.Text.{is_blank, contains}
use eden_os.Errors.{EdenError, validation_error}
use eden_os.Effect.{Outcome, ok, eden}
use eden_os.Enums.{MemoryKind, same_memory_kind, Role, role_value}

-- 1.0
abbrev pub one : ℕ
one = 1000000

abbrev pub chars_per_token : ℕ
chars_per_token = 4

-- `MemoryRecord`
pub record MemoryRecord : Type 0 where
  pub id : String
  pub content : String
  pub kind : MemoryKind
  pub namespace : String
  pub created_at : ℕ
  pub importance : ℕ
  pub tags : List String
  pub metadata : Dict String

abbrev pub invalid : String → EdenError
invalid message = record { class = validation_error; message = message }

-- `__post_init__`; `fresh` is what `new_id("mem")` returns.
unfoldable pub post_init : (fresh : String) → MemoryRecord → Outcome MemoryRecord
post_init fresh r =
    if is_blank r.content
    then eden (invalid "Memory content must not be empty.")
    else if not (leb r.importance one)
    then eden (invalid "Importance must be between 0 and 1.")
    else if is_blank r.namespace
    then eden (invalid "Memory namespace must not be empty.")
    else if str_eq r.id ""
    then ok (record r { id = fresh })
    else ok r

-- `estimated_tokens`; `len` is the number of characters.
abbrev pub estimated_tokens : (len : String → ℕ) → MemoryRecord → ℕ
estimated_tokens len r = max 1 (len r.content / chars_per_token)

-- `age_seconds`: subtraction of naturals stops at zero, as `max(0.0, …)` does.
abbrev pub age : (now : ℕ) → MemoryRecord → ℕ
age now r = now - r.created_at

-- `from_turn`
unfoldable pub from_turn :
    (fresh : String) (now : ℕ)
    → Role
    → (content namespace : String) (importance : ℕ) → Outcome MemoryRecord
unfolding post_init
from_turn fresh now role content namespace importance = post_init fresh (record {
  id = "";
  content = content;
  kind = MemoryKind.conversation;
  namespace = namespace;
  created_at = now;
  importance = importance;
  tags = [];
  metadata = ("role", role_value role) ∷ [];
})

-- `MemoryQuery`; its property `tokens` is the word set of the text.
pub record MemoryQuery : Type 0 where
  pub text : String
  pub namespace : String
  pub kinds : List MemoryKind
  pub tags : List String
  pub limit : ℕ
  pub min_score : ℕ
  pub since : Option ℕ

-- `MemoryQuery.__post_init__`
unfoldable pub query_post_init : MemoryQuery → Outcome MemoryQuery
query_post_init q =
    if leb q.limit 0
    then eden (invalid "Query limit must be positive.")
    else if is_blank q.namespace
    then eden (invalid "Query namespace must not be empty.")
    else ok q

abbrev is_empty {ℓ} : {A : Type ℓ} → List A → Bool
is_empty [] = true
is_empty (x ∷ xs) = false

-- `matches_kind`
unfoldable pub matches_kind : MemoryQuery → MemoryKind → Bool
matches_kind q kind = is_empty q.kinds || any (same_memory_kind kind) q.kinds

-- `SearchHit`
pub record SearchHit : Type 0 where
  pub item : MemoryRecord
  pub score : ℕ
  pub store : String

-- `SearchHit.__post_init__` clamps the score.
abbrev pub search_hit : MemoryRecord → ℕ → (store : String) → SearchHit
search_hit r score store = record { item = r; score = min one score; store = store }

-- `keyword_score`: the share of the query's words that the content has; both are word sets.
unfoldable pub keyword_score : (query_tokens content_tokens : List String) → ℕ
keyword_score query_tokens content_tokens =
    if is_empty query_tokens
    then one
    else if is_empty content_tokens
    then 0
    else length (keep (contains content_tokens) query_tokens) * one / length query_tokens
