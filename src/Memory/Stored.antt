-- ===== src/Memory/Stored.antt =====
-- `MemoryRecord.to_dict` and `from_dict` of src/eden/memory/types.py. A frozenset of tags is its
-- sorted list. `isoformat` and `fromisoformat` are those of `datetime`.
use eden_os.Prelude.{
  ℕ, String, true, false, Option, none, some, List, [], ◌∷◌, ◌≡◌, refl, arith, if◌then◌else◌,
  str_eq, eq_iff, ◌==◌,
}
use eden_os.Prelude.Dict
use eden_os.Prelude.Dict.{Dict}
use eden_os.Prelude.Text.{is_blank}
use eden_os.Enums.{MemoryKind, memory_kind, memory_kind_value}
use eden_os.Effect.{Outcome, ok, eden}
use eden_os.Memory.Records.{MemoryRecord, post_init, invalid}

-- The values that the payload of a record has.
pub data Field : Type 0 where
  null : Field
  text : String → Field
  number : ℕ → Field
  strings : List String → Field
  mapping : Dict String → Field

-- What the built-in conversions make of a field of another type, where they do not raise.
pub record Conversions : Type 0 where
  pub str : Field → String
  pub float : Field → Option ℕ
  pub iterate : Field → Option (List String)
  pub dict : Field → Option (Dict String)

abbrev pub default_namespace : String
default_namespace = "default"

module _ (isoformat : ℕ → String) where
  -- `to_dict`
  unfoldable pub to_dict : MemoryRecord → Dict Field
  to_dict r =
      ("id", text r.id)
      ∷ ("content", text r.content)
      ∷ ("kind", text (memory_kind_value r.kind))
      ∷ ("namespace", text r.namespace)
      ∷ ("created_at", text (isoformat r.created_at))
      ∷ ("importance", number r.importance)
      ∷ ("tags", strings r.tags)
      ∷ ("metadata", mapping r.metadata)
      ∷ ("embedding", null)
      ∷ []

module _ (fromisoformat : String → Option ℕ) (other : Conversions) where
  -- `str(value)`
  abbrev as_str : Field → String
  as_str (text s) = s
  as_str v = other.str v

  -- `str(payload.get("namespace") or DEFAULT_NAMESPACE)`
  abbrev namespace_of : Option Field → String
  namespace_of none = default_namespace
  namespace_of (some null) = default_namespace
  namespace_of (some (text s)) = if str_eq s "" then default_namespace else s
  namespace_of (some (number n)) = if n == 0 then default_namespace else other.str (number n)
  namespace_of (some (strings [])) = default_namespace
  namespace_of (some (strings (s ∷ ss))) = other.str (strings (s ∷ ss))
  namespace_of (some (mapping [])) = default_namespace
  namespace_of (some (mapping (e ∷ es))) = other.str (mapping (e ∷ es))

  -- `float(payload.get("importance", 0.5))`
  abbrev importance_of : Option Field → Option ℕ
  importance_of none = some 500000
  importance_of (some (number n)) = some n
  importance_of (some v) = other.float v

  -- `frozenset(str(tag) for tag in payload.get("tags") or ())`
  abbrev tags_of : Option Field → Option (List String)
  tags_of none = some []
  tags_of (some null) = some []
  tags_of (some (strings ss)) = some ss
  tags_of (some (number n)) = if n == 0 then some [] else none
  tags_of (some v) = other.iterate v

  -- `dict(payload.get("metadata") or {})`
  abbrev metadata_of : Option Field → Option (Dict String)
  metadata_of none = some []
  metadata_of (some null) = some []
  metadata_of (some (mapping d)) = some d
  metadata_of (some (strings [])) = some []
  metadata_of (some (number n)) = if n == 0 then some [] else none
  metadata_of (some v) = other.dict v

  -- The values that the constructor is given, or `KeyError`, `TypeError` or `ValueError`.
  abbrev pub read_fields :
      (id content kind created_at : Option Field) (namespace : String) (importance : Option ℕ)
      (tags : Option (List String)) (metadata : Option (Dict String))
      → Option MemoryRecord
  read_fields (some id) (some content) (some kind) (some created_at) namespace (some importance)
        (some tags) (some metadata) =
      checked (memory_kind (as_str kind)) (fromisoformat (as_str created_at))
    where
      checked : Option MemoryKind → Option ℕ → Option MemoryRecord
      checked (some k) (some t) = some (record {
        id = as_str id;
        content = as_str content;
        kind = k;
        namespace = namespace;
        created_at = t;
        importance = importance;
        tags = tags;
        metadata = metadata;
      })
      checked _ _ = none
  read_fields _ _ _ _ _ _ _ _ = none

  abbrev built : (fresh : String) → Option MemoryRecord → Outcome MemoryRecord
  built fresh none = eden (invalid "Stored memory record is malformed.")
  built fresh (some r) = post_init fresh r

  -- `from_dict`
  unfoldable pub from_dict : (fresh : String) → Dict Field → Outcome MemoryRecord
  from_dict fresh payload =
      let get : String → Option Field = λ k. Dict.get k payload in
      built fresh (
        read_fields (get "id") (get "content") (get "kind") (get "created_at")
          (namespace_of (get "namespace")) (importance_of (get "importance")) (tags_of (get "tags"))
          (metadata_of (get "metadata")))

memory_kind-value : (k : MemoryKind) → memory_kind (memory_kind_value k) ≡ some k
unfolding memory_kind
memory_kind-value MemoryKind.short_term = refl
memory_kind-value MemoryKind.long_term = refl
memory_kind-value MemoryKind.vector = refl
memory_kind-value MemoryKind.conversation = refl
memory_kind-value MemoryKind.project = refl

-- A record is valid when `__post_init__` accepts it as it is.
abbrev pub IsValid : MemoryRecord → Type 0
IsValid r = (fresh : String) → post_init fresh r ≡ ok r

blank_empty : (s : String) → str_eq s "" ≡ true → is_blank s ≡ true
unfolding is_blank
blank_empty s e = let nothing : s ≡ "" = ground (arith, eq_iff s "") in rw nothing refl

named : (r : MemoryRecord) → IsValid r → str_eq r.namespace "" ≡ false
unfolding post_init
named r valid = ground (arith, valid "", blank_empty r.namespace)

-- `from_dict` reads back what `to_dict` writes: for every valid record, if `fromisoformat` reads
-- what `isoformat` writes, and whatever the conversions make of fields of another type.
pub from_dict-to_dict :
    (isoformat : ℕ → String) (fromisoformat : String → Option ℕ) (other : Conversions)
    (fresh : String) (r : MemoryRecord)
    → ((t : ℕ) → fromisoformat (isoformat t) ≡ some t)
    → IsValid r
    → from_dict fromisoformat other fresh (to_dict isoformat r) ≡ ok r
unfolding from_dict to_dict Dict.get
from_dict-to_dict isoformat fromisoformat other fresh r reads valid =
    rw (named r valid, memory_kind-value r.kind, reads r.created_at) (valid fresh)
