-- ===== src/Memory/Examples.antt =====
-- The properties of the memory at concrete records.
use eden_os.Prelude.{
  ℕ, zero, suc, String, Bool, none, some, List, [], ◌∷◌, ◌++◌, ◌≡◌, refl, ap, ◌⊎◌, inl, inr, Option,
  keep, str_eq, if◌then◌else◌, All,
}
use mathlib.Core.List.{Perm}
use eden_os.Prelude.Dict
use eden_os.Prelude.Dict.{Dict}
use eden_os.Prelude.Text.{is_blank, contains}
use eden_os.Prelude.Sorting.{sort}
use eden_os.Enums.{MemoryKind}
use eden_os.Effect.{ok}
use eden_os.Memory.Records.{MemoryRecord, MemoryQuery, post_init, matches_kind}
use eden_os.Memory.ShortTerm.{Policy, Buffers, expire, persist}
use eden_os.Memory.ShortTerm.Eviction.{strongest, weakest, Outranked}
use eden_os.Memory.ShortTerm.Bounded
use eden_os.Memory.ShortTerm.Bounded.{held, IsSound, run-IsSound, persist-strongest}
use eden_os.Memory.Search.{relevance, search}
use eden_os.Memory.Search.Best.{IsBest, search-IsBest}
use eden_os.Memory.Stored.{Conversions, IsValid, to_dict, from_dict, from_dict-to_dict}
use eden_os.Memory.Repository.Paths.{path_for, sanitise}
use eden_os.Memory.Repository.Refines
use eden_os.Memory.Conversation.{role_of, window_records}
use eden_os.Memory.Conversation.Window.{IsWindow, window_records-IsWindow}

abbrev note : (id content namespace : String) (created_at importance : ℕ) → MemoryRecord
note id content namespace created_at importance = record {
  id = id;
  content = content;
  kind = MemoryKind.short_term;
  namespace = namespace;
  created_at = created_at;
  importance = importance;
  tags = [];
  metadata = [];
}

abbrev first : MemoryRecord
first = note "m1" "deploy the service" "work" 1 500000

abbrev second : MemoryRecord
second = note "m2" "feed the cat" "work" 2 100000

abbrev third : MemoryRecord
third = note "m3" "rotate the keys" "work" 3 900000

abbrev policy : Policy
policy = record { capacity = 2; ttl = 100 }

abbrev calls : List Bounded.Call
calls =
    Bounded.add 1 first
    ∷ Bounded.add 2 second
    ∷ Bounded.add 3 third
    ∷ Bounded.remove "m1" "work"
    ∷ []

run-IsSound_example : IsSound policy (Bounded.run policy calls [])
run-IsSound_example = run-IsSound policy calls

abbrev buffers : Buffers
buffers = ("work", first ∷ second ∷ []) ∷ []

-- The least important record is the one that goes.
evicted : persist policy 3 third buffers ≡ ("work", first ∷ third ∷ []) ∷ []
unfolding persist Dict.get Dict.put contains sort
evicted = refl

persist-strongest_example :
    let live = expire policy 3 (held "work" buffers ++ third ∷ []) in
    let left = held "work" (persist policy 3 third buffers) in
    Perm left (strongest policy live)
    × ((p : MemoryRecord → Bool) × (left ≡ keep p live))
    × Perm (weakest policy live ++ strongest policy live) live
    × All (λ a. All (Outranked a) (strongest policy live)) (weakest policy live)
unfolding Dict.get
persist-strongest_example =
    persist-strongest policy 3 third buffers ((refl, (refl, tt)), ((refl, tt), (tt, tt)))

abbrev words : String → List String
words s =
    if str_eq s "deploy"
    then "deploy" ∷ []
    else if str_eq s "deploy the service"
    then "deploy" ∷ "the" ∷ "service" ∷ []
    else "the" ∷ []

abbrev query : MemoryQuery
query = record {
  text = "deploy";
  namespace = "work";
  kinds = [];
  tags = [];
  limit = 1;
  min_score = 1;
  since = none;
}

abbrev decay : ℕ → ℕ
decay age = 1000000

search-IsBest_example :
    let found =
      search decay "short_term" MemoryKind.short_term
        (relevance words query)
        query
        9
        (second ∷ first ∷ []) in
    IsBest decay "short_term" query 9
      (relevance words query (second ∷ first ∷ []))
      (second ∷ first ∷ [])
      found
unfolding matches_kind
search-IsBest_example =
    search-IsBest decay "short_term" query 9 MemoryKind.short_term (relevance words query)
      (second ∷ first ∷ []) refl

abbrev conversions : Conversions
conversions = record { str = λ f. ""; float = λ f. none; iterate = λ f. none; dict = λ f. none }

first-IsValid : IsValid first
unfolding post_init is_blank
first-IsValid fresh = refl

-- A time written as so many strokes.
strokes : ℕ → String
strokes zero = ""
strokes (suc t) = String.◌∷◌ "I" (strokes t)

count : String → ℕ
count String.[] = 0
count (String.◌∷◌ c s) = suc (count s)

count-strokes : (t : ℕ) → count (strokes t) ≡ t
unfolding count strokes
count-strokes zero = refl
count-strokes (suc t) = ap suc (count-strokes t)

abbrev read_strokes : String → Option ℕ
read_strokes s = some (count s)

from_dict-to_dict_example :
    from_dict read_strokes conversions "fresh" (to_dict strokes first) ≡ ok first
from_dict-to_dict_example =
    from_dict-to_dict strokes read_strokes conversions "fresh" first
      (λ t. ap some (count-strokes t)) first-IsValid

abbrev file_of : String → String
unfolding path_for
file_of = path_for "memory" ".jsonl"

-- Two namespaces that have one file.
collide : file_of "team/a" ≡ file_of "team_a"
unfolding file_of path_for sanitise
collide = refl

abbrev line_of : MemoryRecord → String
line_of r = r.id

abbrev record_of : String → Option MemoryRecord
record_of s =
    if str_eq s "m1"
    then some first
    else if str_eq s "m2"
    then some second
    else if str_eq s "m3"
    then some third
    else none

abbrev Used : String → Type 0
Used n = (n ≡ "work") ⊎ (n ≡ "home/office")

apart : (n m : String) → Used n → Used m → str_eq (file_of n) (file_of m) ≡ str_eq n m
unfolding file_of path_for sanitise
apart n m (inl p) (inl q) = rw (p, q) refl
apart n m (inl p) (inr q) = rw (p, q) refl
apart n m (inr p) (inl q) = rw (p, q) refl
apart n m (inr p) (inr q) = rw (p, q) refl

abbrev requests : List Refines.Call
requests =
    Refines.append first
    ∷ Refines.append second
    ∷ Refines.remove "m1" "work"
    ∷ Refines.read "work"
    ∷ Refines.purge "home/office"
    ∷ []

on_files-in_memory_example :
    Refines.on_files_all file_of line_of record_of requests [] ≡ Refines.in_memory_all requests []
unfolding Refines.IsProper is_blank
on_files-in_memory_example =
    Refines.on_files-in_memory file_of line_of record_of Used apart requests
      ((inl refl, (refl, refl)), ((inl refl, (refl, refl)), (inl refl, (inl refl, (inr refl, tt)))))

abbrev turn : (id role content : String) (created_at : ℕ) → MemoryRecord
turn id role content created_at = record (note id content "chat" created_at 500000) {
  kind = MemoryKind.conversation;
  metadata = ("role", role) ∷ [];
}

abbrev dialogue : List MemoryRecord
dialogue =
    turn "t1" "system" "be brief" 1
    ∷ turn "t2" "user" "hello" 2
    ∷ turn "t3" "assistant" "hello to you" 3
    ∷ turn "t4" "user" "goodbye" 4
    ∷ []

abbrev len : String → ℕ
len = count

-- The oldest turn does not fit beside the others.
windowed :
    window_records len 5 dialogue
    ≡ turn "t1" "system" "be brief" 1 ∷ turn "t4" "user" "goodbye" 4 ∷ []
unfolding window_records role_of Dict.get sort count
windowed = refl

window_records-IsWindow_example : IsWindow len 5 dialogue (window_records len 5 dialogue)
window_records-IsWindow_example = window_records-IsWindow len 5 dialogue

abbrev history : Buffers
history = ("chat", dialogue) ∷ []
