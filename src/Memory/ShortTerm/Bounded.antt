-- ===== src/Memory/ShortTerm/Bounded.antt =====
-- Short-term memory over any sequence of its operations.
use eden_os.Prelude.{
  ℕ, ◌≤◌, String, Bool, not, List, [], ◌∷◌, ◌++◌, ◌≡◌, refl, sym, subst, ◌∙◌, inl, inr, arith, ltb,
  length, keep, if◌then◌else◌, str_eq, eq_iff, All, All-append, All-keep_sub, Bool-cases,
  length-keep-le, Option-cases,
}
use mathlib.Core.List.{Perm}
use eden_os.Prelude.Dict
use eden_os.Prelude.Dict.{get-put, get-remove}
use eden_os.Prelude.Selection.{Sorted-keep}
use eden_os.Memory.Records.{MemoryRecord, age}
use eden_os.Memory.ShortTerm
use eden_os.Memory.ShortTerm.{
  Policy, Buffers, or_empty, expire, evict, persist, without, prepare, loaded,
}
use eden_os.Enums.{MemoryKind}
use eden_os.Memory.ShortTerm.Eviction.{
  length-evict_le, evict_filters, evict-perm, Distinct, differ, strongest, weakest, Outranked,
  weakest-Outranked, weakest-strongest,
}

-- The buffer of a namespace.
abbrev pub held : String → Buffers → List MemoryRecord
held namespace buffers = or_empty (Dict.get namespace buffers)

pub data Call : Type 0 where
  add : (now : ℕ) → MemoryRecord → Call
  load : (now : ℕ) → (namespace : String) → Call
  remove : (record_id namespace : String) → Call
  purge : (namespace : String) → Call

unfoldable pub after : Policy → Call → Buffers → Buffers
after policy (add now r) buffers = (ShortTerm.add policy now r buffers).1
after policy (load now namespace) buffers = (ShortTerm.load policy now namespace buffers).1
after policy (remove record_id namespace) buffers = (ShortTerm.remove record_id namespace buffers).1
after policy (purge namespace) buffers = (ShortTerm.purge namespace buffers).1

unfoldable pub run : Policy → List Call → Buffers → Buffers
run policy [] buffers = buffers
run policy (c ∷ cs) buffers = run policy cs (after policy c buffers)

-- A buffer within the capacity that holds records of its own namespace only.
abbrev pub IsFit : Policy → String → List MemoryRecord → Type 0
IsFit policy namespace buffer =
    (length buffer ≤ policy.capacity) × All (λ r. r.namespace ≡ namespace) buffer

abbrev pub IsSound : Policy → Buffers → Type 0
IsSound policy buffers = (namespace : String) → IsFit policy namespace (held namespace buffers)

held-put :
    (namespace other : String) (buffer : List MemoryRecord) (buffers : Buffers)
    → held other (Dict.put namespace buffer buffers)
      ≡ (if str_eq namespace other then buffer else held other buffers)
held-put namespace other buffer buffers = ground (arith, get-put namespace other buffer buffers)

either :
    (policy : Policy) (namespace other : String) (x y : List MemoryRecord)
    → IsFit policy namespace x
    → IsFit policy other y
    → IsFit policy other (if str_eq namespace other then x else y)
either policy namespace other x y fit rest = elim (Bool-cases (str_eq namespace other)) [
  | inl e ↦
      let same : namespace ≡ other = ground (arith, eq_iff namespace other) in
      rw e (subst (λ n. IsFit policy n x) same fit)
  | inr e ↦ rw e rest
]

put-IsSound :
    (policy : Policy) (namespace : String) (buffer : List MemoryRecord) (buffers : Buffers)
    → IsFit policy namespace buffer
    → IsSound policy buffers
    → IsSound policy (Dict.put namespace buffer buffers)
put-IsSound policy namespace buffer buffers fit sound other =
    subst (IsFit policy other) (sym (held-put namespace other buffer buffers))
      (either policy namespace other buffer (held other buffers) fit (sound other))

keep-IsFit :
    (policy : Policy) (namespace : String) (p : MemoryRecord → Bool) (buffer : List MemoryRecord)
    → IsFit policy namespace buffer
    → IsFit policy namespace (keep p buffer)
keep-IsFit policy namespace p buffer fit = (
  omega (arith, length-keep-le p buffer, fit.0),
  All-keep_sub (λ r. r.namespace ≡ namespace) p buffer fit.1,
)

evict-IsFit :
    (policy : Policy) (namespace : String) (buffer : List MemoryRecord)
    → All (λ r. r.namespace ≡ namespace) buffer
    → IsFit policy namespace (evict policy buffer)
evict-IsFit policy namespace buffer h =
    let (p, filtered) = evict_filters policy buffer in
    (
      length-evict_le policy buffer,
      subst (All (λ r. r.namespace ≡ namespace)) (sym filtered)
          (All-keep_sub (λ r. r.namespace ≡ namespace) p buffer h),
    )

persist-IsSound :
    (policy : Policy) (now : ℕ) (r : MemoryRecord) (buffers : Buffers)
    → IsSound policy buffers
    → IsSound policy (persist policy now r buffers)
unfolding persist expire
persist-IsSound policy now r buffers sound =
    let ns = r.namespace in
    let whole = held ns buffers ++ r ∷ [] in
    let mine =
      All-append (λ s. s.namespace ≡ ns) (held ns buffers) (r ∷ []) (sound ns).1 (refl, tt) in
    put-IsSound policy ns (evict policy (expire policy now whole)) buffers
      (evict-IsFit policy ns (expire policy now whole)
        (All-keep_sub (λ s. s.namespace ≡ ns) (λ s. ltb (age now s) policy.ttl) whole mine))
      sound

load-IsSound :
    (policy : Policy) (now : ℕ) (namespace : String) (buffers : Buffers)
    → IsSound policy buffers
    → IsSound policy (ShortTerm.load policy now namespace buffers).1
unfolding ShortTerm.load loaded expire
load-IsSound policy now namespace buffers sound = elim (Option-cases (Dict.get namespace buffers)) [
  | inl e ↦ rw e sound
  | inr (buffer, e) ↦
      let fit : IsFit policy namespace buffer = rw e at (sound namespace) in
      rw e (
        put-IsSound policy namespace (expire policy now buffer) buffers
          (keep-IsFit policy namespace (λ s. ltb (age now s) policy.ttl) buffer fit) sound)
]

remove-IsSound :
    (policy : Policy) (record_id namespace : String) (buffers : Buffers)
    → IsSound policy buffers
    → IsSound policy (ShortTerm.remove record_id namespace buffers).1
unfolding ShortTerm.remove
remove-IsSound policy record_id namespace buffers sound =
    let buffer = held namespace buffers in
    let rest = without record_id buffer in
    let fit =
      keep-IsFit policy namespace (λ r. not (str_eq r.id record_id)) buffer (sound namespace) in
    let stored = put-IsSound policy namespace rest buffers fit sound in
    ground (arith, sound, stored)

purge-IsSound :
    (policy : Policy) (namespace : String) (buffers : Buffers)
    → IsSound policy buffers
    → IsSound policy (ShortTerm.purge namespace buffers).1
unfolding ShortTerm.purge
purge-IsSound policy namespace buffers sound other =
    let nothing : IsFit policy namespace [] = (omega arith, tt) in
    let left : held other (Dict.remove namespace buffers)
        ≡ (if str_eq namespace other then [] else held other buffers) =
      ground (arith, get-remove namespace other buffers) in
    subst (IsFit policy other) (sym left)
      (either policy namespace other [] (held other buffers) nothing (sound other))

after-IsSound :
    (policy : Policy) (c : Call) (buffers : Buffers)
    → IsSound policy buffers
    → IsSound policy (after policy c buffers)
unfolding after ShortTerm.add
after-IsSound policy (add now r) buffers sound =
    persist-IsSound policy now (prepare MemoryKind.short_term r) buffers sound
after-IsSound policy (load now namespace) buffers sound =
    load-IsSound policy now namespace buffers sound
after-IsSound policy (remove record_id namespace) buffers sound =
    remove-IsSound policy record_id namespace buffers sound
after-IsSound policy (purge namespace) buffers sound = purge-IsSound policy namespace buffers sound

run-IsSound_from :
    (policy : Policy) (cs : List Call) (buffers : Buffers)
    → IsSound policy buffers
    → IsSound policy (run policy cs buffers)
unfolding run
run-IsSound_from policy [] buffers sound = sound
run-IsSound_from policy (c ∷ cs) buffers sound =
    run-IsSound_from policy cs (after policy c buffers) (after-IsSound policy c buffers sound)

-- After any sequence of additions, reads, deletions and purges on an empty short-term memory,
-- each namespace holds at most `capacity` records, and all of them were stored in that namespace.
pub run-IsSound : (policy : Policy) (cs : List Call) → IsSound policy (run policy cs [])
unfolding Dict.get
run-IsSound policy cs = run-IsSound_from policy cs [] (λ namespace. (omega arith, tt))

-- What an addition leaves in the namespace of its record, if the identifiers of that namespace
-- and of the new record all differ: of the records that have not expired, the new one among them,
-- the strongest, as many as the capacity allows, in the order in which they were stored. Each of
-- the others is less important than all of these, or as important and not younger.
pub persist-strongest :
    (policy : Policy) (now : ℕ) (r : MemoryRecord) (buffers : Buffers)
    → Distinct (held r.namespace buffers ++ r ∷ [])
    → let live = expire policy now (held r.namespace buffers ++ r ∷ []) in
      let left = held r.namespace (persist policy now r buffers) in
      Perm left (strongest policy live)
      × ((p : MemoryRecord → Bool) × (left ≡ keep p live))
      × Perm (weakest policy live ++ strongest policy live) live
      × All (λ a. All (Outranked a) (strongest policy live)) (weakest policy live)
unfolding persist
persist-strongest policy now r buffers d =
    let ns = r.namespace in
    let whole = held ns buffers ++ r ∷ [] in
    let live = expire policy now whole in
    let found : held ns (Dict.put ns (evict policy live) buffers) ≡ evict policy live =
      ground (arith, held-put ns ns (evict policy live) buffers, eq_iff ns ns) in
    let apart : Distinct live =
      unfold expire in Sorted-keep differ (λ s. ltb (age now s) policy.ttl) whole d in
    let (p, filtered) = evict_filters policy live in
    (
      subst (λ l. Perm l (strongest policy live)) (sym found) (evict-perm policy live apart),
      (p, found ∙ filtered),
      weakest-strongest policy live,
      weakest-Outranked policy live,
    )
