-- ===== src/Memory/Facts/Remembered.antt =====
-- What `fact` answers after `remember_fact`.
use eden_os.Prelude.{
  ℕ, ◌≤◌, String, true, false, Option, none, some, List, [], ◌∷◌, ◌++◌, leb, length, keep,
  length-append, ◌≡◌, refl, sym, ap, ◌∙◌, subst, inl, inr, arith, Bool-cases, str_eq, eq_iff,
}
use mathlib.Core.List.{append-nil}
use eden_os.Prelude.Dict
use eden_os.Prelude.Text.{contains, is_blank}
use eden_os.Prelude.Selection.{keep-append}
use eden_os.Effect.{Outcome, ok, eden, crash}
use eden_os.Memory.Records.{MemoryRecord, one, post_init, query_post_init}
use eden_os.Memory.ShortTerm.{Buffers}
use eden_os.Memory.Repository.InMemory
use eden_os.Memory.Facts.{
  full, fact_limit, fact_record, find_fact, fact, forgotten, persist, stored, content_of, replaced,
  remember_fact,
}
use eden_os.Memory.Facts.Found.{is_fact, head, AtMostOne, first_with-search}
use eden_os.Memory.Facts.Replaced.{Identified, IsCleared, read-append, forgotten-IsCleared}

abbrev pub value_if_ok : String → Outcome MemoryRecord → Option String
value_if_ok value (ok r) = some value
value_if_ok value (eden e) = none
value_if_ok value (crash t m) = none

module _ (words : String → List String) (decay : ℕ → ℕ) (now : ℕ) (namespace : String)
    (named : is_blank namespace ≡ false) where
  find_fact_here :
      (key : String) (store : Buffers)
      → length (InMemory.read namespace store) ≤ fact_limit
      → AtMostOne (keep (is_fact key) (InMemory.read namespace store))
      → find_fact words decay now key namespace store
        ≡ ok (head (keep (is_fact key) (InMemory.read namespace store)))
  unfolding find_fact query_post_init
  find_fact_here key store short unique = rw named (
      ap ok (
        first_with-search decay "project" now key namespace words (InMemory.read namespace store)
          short unique))

  module _ (key value : String) (max_records : ℕ) (below : max_records ≤ fact_limit)
      (before : List MemoryRecord) (short : length before ≤ fact_limit) where
    -- The record that an outcome leaves for the key.
    abbrev kept : Outcome MemoryRecord → Option MemoryRecord
    kept (ok r) = some r
    kept (eden e) = none
    kept (crash t m) = none

    abbrev value_of : Option MemoryRecord → Option String
    value_of none = none
    value_of (some r) = some r.content

    -- A new record for the key.
    abbrev New : Outcome MemoryRecord → Type 0
    New (ok r) =
        (r.namespace ≡ namespace)
        × (is_fact key r ≡ true)
        × ((k : String) → str_eq k key ≡ false → is_fact k r ≡ false)
        × (r.content ≡ value)
    New (eden e) = Unit
    New (crash t m) = Unit

    post_init-New :
        (fresh : String) (importance : ℕ)
        → New (post_init fresh (fact_record key value namespace importance now))
    unfolding post_init contains Dict.get
    post_init-New fresh importance =
        let r = fact_record key value namespace importance now in
        elim (Bool-cases (is_blank value)) [
          | inl e ↦ rw e tt
          | inr e ↦ elim (Bool-cases (leb importance one)) [
            | inr f ↦ rw (e, f) tt
            | inl f ↦
                rw (e, f, named)
                  (
                    refl,
                    ground (arith, eq_iff key key),
                    λ k other. ground (arith, eq_iff key k, eq_iff k key, other),
                    refl,
                  )
          ]
        ]

    -- What the records are after a call that returned or raised.
    record Left (o : Outcome MemoryRecord) (after : List MemoryRecord) : Type 0 where
      held : head (keep (is_fact key) after) ≡ kept o
      own : value_of (kept o) ≡ value_if_ok value o
      few : AtMostOne (keep (is_fact key) after)
      others :
          (k : String) → str_eq k key ≡ false → keep (is_fact k) after ≡ keep (is_fact k) before
      short_still : length after ≤ fact_limit

    nothing_kept :
        (o : Outcome MemoryRecord) (store : Buffers)
        → kept o ≡ none
        → value_if_ok value o ≡ none
        → IsCleared key before (InMemory.read namespace store)
        → Left o (InMemory.read namespace store)
    nothing_kept o store k v c = record {
      held = ap head c.cleared ∙ sym k;
      own = ap value_of k ∙ sym v;
      few = subst AtMostOne (sym c.cleared) (omega arith);
      others = c.others;
      short_still = omega (arith, c.no_longer, short);
    }

    one_kept :
        (store : Buffers) (r : MemoryRecord)
        → IsCleared key before (InMemory.read namespace store)
        → New (ok r)
        → leb max_records (length (InMemory.read r.namespace store)) ≡ false
        → Left (ok r) (InMemory.read namespace (InMemory.append r store))
    one_kept store r c new e =
        let g = InMemory.read namespace store in
        let room : leb max_records (length g) ≡ false =
          subst (λ n. leb max_records (length (InMemory.read n store)) ≡ false) new.0 e in
        let here : keep (is_fact key) (g ++ r ∷ []) ≡ r ∷ [] =
          keep-append (is_fact key) g (r ∷ [])
          ∙ ap (λ l. l ++ keep (is_fact key) (r ∷ [])) c.cleared
          ∙ rw new.1 refl in
        subst (Left (ok r))
          (sym (
            subst (λ n. InMemory.read n (InMemory.append r store) ≡ InMemory.read n store ++ r ∷ [])
              new.0 (read-append r store)))
          (record {
            held = ap head here;
            own = ap some new.3;
            few = subst AtMostOne (sym here) (omega arith);
            others = λ k other.
                keep-append (is_fact k) g (r ∷ [])
                ∙ (rw (new.2 k other) (append-nil (keep (is_fact k) g)))
                ∙ c.others k other;
            short_still = ground (arith, length-append g (r ∷ []), room, below);
          })

    persist-Left :
        (store : Buffers) (r : MemoryRecord)
        → IsCleared key before (InMemory.read namespace store)
        → New (ok r)
        → (let p = persist max_records r store in Left p.0 (InMemory.read namespace p.1))
    unfolding persist
    persist-Left store r c new =
        elim (Bool-cases (leb max_records (length (InMemory.read r.namespace store)))) [
          | inl e ↦ rw e (nothing_kept (eden full) store refl refl c)
          | inr e ↦ rw e (one_kept store r c new e)
        ]

    stored-Left :
        (store : Buffers) (o : Outcome MemoryRecord)
        → IsCleared key before (InMemory.read namespace store)
        → New o
        → (let p = stored max_records store o in Left p.0 (InMemory.read namespace p.1))
    stored-Left store (ok r) c new = persist-Left store r c new
    stored-Left store (eden e) c new = nothing_kept (eden e) store refl refl c
    stored-Left store (crash t m) c new = nothing_kept (crash t m) store refl refl c

    content_of_ok : (o : Option MemoryRecord) → content_of (ok o) ≡ ok (value_of o)
    content_of_ok none = refl
    content_of_ok (some r) = refl

    Left-fact :
        (p : Outcome MemoryRecord × Buffers)
        → Left p.0 (InMemory.read namespace p.1)
        → fact words decay now key namespace p.1 ≡ ok (value_if_ok value p.0)
    unfolding fact
    Left-fact p left =
        ap content_of (find_fact_here key p.1 left.short_still left.few)
        ∙ content_of_ok (head (keep (is_fact key) (InMemory.read namespace p.1)))
        ∙ ap (λ o. ok (value_of o)) left.held
        ∙ ap ok left.own

  -- What the facts are after `remember_fact`, of a project with a name. If no key has two records, the
  -- identifiers tell the records apart, and the project has at most as many records as the search for a
  -- fact returns, before and by the ceiling of the store, then the key has the new value if the call
  -- returned, and no value at all if it raised, the old one being deleted before the new one is checked
  -- and stored; and every other key has the value that it had.
  pub fact-remember_fact :
      (max_records : ℕ) (fresh key value : String) (importance : ℕ) (store : Buffers)
      → max_records ≤ fact_limit
      → length (InMemory.read namespace store) ≤ fact_limit
      → ((k : String) → AtMostOne (keep (is_fact k) (InMemory.read namespace store)))
      → Identified (InMemory.read namespace store)
      → (let (o, after) =
            remember_fact words decay now max_records fresh key value namespace importance store in
          (fact words decay now key namespace after ≡ ok (value_if_ok value o))
          × ((k : String)
              → str_eq k key ≡ false
              → fact words decay now k namespace after ≡ fact words decay now k namespace store))
  unfolding remember_fact fact
  fact-remember_fact max_records fresh key value importance store below short unique ids =
      let old = InMemory.read namespace store in
      let cleaned = forgotten (head (keep (is_fact key) old)) namespace store in
      let posted = post_init fresh (fact_record key value namespace importance now) in
      let step =
        ap
          (replaced max_records namespace fresh (fact_record key value namespace importance now)
            store)
          (find_fact_here key store short (unique key)) in
      let left =
        stored-Left key value max_records below old short cleaned posted
          (forgotten-IsCleared key namespace store (keep (is_fact key) old) refl (unique key) ids)
          (post_init-New key value max_records below old short fresh importance) in
      subst
        (λ (p : Outcome MemoryRecord × Buffers).
          (fact words decay now key namespace p.1 ≡ ok (value_if_ok value p.0))
          × ((k : String)
              → str_eq k key ≡ false
              → fact words decay now k namespace p.1 ≡ fact words decay now k namespace store))
        (sym step)
        (
          Left-fact key value max_records below old short (stored max_records cleaned posted) left,
          λ k other.
              let same = left.others k other in
              ap content_of (
                find_fact_here k (stored max_records cleaned posted).1 left.short_still
                  (subst AtMostOne (sym same) (unique k))
                ∙ ap (λ l. ok (head l)) same
                ∙ sym (find_fact_here k store short (unique k))),
        )
