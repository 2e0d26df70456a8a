-- ===== src/Memory/Facts/Found.antt =====
-- What `_find_fact` finds, where no key has two records.
use eden_os.Prelude.{
  ℕ, zero, suc, ◌≤◌, String, Bool, true, false, ◌&&◌, Option, none, some, List, [], ◌∷◌, map, leb,
  length, take, keep, ◌≡◌, refl, sym, ap, ◌∙◌, subst, inl, inr, arith, Bool-cases, All,
}
use eden_os.Prelude.Dict.{Dict}
use eden_os.Prelude.Text.{contains}
use eden_os.Prelude.Sorting.{insert, sort, length-sort}
use eden_os.Prelude.Selection.{keep-All}
use eden_os.Enums.{project}
use eden_os.Memory.Records.{MemoryRecord, SearchHit, matches_kind}
use eden_os.Memory.Search.{passes_filters, score_all, better, relevance, search}
use eden_os.Memory.Facts.{fact_query, fact_limit, holds, first_with}

-- The record is the fact under the key.
abbrev pub is_fact : String → MemoryRecord → Bool
is_fact key r = contains r.tags "fact" && holds key r

-- The only record of a list that passes a test, or none.
abbrev pub head : {A : Type 0} → List A → Option A
head [] = none
head (x ∷ xs) = some x

first_with-keep :
    (key : String) (hs : List SearchHit)
    → first_with key hs ≡ head (map (λ h. h.item) (keep (λ h. holds key h.item) hs))
unfolding first_with
first_with-keep key [] = refl
first_with-keep key (h ∷ hs) = ground (arith, first_with-keep key hs)

take_all : {A : Type 0} (n : ℕ) (xs : List A) → length xs ≤ n → take n xs ≡ xs
take_all zero [] h = refl
take_all zero (x ∷ xs) h = absurd (omega (arith, h))
take_all (suc n) [] h = refl
take_all (suc n) (x ∷ xs) h = ap (λ l. x ∷ l) (take_all n xs (omega (arith, h)))

module _ {A : Type 0} (before : A → A → Bool) (p : A → Bool) where
  insert_out : (x : A) (xs : List A) → p x ≡ false → keep p (insert before x xs) ≡ keep p xs
  unfolding insert
  insert_out x [] h = rw h refl
  insert_out x (y ∷ ys) h = ground (arith, insert_out x ys h, h)

  insert_in :
      (x : A) (xs : List A) → p x ≡ true → keep p xs ≡ [] → keep p (insert before x xs) ≡ x ∷ []
  unfolding insert
  insert_in x [] h e = rw h refl
  insert_in x (y ∷ ys) h e = elim (Bool-cases (p y)) [
    | inl f ↦ absurd (let g : y ∷ keep p ys ≡ [] = rw f at e in cc)
    | inr f ↦ let ih = insert_in x ys h (rw f at e) in ground (arith, ih, h, f, e)
  ]

  -- Sorting keeps the only element that passes a test.
  sort_none : (xs : List A) → keep p xs ≡ [] → keep p (sort before xs) ≡ []
  unfolding sort
  sort_none [] e = refl
  sort_none (x ∷ xs) e = elim (Bool-cases (p x)) [
    | inl f ↦ absurd (let g : x ∷ keep p xs ≡ [] = rw f at e in cc)
    | inr f ↦ insert_out x (sort before xs) f ∙ sort_none xs (rw f at e)
  ]

  sort_one : (xs : List A) (r : A) → keep p xs ≡ r ∷ [] → keep p (sort before xs) ≡ r ∷ []
  unfolding sort
  sort_one [] r e = absurd (cc)
  sort_one (x ∷ xs) r e = elim (Bool-cases (p x)) [
    | inl f ↦
        let g : x ∷ keep p xs ≡ r ∷ [] = rw f at e in
        let rest : keep p xs ≡ [] = cc in
        let same : x ≡ r = cc in
        insert_in x (sort before xs) f (sort_none xs rest) ∙ ap (λ y. y ∷ []) same
    | inr f ↦ insert_out x (sort before xs) f ∙ sort_one xs r (rw f at e)
  ]

-- At most one.
abbrev pub AtMostOne : {A : Type 0} → List A → Type 0
AtMostOne xs = length xs ≤ 1

sort_at_most_one :
    {A B : Type 0} (before : A → A → Bool) (p : A → Bool) (f : A → B) (xs l : List A)
    → keep p xs ≡ l
    → AtMostOne (map f l)
    → map f (keep p (sort before xs)) ≡ map f l
sort_at_most_one before p f xs [] e h = ap (map f) (sort_none before p xs e)
sort_at_most_one before p f xs (x ∷ []) e h = ap (map f) (sort_one before p xs x e)
sort_at_most_one before p f xs (x ∷ y ∷ l) e h = absurd (omega (arith, h))

module _ (decay : ℕ → ℕ) (name : String) (now : ℕ) (key namespace : String) where
  module _ (scores : Dict ℕ) where
    items_scored :
        (records : List MemoryRecord)
        → map
            (λ h. h.item)
            (keep
              (λ h. holds key h.item)
              (score_all decay name scores (fact_query namespace) now records))
          ≡ keep (is_fact key) records
    unfolding score_all passes_filters matches_kind
    items_scored [] = refl
    items_scored (r ∷ rs) = ground (arith, items_scored rs)

    length-scored :
        (records : List MemoryRecord)
        → length (score_all decay name scores (fact_query namespace) now records) ≤ length records
    unfolding score_all
    length-scored [] = omega arith
    length-scored (r ∷ rs) = ground (arith, length-scored rs)

  none_below : (hs : List SearchHit) → All (λ h. leb 0 h.score ≡ true) hs
  none_below [] = tt
  none_below (h ∷ hs) = (ground arith, none_below hs)

  -- The search finds the only record under the key.
  pub first_with-search :
      (words : String → List String) (records : List MemoryRecord)
      → length records ≤ fact_limit
      → AtMostOne (keep (is_fact key) records)
      → first_with key (
          search decay name project
            (relevance words (fact_query namespace))
            (fact_query namespace)
            now
            records)
        ≡ head (keep (is_fact key) records)
  unfolding search matches_kind
  first_with-search words records short unique =
      let scores = relevance words (fact_query namespace) records in
      let hits = score_all decay name scores (fact_query namespace) now records in
      let test : SearchHit → Bool = λ h. holds key h.item in
      let items = items_scored scores records in
      ap (λ l. first_with key (take fact_limit (sort better l)))
        (keep-All (λ h. leb 0 h.score) hits (none_below hits))
      ∙ ap (first_with key) (
          take_all fact_limit (sort better hits)
            (omega (arith, length-sort better hits, length-scored scores records, short)))
      ∙ first_with-keep key (sort better hits)
      ∙ ap head (
          sort_at_most_one better test (λ h. h.item) hits (keep test hits) refl
            (subst AtMostOne (sym items) unique)
          ∙ items)
