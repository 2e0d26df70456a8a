-- ===== src/Memory/Facts/Replaced.antt =====
-- What `remember_fact` leaves of the facts of a project.
use eden_os.Prelude.{
  suc, ◌≤◌, String, Bool, true, false, not, ◌&&◌, Option, none, some, List, [], ◌∷◌, ◌++◌, length,
  keep, length-keep-le, ◌≡◌, refl, sym, ap, ◌∙◌, subst, inl, inr, arith, Bool-cases, All, All-keep,
  All-keep_sub, str_eq, eq_iff, ◌==◌,
}
use eden_os.Prelude.Dict
use eden_os.Prelude.Dict.{get-put_same}
use eden_os.Prelude.Text.{contains}
use eden_os.Prelude.Selection.{keep-All}
use eden_os.Memory.Records.{MemoryRecord, one}
use eden_os.Memory.ShortTerm.{Buffers, or_empty, without}
use eden_os.Memory.Repository.InMemory
use eden_os.Memory.Facts.{forgotten, same_key}
use eden_os.Memory.Facts.Found.{is_fact, head, AtMostOne}

keep_same :
    {A : Type 0} (p : A → Bool) (xs : List A) → length (keep p xs) ≡ length xs → keep p xs ≡ xs
keep_same p [] h = refl
keep_same p (x ∷ xs) h = elim (Bool-cases (p x)) [
  | inl e ↦ rw e (
      ap (λ l. x ∷ l)
        (keep_same p xs
          (let g : suc (length (keep p xs)) ≡ suc (length xs) = rw e at h in omega (arith, g))))
  | inr e ↦ absurd (
      let g : length (keep p xs) ≡ suc (length xs) = rw e at h in
      omega (arith, g, length-keep-le p xs))
]

read-remove :
    (id namespace : String) (store : Buffers)
    → InMemory.read namespace (InMemory.remove id namespace store).1
      ≡ without id (InMemory.read namespace store)
unfolding InMemory.read InMemory.remove
read-remove id namespace store =
    let records = or_empty (Dict.get namespace store) in
    elim (Bool-cases (length (without id records) == length records)) [
      | inl e ↦ rw e (sym (keep_same (λ r. not (str_eq r.id id)) records (ground (arith, e))))
      | inr e ↦ rw e (ap or_empty (get-put_same namespace (without id records) store))
    ]

pub read-append :
    (r : MemoryRecord) (store : Buffers)
    → InMemory.read r.namespace (InMemory.append r store)
      ≡ InMemory.read r.namespace store ++ r ∷ []
unfolding InMemory.read InMemory.append
read-append r store =
    ap or_empty (get-put_same r.namespace (or_empty (Dict.get r.namespace store) ++ r ∷ []) store)

module _ {A : Type 0} (p q : A → Bool) where
  keep_swap : (xs : List A) → keep p (keep q xs) ≡ keep q (keep p xs)
  keep_swap [] = refl
  keep_swap (x ∷ xs) = ground (arith, keep_swap xs)

-- Identifiers tell the records of a list apart.
abbrev pub Identified : List MemoryRecord → Type 0
Identified records = All (λ s. All (λ r. str_eq s.id r.id ≡ true → s ≡ r) records) records

-- Two keys have no record in common.
is_fact_unique : (j k : String) (r : MemoryRecord) → is_fact j r ≡ true → is_fact k r ≡ true → j ≡ k
is_fact_unique j k r h g = go (Dict.get "fact_key" r.metadata) h g
  where
    go :
        (o : Option String)
        → (contains r.tags "fact" && same_key o j) ≡ true
        → (contains r.tags "fact" && same_key o k) ≡ true
        → j ≡ k
    go none h g = absurd (ground (arith, h))
    go (some i) h g = ground (arith, h, g, eq_iff i j, eq_iff i k, eq_iff j k)

-- The records without those of a key.
pub record IsCleared (key : String) (before after : List MemoryRecord) : Type 0 where
  pub cleared : keep (is_fact key) after ≡ []
  pub others :
      (k : String) → str_eq k key ≡ false → keep (is_fact k) after ≡ keep (is_fact k) before
  pub no_longer : length after ≤ length before

module _ (key : String) (records : List MemoryRecord) (r : MemoryRecord)
    (holder : keep (is_fact key) records ≡ r ∷ []) where
  apart :
      (k : String) (l : List MemoryRecord)
      → str_eq k key ≡ false
      → All (λ s. is_fact k s ≡ true) l
      → All (λ s. All (λ t. str_eq s.id t.id ≡ true → s ≡ t) records) l
      → All (λ s. not (str_eq s.id r.id) ≡ true) l
  apart k [] other facts ids = tt
  apart k (s ∷ l) other facts ids = (here, apart k l other facts.1 ids.1)
    where
      own : All (λ t. is_fact key t ≡ true) (r ∷ [])
      own = subst (All (λ t. is_fact key t ≡ true)) holder (All-keep (is_fact key) records)

      told : All (λ t. str_eq s.id t.id ≡ true → s ≡ t) (r ∷ [])
      told =
          subst (All (λ t. str_eq s.id t.id ≡ true → s ≡ t)) holder
            (All-keep_sub (λ t. str_eq s.id t.id ≡ true → s ≡ t) (is_fact key) records ids.0)

      here : not (str_eq s.id r.id) ≡ true
      here = elim (Bool-cases (str_eq s.id r.id)) [
        | inl e ↦
            let same : k ≡ key =
              is_fact_unique k key r (subst (λ x. is_fact k x ≡ true) (told.0 e) facts.0) own.0 in
            absurd (ground (arith, eq_iff k key, same, other))
        | inr e ↦ rw e refl
      ]

  without-IsCleared : Identified records → IsCleared key records (without r.id records)
  without-IsCleared ids = record {
    cleared =
        keep_swap (is_fact key) (λ s. not (str_eq s.id r.id)) records
        ∙ ap (keep (λ s. not (str_eq s.id r.id))) holder
        ∙ ground (arith, eq_iff r.id r.id);
    others = λ k other.
        keep_swap (is_fact k) (λ s. not (str_eq s.id r.id)) records
        ∙ keep-All (λ s. not (str_eq s.id r.id)) (keep (is_fact k) records)
            (apart k (keep (is_fact k) records) other (All-keep (is_fact k) records) (
              All-keep_sub (λ s. All (λ t. str_eq s.id t.id ≡ true → s ≡ t) records) (is_fact k)
                records ids));
    no_longer = length-keep-le (λ s. not (str_eq s.id r.id)) records;
  }

pub forgotten-IsCleared :
    (key namespace : String) (store : Buffers) (l : List MemoryRecord)
    → keep (is_fact key) (InMemory.read namespace store) ≡ l
    → AtMostOne l
    → Identified (InMemory.read namespace store)
    → IsCleared key
        (InMemory.read namespace store)
        (InMemory.read namespace (forgotten (head l) namespace store))
forgotten-IsCleared key namespace store [] e one ids = record {
  cleared = e;
  others = λ k h. refl;
  no_longer = omega arith;
}
forgotten-IsCleared key namespace store (r ∷ []) e one ids =
    subst (IsCleared key (InMemory.read namespace store)) (sym (read-remove r.id namespace store))
      (without-IsCleared key (InMemory.read namespace store) r e ids)
forgotten-IsCleared key namespace store (r ∷ s ∷ l) e one ids = absurd (omega (arith, one))
