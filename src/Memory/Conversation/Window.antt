-- ===== src/Memory/Conversation/Window.antt =====
-- Which turns a prompt window holds.
use eden_os.Prelude.{
  ℕ, ◌+◌, ◌-◌, ◌≤◌, ◌<◌, String, Bool, true, false, not, List, [], ◌∷◌, ◌++◌, ◌≡◌, refl, sym, ap,
  ◌∙◌, ◌⊎◌, inl, inr, arith, ltb, keep, Bool-cases,
}
use mathlib.Core.List.{Perm, append_assoc, append-nil}
use eden_os.Prelude.Sorting.{Sorted, Order, sort-perm}
use eden_os.Prelude.Selection.{sort-Sorted, keep-append}
use eden_os.Memory.Records.{MemoryRecord, estimated_tokens}
use eden_os.Memory.Conversation.{is_system, cost, select, reverse, earlier, window_records}

earlier-Order : Order earlier
earlier-Order = record { total = λ x y h. ground arith; trans = λ x y z h g. ground arith }

abbrev is_turn : MemoryRecord → Bool
is_turn r = not (is_system r)

reverse-append : (xs ys : List MemoryRecord) → reverse (xs ++ ys) ≡ reverse ys ++ reverse xs
reverse-append [] ys = sym (append-nil (reverse ys))
reverse-append (x ∷ xs) ys =
    ap (λ l. l ++ x ∷ []) (reverse-append xs ys) ∙ append_assoc (reverse ys) (reverse xs) (x ∷ [])

reverse-reverse : (xs : List MemoryRecord) → reverse (reverse xs) ≡ xs
reverse-reverse [] = refl
reverse-reverse (x ∷ xs) =
    reverse-append (reverse xs) (x ∷ []) ∙ ap (λ l. x ∷ l) (reverse-reverse xs)

reverse-keep :
    (p : MemoryRecord → Bool) (xs : List MemoryRecord) → keep p (reverse xs) ≡ reverse (keep p xs)
reverse-keep p [] = refl
reverse-keep p (x ∷ xs) =
    keep-append p (reverse xs) (x ∷ [])
    ∙ ap (λ l. l ++ keep p (x ∷ [])) (reverse-keep p xs)
    ∙ last p x xs (Bool-cases (p x))
  where
    last :
        (p : MemoryRecord → Bool) (x : MemoryRecord) (xs : List MemoryRecord)
        → (p x ≡ true) ⊎ (p x ≡ false)
        → reverse (keep p xs) ++ keep p (x ∷ []) ≡ reverse (keep p (x ∷ xs))
    last p x xs (inl e) = rw e refl
    last p x xs (inr e) = rw e (append-nil (reverse (keep p xs)))

module _ (len : String → ℕ) where
  cost-append : (xs ys : List MemoryRecord) → cost len (xs ++ ys) ≡ cost len xs + cost len ys
  cost-append [] ys = omega arith
  cost-append (x ∷ xs) ys = omega (arith, cost-append xs ys)

  cost-reverse : (xs : List MemoryRecord) → cost len (reverse xs) ≡ cost len xs
  cost-reverse [] = refl
  cost-reverse (x ∷ xs) = omega (arith, cost-append (reverse xs) (x ∷ []), cost-reverse xs)

  -- Of the turns, the newest first, the selection is the longest beginning that fits.
  record Longest (remaining : ℕ) (turns selected : List MemoryRecord) : Type 0 where
    left : List MemoryRecord
    split : selected ++ left ≡ turns
    fits : cost len selected ≤ remaining
    most :
        (left ≡ [])
        ⊎ ((t : MemoryRecord) × (rest : List MemoryRecord) × (left ≡ t ∷ rest)
            × (remaining < cost len selected + estimated_tokens len t))

  taken-Longest :
      (remaining : ℕ) (r : MemoryRecord) (turns selected : List MemoryRecord)
      → ltb remaining (estimated_tokens len r) ≡ false
      → Longest (remaining - estimated_tokens len r) turns selected
      → Longest remaining (r ∷ turns) (r ∷ selected)
  taken-Longest remaining r turns selected h l = record {
    left = l.left;
    split = ap (λ x. r ∷ x) l.split;
    fits = ground (arith, l.fits);
    most = elim l.most [
      | inl e ↦ inl e
      | inr (t, rest, e, over) ↦ inr (t, rest, e, ground (arith, over))
    ];
  }

  select-Longest :
      (remaining : ℕ) (rs : List MemoryRecord)
      → Longest remaining (keep is_turn rs) (select len remaining rs)
  unfolding select
  select-Longest remaining [] = record {
    left = [];
    split = refl;
    fits = omega arith;
    most = inl refl;
  }
  select-Longest remaining (r ∷ rs) = elim (Bool-cases (is_system r)) [
    | inl e ↦ rw e (select-Longest remaining rs)
    | inr e ↦ elim (Bool-cases (ltb remaining (estimated_tokens len r))) [
      | inl big ↦
          rw (e, big)
            (record {
              left = r ∷ keep is_turn rs;
              split = refl;
              fits = omega arith;
              most = inr (r, keep is_turn rs, refl, ground arith);
            })
      | inr small ↦
          rw (e, small)
            (taken-Longest remaining r (keep is_turn rs)
              (select len (remaining - estimated_tokens len r) rs) small
              (select-Longest (remaining - estimated_tokens len r) rs))
    ]
  ]

  -- `window` is every system turn and the most recent of the others, in the order of their times:
  -- the recent ones fit in what the system turns leave of the budget, and the next older one does
  -- not fit with them.
  pub record IsWindow (budget : ℕ) (records window : List MemoryRecord) : Type 0 where
    pub dropped : List MemoryRecord
    pub recent : List MemoryRecord
    pub divided : dropped ++ recent ≡ keep (λ r. not (is_system r)) records
    pub holds : Perm window (keep is_system records ++ recent)
    pub ordered : Sorted earlier window
    pub fits : cost len recent ≤ budget - cost len (keep is_system records)
    pub most :
        (dropped ≡ [])
        ⊎ ((older : List MemoryRecord) × (t : MemoryRecord) × (dropped ≡ older ++ t ∷ [])
            × (budget - cost len (keep is_system records)
                < cost len recent + estimated_tokens len t))

  -- For every budget and history the window holds all the system turns and the most recent of the
  -- other turns, in chronological order: those fit in what the system turns leave of the budget,
  -- and they are as many as fit without a gap, since the next older turn would exceed it.
  pub window_records-IsWindow :
      (budget : ℕ) (records : List MemoryRecord)
      → IsWindow budget records (window_records len budget records)
  unfolding window_records
  window_records-IsWindow budget records =
      let instructions = keep is_system records in
      let remaining = budget - cost len instructions in
      let selected = select len remaining (reverse records) in
      let l = select-Longest remaining (reverse records) in
      let all = instructions ++ reverse selected in
      record {
        dropped = reverse l.left;
        recent = reverse selected;
        divided =
            sym (reverse-append selected l.left)
            ∙ ap reverse (l.split ∙ reverse-keep is_turn records)
            ∙ reverse-reverse (keep is_turn records);
        holds = sort-perm earlier all;
        ordered = sort-Sorted earlier earlier-Order all;
        fits = omega (arith, l.fits, cost-reverse selected);
        most = elim l.most [
          | inl e ↦ inl (ap reverse e)
          | inr (t, rest, e, over) ↦
              inr (reverse rest, t, ap reverse e, omega (arith, over, cost-reverse selected))
        ];
      }
