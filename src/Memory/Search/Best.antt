-- ===== src/Memory/Search/Best.antt =====
-- What a search returns.
use eden_os.Prelude.{
  ℕ, ◌≤◌, ◌<◌, String, Bool, true, false, Option, none, some, List, [], ◌∷◌, ◌++◌, ◌≡◌, refl, sym,
  ap, subst, ◌⊎◌, inl, inr, arith, leb, length, map, min, any, take, drop, keep, All, Bool-cases,
  take-append-drop, zero, suc,
}
use mathlib.Core.List.{Perm}
use eden_os.Prelude.Dict
use eden_os.Prelude.Dict.{Dict}
use eden_os.Prelude.Text.{contains}
use eden_os.Prelude.Sorting.{sort, Sorted, Order, sort-perm}
use eden_os.Prelude.Selection.{sort-Sorted, Sorted-cut, Sorted-take, All-map}
use eden_os.Enums.{MemoryKind, same_memory_kind}
use eden_os.Memory.Records.{one, MemoryRecord, MemoryQuery, SearchHit, matches_kind}
use eden_os.Memory.Search.{
  includes, recent_enough, passes_filters, blend, score_of, score_all, better, search,
}

-- What a query asks of a record: its kind, every tag, and its age.
pub record Meets (q : MemoryQuery) (r : MemoryRecord) : Type 0 where
  pub of_kind : (q.kinds ≡ []) ⊎ (any (same_memory_kind r.kind) q.kinds ≡ true)
  pub tagged : All (λ t. contains r.tags t ≡ true) q.tags
  pub recent : (since : ℕ) → q.since ≡ some since → since ≤ r.created_at

-- The records of a list that `P` holds of, in their order, and each as often as it is there.
pub data Sifted (P : MemoryRecord → Type 0) : List MemoryRecord → List MemoryRecord → Type 0 where
  done : Sifted P [] []
  chosen :
      {r : MemoryRecord} {rs out : List MemoryRecord}
      → P r
      → Sifted P rs out
      → Sifted P (r ∷ rs) (r ∷ out)
  passed_over :
      {r : MemoryRecord} {rs out : List MemoryRecord}
      → (P r → ⊥)
      → Sifted P rs out
      → Sifted P (r ∷ rs) out

-- The higher score, and of equal scores the later record, is ahead.
abbrev pub Ahead : SearchHit → SearchHit → Type 0
Ahead a b = (b.score < a.score) ⊎ ((a.score ≡ b.score) × (b.item.created_at ≤ a.item.created_at))

abbrev pub Ranked : List SearchHit → Type 0
Ranked [] = Unit
Ranked (h ∷ hs) = All (Ahead h) hs × Ranked hs

better-Order : Order better
better-Order = record { total = λ x y h. ground arith; trans = λ x y z h g. ground arith }

better-Ahead : (a b : SearchHit) → better a b ≡ true → Ahead a b
better-Ahead a b h = ground arith

Sorted-Ranked : (hs : List SearchHit) → Sorted better hs → Ranked hs
Sorted-Ranked [] s = tt
Sorted-Ranked (h ∷ hs) s =
    (All-map (λ o. better h o ≡ true) (Ahead h) (better-Ahead h) hs s.0, Sorted-Ranked hs s.1)

cut-Ahead :
    (found others : List SearchHit)
    → All (λ h. All (λ o. better h o ≡ true) others) found
    → All (λ h. All (Ahead h) others) found
cut-Ahead found others =
    All-map (λ h. All (λ o. better h o ≡ true) others) (λ h. All (Ahead h) others)
      (λ h. All-map (λ o. better h o ≡ true) (Ahead h) (better-Ahead h) others) found

drop_nothing : (n : ℕ) (xs : List SearchHit) → (drop n xs ≡ []) ⊎ (length (take n xs) ≡ n)
drop_nothing zero xs = inr refl
drop_nothing (suc n) [] = inl refl
drop_nothing (suc n) (x ∷ xs) = elim (drop_nothing n xs) [ inl e ↦ inl e | inr e ↦ inr (ap suc e) ]

includes-All :
    (have wanted : List String)
    → includes have wanted ≡ true
    → All (λ t. contains have t ≡ true) wanted
includes-All have [] h = tt
includes-All have (t ∷ ts) h =
    let ih = includes-All have ts in (ground (arith, h), ih (ground (arith, h)))

All-includes :
    (have wanted : List String)
    → All (λ t. contains have t ≡ true) wanted
    → includes have wanted ≡ true
All-includes have [] h = refl
All-includes have (t ∷ ts) h = let ih = All-includes have ts h.1 in ground (arith, h.0, ih)

module _ (q : MemoryQuery) (r : MemoryRecord) where
  asked_kind :
      matches_kind q r.kind ≡ true → (q.kinds ≡ []) ⊎ (any (same_memory_kind r.kind) q.kinds ≡ true)
  unfolding matches_kind
  asked_kind h = ground (arith, h)

  recent_since :
      recent_enough q.since r.created_at ≡ true
      → (since : ℕ) → q.since ≡ some since
      → since ≤ r.created_at
  recent_since h since e = ground (arith, h, e)

  passes-Meets : passes_filters q r ≡ true → Meets q r
  unfolding passes_filters
  passes-Meets h = record {
    of_kind = asked_kind (ground (arith, h));
    tagged = includes-All r.tags q.tags (ground (arith, h));
    recent = recent_since (ground (arith, h));
  }

  since_recent :
      (given : Option ℕ)
      → ((since : ℕ) → given ≡ some since → since ≤ r.created_at)
      → recent_enough given r.created_at ≡ true
  since_recent none h = refl
  since_recent (some since) h = let le = h since refl in ground (arith, le)

  Meets-passes : Meets q r → passes_filters q r ≡ true
  unfolding passes_filters matches_kind
  Meets-passes m =
      let tags = All-includes r.tags q.tags m.tagged in
      let since = since_recent q.since m.recent in
      let kind = m.of_kind in ground (arith, tags, kind, since)

module _ (decay : ℕ → ℕ) (name : String) (q : MemoryQuery) (now : ℕ) (relevance : Dict ℕ) where
  -- The score of a record: the blend of its relevance, which is 0 for a record that has none, and
  -- at most 1.
  abbrev pub worth : MemoryRecord → ℕ
  worth r = min one (blend decay (score_of (Dict.get r.id relevance)) r now)

  abbrev pub hit : MemoryRecord → SearchHit
  hit r = record { item = r; score = worth r; store = name }

  -- What the query asks for, with a score that reaches its minimum.
  abbrev pub IsEligible : MemoryRecord → Type 0
  IsEligible r = Meets q r × (q.min_score ≤ worth r)

  -- `found` is the best of the candidates that are eligible, `limit` of them if there are so many:
  -- with their scores, in order, and ahead of every other eligible candidate.
  pub record IsBest (candidates : List MemoryRecord) (found : List SearchHit) : Type 0 where
    pub eligible : List MemoryRecord
    pub others : List SearchHit
    pub sifted : Sifted IsEligible candidates eligible
    pub divided : Perm (found ++ others) (map hit eligible)
    pub ranked : Ranked found
    pub ahead : All (λ h. All (Ahead h) others) found
    pub enough : (others ≡ []) ⊎ (length found ≡ q.limit)

  -- The hits that reach the minimal score are those of the eligible candidates.
  record AreHits (candidates : List MemoryRecord) (hits : List SearchHit) : Type 0 where
    eligible : List MemoryRecord
    sifted : Sifted IsEligible candidates eligible
    same : hits ≡ map hit eligible

  abbrev floor : SearchHit → Bool
  floor h = leb q.min_score h.score

  below : (r : MemoryRecord) → passes_filters q r ≡ false → IsEligible r → ⊥
  below r e m = let p = Meets-passes q r m.0 in ground (arith, p, e)

  too_low : (r : MemoryRecord) → floor (hit r) ≡ false → IsEligible r → ⊥
  too_low r e m = ground (arith, e, m.1)

  reaches : (r : MemoryRecord) → floor (hit r) ≡ true → q.min_score ≤ worth r
  reaches r e = ground (arith, e)

  score_all-AreHits :
      (candidates : List MemoryRecord)
      → AreHits candidates (keep floor (score_all decay name relevance q now candidates))
  unfolding score_all
  score_all-AreHits [] = record { eligible = []; sifted = done; same = refl }
  score_all-AreHits (r ∷ rs) =
      let rest = score_all-AreHits rs in
      elim (Bool-cases (passes_filters q r)) [
        | inr e ↦ rw e (record {
          eligible = rest.eligible;
          sifted = passed_over (below r e) rest.sifted;
          same = rest.same;
        })
        | inl e ↦ elim (Bool-cases (floor (hit r))) [
          | inr f ↦
              rw (e, f)
                (record {
                  eligible = rest.eligible;
                  sifted = passed_over (too_low r f) rest.sifted;
                  same = rest.same;
                })
          | inl f ↦
              rw (e, f)
                (record {
                  eligible = r ∷ rest.eligible;
                  sifted = chosen (passes-Meets q r e, reaches r f) rest.sifted;
                  same = ap (λ l. hit r ∷ l) rest.same;
                })
        ]
      ]

  top-IsBest :
      (candidates : List MemoryRecord) (hits : List SearchHit)
      → AreHits candidates hits
      → IsBest candidates (take q.limit (sort better hits))
  top-IsBest candidates hits are =
      let sorted = sort better hits in
      let s = sort-Sorted better better-Order hits in
      record {
        eligible = are.eligible;
        others = drop q.limit sorted;
        sifted = are.sifted;
        divided = subst (Perm (take q.limit sorted ++ drop q.limit sorted)) are.same (
            subst (λ l. Perm l hits) (sym (take-append-drop q.limit sorted))
              (sort-perm better hits));
        ranked = Sorted-Ranked (take q.limit sorted) (Sorted-take better q.limit sorted s);
        ahead =
            cut-Ahead (take q.limit sorted) (drop q.limit sorted)
              (Sorted-cut better q.limit sorted s);
        enough = drop_nothing q.limit sorted;
      }

module _ (decay : ℕ → ℕ) (name : String) (q : MemoryQuery) (now : ℕ) where
  -- A store that the query asks for returns the best of the records it has loaded. Those count that
  -- are of a kind the query asks for, have all of its tags, are not older than its `since`, and
  -- whose score reaches its minimum; each is returned with its score, with the higher score before
  -- the lower and of equal scores the later record first. Any of them that is not returned comes
  -- after all that are in this order, and then there are as many as the limit allows.
  pub search-IsBest :
      (kind : MemoryKind) (relevance : List MemoryRecord → Dict ℕ) (candidates : List MemoryRecord)
      → matches_kind q kind ≡ true
      → IsBest decay name q now
          (relevance candidates)
          candidates
          (search decay name kind relevance q now candidates)
  unfolding search
  search-IsBest kind relevance candidates asked = rw asked (
      top-IsBest decay name q now (relevance candidates) candidates _
        (score_all-AreHits decay name q now (relevance candidates) candidates))
