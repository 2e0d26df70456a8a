-- ===== src/Memory/Search.antt =====
-- src/eden/memory/base.py: how every store searches the records that it has loaded. `words` is
-- the word set of a text, `frozenset(text.lower().split())`, and `decay` is `math.pow` at the age
-- in half-lives, in millionths.
pub mod Best
use eden_os.Prelude.{
  ℕ, ◌+◌, ◌-◌, ◌*◌, ◌/◌, String, Bool, true, false, not, ◌&&◌, ◌||◌, Option, none, some, List, [],
  ◌∷◌, map, ltb, leb, ◌==◌, take, keep, if◌then◌else◌, str_eq,
}
use eden_os.Prelude.Dict
use eden_os.Prelude.Dict.{Dict}
use eden_os.Prelude.Text.{contains}
use eden_os.Prelude.Sorting.{sort}
use eden_os.Enums.{MemoryKind}
use eden_os.Memory.Records.{
  one, MemoryRecord, MemoryQuery, SearchHit, search_hit, matches_kind, keyword_score, age,
}

-- `RECENCY_WEIGHT`
abbrev pub recency_weight : ℕ
recency_weight = 200000

-- `query.tags <= record.tags`; empty tags are a part of any.
abbrev pub includes : (have wanted : List String) → Bool
includes have [] = true
includes have (t ∷ ts) = contains have t && includes have ts

abbrev pub recent_enough : Option ℕ → ℕ → Bool
recent_enough none created_at = true
recent_enough (some since) created_at = not (ltb created_at since)

-- `_passes_filters`
unfoldable pub passes_filters : MemoryQuery → MemoryRecord → Bool
unfolding matches_kind
passes_filters q r =
    matches_kind q r.kind && includes r.tags q.tags && recent_enough q.since r.created_at

module _ (decay : ℕ → ℕ) where
  -- `_blend`
  unfoldable pub blend : (relevance : ℕ) → MemoryRecord → (now : ℕ) → ℕ
  blend relevance r now =
      if leb relevance 0
      then 0
      else let blended =
          ((one - recency_weight) * relevance + recency_weight * decay (age now r)) / one in
        blended * (one + r.importance) / (2 * one)

module _ (words : String → List String) where
  -- the comprehension of `_relevance`: a later record with the same identifier overrides.
  abbrev scores : (query_tokens : List String) → List MemoryRecord → Dict ℕ → Dict ℕ
  scores query_tokens [] found = found
  scores query_tokens (r ∷ rs) found =
      scores query_tokens rs (Dict.put r.id (keyword_score query_tokens (words r.content)) found)

  -- `_relevance`
  unfoldable pub relevance : MemoryQuery → List MemoryRecord → Dict ℕ
  relevance q candidates = scores (words q.text) candidates []

-- `relevance.get(record.id, 0.0)`
abbrev pub score_of : Option ℕ → ℕ
score_of none = 0
score_of (some score) = score

module _ (decay : ℕ → ℕ) (name : String) where
  -- the loop of `_score_all`
  unfoldable pub score_all :
      (scores : Dict ℕ) → MemoryQuery → (now : ℕ) → List MemoryRecord → List SearchHit
  unfolding passes_filters blend
  score_all scores q now [] = []
  score_all scores q now (r ∷ rs) =
      let rest = score_all scores q now rs in
      if passes_filters q r
      then search_hit r (blend decay (score_of (Dict.get r.id scores)) r now) name ∷ rest
      else rest

-- The order of the key `(-hit.score, -hit.record.created_at.timestamp())`.
abbrev pub better : SearchHit → SearchHit → Bool
better a b = ltb b.score a.score || (a.score == b.score && leb b.item.created_at a.item.created_at)

-- `search`, given the records that `_load` returns and the relevance of each.
unfoldable pub search :
    (decay : ℕ → ℕ) (name : String) (kind : MemoryKind) (relevance : List MemoryRecord → Dict ℕ)
    → MemoryQuery
    → (now : ℕ) → List MemoryRecord
    → List SearchHit
unfolding score_all matches_kind
search decay name kind relevance q now candidates =
    if not (matches_kind q kind)
    then []
    else let scored = score_all decay name (relevance candidates) q now candidates in
      take q.limit (sort better (keep (λ h. leb q.min_score h.score) scored))
