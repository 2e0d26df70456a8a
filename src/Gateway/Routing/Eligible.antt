-- ===== src/Gateway/Routing/Eligible.antt =====
-- Which providers a decision of the router ranks, and so which ones `chat` may call.
use eden_os.Prelude.{
  ℕ, true, Option, none, some, [], ◌∷◌, ◌++◌, ◌≡◌, ◌≤◌, ◌⊎◌, refl, sym, ap, ◌∙◌, arith, All,
  All-append, Option-cases, inl, inr, is_some, take, suc, subst,
}
use eden_os.Prelude.Selection.{All-take}
use eden_os.Prelude.Dict
use eden_os.Prelude.Dict.{Dict}
use eden_os.Effect.{Outcome-cases}
use eden_os.Gateway.Routing.Failover.{attempt-ok, attempt-eden, attempt-crash}
use eden_os.Gateway.Health.{CircuitBreakerConfig, Latency, Records}
use eden_os.Gateway.Routing.{
  tier_rank, ChatRequest, Provider, Reason, Fleet, Gateway, missing, barred, exclusion_reason, sift,
  floor, decide, limit, attempts_from, serve, chat,
}

-- A provider that may serve a request: it is enabled, as private as both floors ask, and offers every
-- required capability and the model.
pub record IsEligible {W Q L X : Type 0} {latency : Latency L} {breaker : CircuitBreakerConfig}
    (gateway : Gateway W Q L X latency breaker) (request : ChatRequest Q) (p : Provider W Q L X)
    : Type 0 where
  pub enabled : p.enabled ≡ true
  pub private : tier_rank (floor gateway request) ≤ tier_rank p.privacy_tier
  pub global : tier_rank gateway.config.minimum_privacy_tier ≤ tier_rank p.privacy_tier
  pub capable : missing request p ≡ []
  pub supported : p.supports request ≡ true

module _ {W Q L X : Type 0} {latency : Latency L} {breaker : CircuitBreakerConfig}
    (gateway : Gateway W Q L X latency breaker) (request : ChatRequest Q) where
  abbrev Clear : Provider W Q L X → Type 0
  Clear p = barred request (floor gateway request) p ≡ none

  Clear-IsEligible : (p : Provider W Q L X) → Clear p → IsEligible gateway request p
  unfolding barred
  Clear-IsEligible p h = record {
    enabled = ground arith;
    private = ground arith;
    global = ground arith;
    capable = ground arith;
    supported = ground arith;
  }

  unbarred :
      (now : ℕ) (p : Provider W Q L X) (records : Records latency breaker)
      → (exclusion_reason latency breaker request (floor gateway request) now p records).0 ≡ none
      → Clear p
  unfolding exclusion_reason
  unbarred now p records h = ground arith

  module _ (now : ℕ) (p : Provider W Q L X) (ps eligible : Fleet W Q L X) (excluded : Dict Reason)
      (records : Records latency breaker) where
    abbrev asked : Option Reason × Records latency breaker
    asked = exclusion_reason latency breaker request (floor gateway request) now p records

    abbrev sifted :
        Fleet W Q L X
        → Fleet W Q L X
        → Dict Reason
        → Records latency breaker
        → (Fleet W Q L X × Dict Reason) × Records latency breaker
    sifted rest sorted out rs =
        sift latency breaker request (floor gateway request) now rest sorted out rs

    sift-in :
        asked.0 ≡ none
        → sifted (p ∷ ps) eligible excluded records
          ≡ sifted ps (eligible ++ p ∷ []) excluded asked.1
    unfolding sift
    sift-in h = ground arith

    sift-out :
        (r : Reason)
        → asked.0 ≡ some r
        → sifted (p ∷ ps) eligible excluded records
          ≡ sifted ps eligible (Dict.put p.name r excluded) asked.1
    unfolding sift
    sift-out r h = ground arith

  -- What holds of the providers that are not barred holds of all that are sorted in.
  sift-All :
      (P : Provider W Q L X → Type 0) (now : ℕ) (ps eligible : Fleet W Q L X)
      (excluded : Dict Reason) (records : Records latency breaker)
      → All (λ p. (is_some (barred request (floor gateway request) p) ≡ true) ⊎ P p) ps
      → All P eligible
      → All P
          (sift latency breaker request
            (floor gateway request)
            now
            ps
            eligible
            excluded
            records).0.0
  sift-All P now [] eligible excluded records h good = unfold sift in good
  sift-All P now (p ∷ ps) eligible excluded records h good =
      let (reason, records₁) =
        exclusion_reason latency breaker request (floor gateway request) now p records in
      elim (Option-cases reason) [
        | inr (r, e) ↦
            subst (λ (o : (Fleet W Q L X × Dict Reason) × Records latency breaker). All P o.0.0)
              (sym (sift-out now p ps eligible excluded records r e))
              (sift-All P now ps eligible (Dict.put p.name r excluded) records₁ h.1 good)
        | inl e ↦
            let held : P p = elim h.0 [
              | inl b ↦ absurd (ground (arith, unbarred now p records e))
              | inr held ↦ held
            ] in
            subst (λ (o : (Fleet W Q L X × Dict Reason) × Records latency breaker). All P o.0.0)
              (sym (sift-in now p ps eligible excluded records e))
              (sift-All P now ps (eligible ++ p ∷ []) excluded records₁ h.1
                (All-append P eligible (p ∷ []) good (held, tt)))
      ]

  abbrev pub RankLaw : Type 1
  RankLaw =
      (P : Provider W Q L X → Type 0) (candidates : Fleet W Q L X)
      (records : Records latency breaker)
      → All P candidates
      → All P (gateway.rank request candidates records).0

  pub decide-All :
      (P : Provider W Q L X → Type 0) (ps : Fleet W Q L X) (now : ℕ)
      (records : Records latency breaker)
      → RankLaw
      → All (λ p. (is_some (barred request (floor gateway request) p) ≡ true) ⊎ P p) ps
      → All P (decide gateway request ps now records).0
  unfolding decide
  decide-All P ps now records ranks h =
      let ((eligible, excluded), records₁) =
        sift latency breaker request (floor gateway request) now ps [] [] records in
      ranks P eligible records₁ (sift-All P now ps [] [] records h tt)

  IsEligible-any :
      (ps : Fleet W Q L X)
      → All
          (λ p.
            (is_some (barred request (floor gateway request) p) ≡ true)
            ⊎ IsEligible gateway request p)
          ps
  IsEligible-any [] = tt
  IsEligible-any (p ∷ ps) = (
    elim (Option-cases (barred request (floor gateway request) p)) [
      | inl e ↦ inr (Clear-IsEligible p e)
      | inr (r, e) ↦ inl (ap is_some e)
    ],
    IsEligible-any ps,
  )

  -- Every provider that a decision ranks may serve the request, whatever the fleet and the health
  -- records are: it is enabled, its privacy tier is at least the router's and the request's floor, it
  -- lacks no required capability and it supports the model. The strategy ranks candidates only.
  pub decide-IsEligible :
      (ps : Fleet W Q L X) (now : ℕ) (records : Records latency breaker)
      → RankLaw
      → All (IsEligible gateway request) (decide gateway request ps now records).0
  decide-IsEligible ps now records ranks =
      decide-All (IsEligible gateway request) ps now records ranks (IsEligible-any ps)

  module _ {D : Type 0} (obs : W → D) where
    -- A call of the provider leaves `obs` as it is.
    abbrev pub Spares : Provider W Q L X → Type 0
    Spares p = (w : W) → obs (p.chat request w).1 ≡ obs w

    spared :
        (attempt : ℕ) (ps : Fleet W Q L X) (records : Records latency breaker) (w : W)
        → All Spares ps
        → obs (attempts_from gateway request attempt ps (records, w)).1.1 ≡ obs w
    spared attempt [] records w h = unfold attempts_from in refl
    spared attempt (p ∷ ps) records w h =
        let w' = (p.chat request w).1 in
        elim (Outcome-cases (p.chat request w).0) [
          | inl (r, e) ↦
              ap (λ o. obs o.1.1) (attempt-ok gateway request attempt p ps records w r e) ∙ h.0 w
          | inr (inl (x, e)) ↦
              ap (λ o. obs o.1.1) (attempt-eden gateway request attempt p ps records w x e)
              ∙ spared (suc attempt) ps _ w' h.1
              ∙ h.0 w
          | inr (inr (t, m, e)) ↦
              ap (λ o. obs o.1.1) (attempt-crash gateway request attempt p ps records w t m e)
              ∙ h.0 w
        ]

    served :
        (ps : Fleet W Q L X) (records : Records latency breaker) (w : W)
        → All Spares ps
        → obs (serve gateway request ps (records, w)).1.1 ≡ obs w
    served [] records w h = refl
    served (p ∷ ps) records w h =
        spared 1 (take (limit gateway request) (p ∷ ps)) records w
          (All-take Spares (limit gateway request) (p ∷ ps) h)

    -- A request never reaches a provider that is barred from it. Let `obs` be any view of the world
    -- that is left as it is by the calls of the providers which are enabled, meet the privacy floor,
    -- and offer the capabilities and the model. Then `chat` leaves it as it is, failovers included,
    -- if the strategy ranks candidates only.
    pub chat_confined :
        (ps : Fleet W Q L X) (records : Records latency breaker) (w : W)
        → RankLaw
        → All (λ p. (is_some (barred request (floor gateway request) p) ≡ true) ⊎ Spares p) ps
        → obs (chat gateway request ps (records, w)).1.1 ≡ obs w
    unfolding chat
    chat_confined ps records w ranks h =
        let (ranked, records₁) = decide gateway request ps (gateway.monotonic w) records in
        served ranked records₁ w (decide-All Spares ps (gateway.monotonic w) records ranks h)
