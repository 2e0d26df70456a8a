-- ===== src/Gateway/Routing/Calls.antt =====
-- How many calls of providers `GatewayClient.chat` makes, and what it answers.
use eden_os.Prelude.{
  ℕ, suc, String, true, false, [], ◌∷◌, ◌≡◌, ◌≤◌, ◌<◌, ◌+◌, ◌⊎◌, refl, sym, subst, arith, inl, inr,
  take, length, length-take, min, All, Bool-cases, is_some,
}
use mathlib.Core.List.{Memᴰ}
use eden_os.Prelude.Selection.{All-take}
use eden_os.Errors.{no_provider_available_error}
use eden_os.Effect.{Outcome, ok, eden, crash, Outcome-cases}
use eden_os.Gateway.Health.{CircuitBreakerConfig, Latency, Records}
use eden_os.Gateway.Routing.{
  ChatRequest, ChatResponse, Provider, Fleet, Gateway, decide, limit, State, attempts_from, serve,
  chat, barred, floor,
}
use eden_os.Gateway.Routing.Failover.{attempt-ok, attempt-eden, attempt-crash}
use eden_os.Gateway.Routing.Eligible.{RankLaw, decide-All}

module _ {W Q L X : Type 0} {latency : Latency L} {breaker : CircuitBreakerConfig}
    (gateway : Gateway W Q L X latency breaker) (request : ChatRequest Q) (calls : W → ℕ)
    (fleet : Fleet W Q L X) where
  -- Each call of the provider counts once.
  abbrev pub Counts : Provider W Q L X → Type 0
  Counts p = (v : W) → calls (p.chat request v).1 ≡ suc (calls v)

  -- A provider of the fleet raised this exception.
  abbrev pub Raised : (t m : String) → Type 0
  Raised t m = (p : Provider W Q L X) × (v : W) × Memᴰ p fleet × ((p.chat request v).0 ≡ crash t m)

  abbrev Known : Provider W Q L X → Type 0
  Known p = Memᴰ p fleet × Counts p

  -- What the loop makes of a shortlist, from its attempt of a number on.
  abbrev Looped : (attempt n : ℕ) → (before after : W) → Outcome (ChatResponse L X) → Type 0
  Looped attempt n before after (ok r) =
      (calls before < calls after)
      × (calls after ≤ calls before + n)
      × (calls after + attempt ≡ calls before + r.attempts + 1)
  Looped attempt n before after (eden e) =
      (e.class ≡ no_provider_available_error) × (calls after ≡ calls before + n)
  Looped attempt n before after (crash t m) = (calls after ≤ calls before + n) × Raised t m

  later :
      (attempt n : ℕ) (before next after : W) (o : Outcome (ChatResponse L X))
      → calls next ≡ suc (calls before)
      → Looped (suc attempt) n next after o
      → Looped attempt (suc n) before after o
  later attempt n before next after (ok r) e h =
      (omega (arith, e, h.0), omega (arith, e, h.1), omega (arith, e, h.2))
  later attempt n before next after (eden x) e h = (h.0, omega (arith, e, h.1))
  later attempt n before next after (crash t m) e h = (omega (arith, e, h.0), h.1)

  attempts_from-Looped :
      (attempt : ℕ) (ps : Fleet W Q L X) (records : Records latency breaker) (w : W)
      → All Known ps
      → let r = attempts_from gateway request attempt ps (records, w) in
        Looped attempt (length ps) w r.1.1 r.0
  attempts_from-Looped attempt [] records w h = unfold attempts_from in (refl, omega arith)
  attempts_from-Looped attempt (p ∷ ps) records w h =
      let w' = (p.chat request w).1 in
      let counted = h.0.1 w in
      let Goal : Outcome (ChatResponse L X) × State gateway request → Type 0 =
        λ r. Looped attempt (suc (length ps)) w r.1.1 r.0 in
      elim (Outcome-cases (p.chat request w).0) [
        | inl (r, e) ↦
            subst Goal (sym (attempt-ok gateway request attempt p ps records w r e))
              (omega (arith, counted), omega (arith, counted), omega (arith, counted))
        | inr (inl (x, e)) ↦
            subst Goal (sym (attempt-eden gateway request attempt p ps records w x e)) (
              later attempt (length ps) w w' _ _ counted
                (attempts_from-Looped (suc attempt) ps _ w' h.1))
        | inr (inr (t, m, e)) ↦
            subst Goal (sym (attempt-crash gateway request attempt p ps records w t m e))
              (omega (arith, counted), (p, w, h.0.0, e))
      ]

  -- The calls that an exhausted failover has made.
  abbrev pub Exhausted : (ranked : ℕ) → (before after : W) → Type 0
  Exhausted ranked before after =
      ((gateway.config.failover_enabled ≡ true)
        × (calls after ≡ calls before + min (gateway.config.max_failovers + 1) ranked))
      ⊎ ((gateway.config.failover_enabled ≡ false) × (calls after ≡ calls before + min 1 ranked))

  -- A response carries the number of calls that were made; an `EdenError` is that no provider is
  -- available, after all calls that the configuration allows; any other exception is a provider's.
  abbrev pub Answer : (ranked : ℕ) → (before after : W) → Outcome (ChatResponse L X) → Type 0
  Answer ranked before after (ok r) =
      (calls before < calls after) × (calls after ≡ calls before + r.attempts)
  Answer ranked before after (eden e) =
      (e.class ≡ no_provider_available_error) × Exhausted ranked before after
  Answer ranked before after (crash t m) = Raised t m

  pub record Answered (ranked : ℕ) (before after : W) (o : Outcome (ChatResponse L X))
      : Type 0 where
    pub bounded : calls after ≤ calls before + (gateway.config.max_failovers + 1)
    pub alone : (gateway.config.failover_enabled ≡ true) ⊎ (calls after ≤ calls before + 1)
    pub answer : Answer ranked before after o

  Looped-Answered :
      (n ranked : ℕ) (w v : W) (o : Outcome (ChatResponse L X))
      → n ≡ min (limit gateway request) ranked
      → Looped 1 n w v o
      → Answered ranked w v o
  Looped-Answered n ranked w v (ok r) e h = elim (Bool-cases gateway.config.failover_enabled) [
    | inl f ↦ record {
      bounded = ground (arith, e, h, f);
      alone = inl f;
      answer = (h.0, ground (arith, h.2));
    }
    | inr f ↦ record {
      bounded = ground (arith, e, h, f);
      alone = inr (ground (arith, e, h, f));
      answer = (h.0, ground (arith, h.2));
    }
  ]
  Looped-Answered n ranked w v (eden x) e h = elim (Bool-cases gateway.config.failover_enabled) [
    | inl f ↦ record {
      bounded = ground (arith, e, h, f);
      alone = inl f;
      answer = (h.0, inl (f, ground (arith, e, h, f)));
    }
    | inr f ↦ record {
      bounded = ground (arith, e, h, f);
      alone = inr (ground (arith, e, h, f));
      answer = (h.0, inr (f, ground (arith, e, h, f)));
    }
  ]
  Looped-Answered n ranked w v (crash t m) e h = elim (Bool-cases gateway.config.failover_enabled) [
    | inl f ↦ record { bounded = ground (arith, e, h.0, f); alone = inl f; answer = h.1 }
    | inr f ↦ record {
      bounded = ground (arith, e, h.0, f);
      alone = inr (ground (arith, e, h.0, f));
      answer = h.1;
    }
  ]

  known :
      (ps : Fleet W Q L X)
      → ((p : Provider W Q L X) → Memᴰ p ps → Memᴰ p fleet)
      → All Counts ps
      → All (λ p. (is_some (barred request (floor gateway request) p) ≡ true) ⊎ Known p) ps
  known [] f h = tt
  known (p ∷ ps) f h = (inr (f p (Memᴰ.head refl), h.0), known ps (λ q m. f q (Memᴰ.tail m)) h.1)

  served :
      (ranked : Fleet W Q L X) (records : Records latency breaker) (w : W)
      → All Known ranked
      → let r = serve gateway request ranked (records, w) in Answered (length ranked) w r.1.1 r.0
  served [] records w h = Looped-Answered 0 0 w w _ (omega arith) (refl, omega arith)
  served (p ∷ ps) records w h =
      let n = limit gateway request in
      let made = take n (p ∷ ps) in
      Looped-Answered (length made) (length (p ∷ ps)) w _ _ (length-take n (p ∷ ps))
        (attempts_from-Looped 1 made records w (All-take Known n (p ∷ ps) h))

module _ {W Q L X : Type 0} {latency : Latency L} {breaker : CircuitBreakerConfig}
    (gateway : Gateway W Q L X latency breaker) (request : ChatRequest Q) (calls : W → ℕ) where
  -- What `chat` does, if `calls` counts the calls of the providers of the fleet, one for each, and
  -- the strategy ranks candidates only. It makes at most `max_failovers + 1` calls, and at most one
  -- if failover is off. A response that it returns carries, as its `attempts`, the number of calls
  -- that it made, at least one. An `EdenError` is a `NoProviderAvailableError`, never that of
  -- a provider, and comes after exactly `max_failovers + 1` calls, or 1 if failover is off, or as
  -- many as the decision ranks providers if these are fewer. Any other exception is one that a
  -- provider of the fleet raised.
  pub chat-Answered :
      (fleet : Fleet W Q L X) (records : Records latency breaker) (w : W)
      → RankLaw gateway request
      → All (Counts gateway request calls fleet) fleet
      → let r = chat gateway request fleet (records, w) in
        let ranked = (decide gateway request fleet (gateway.monotonic w) records).0 in
        Answered gateway request calls fleet (length ranked) w r.1.1 r.0
  unfolding chat
  chat-Answered fleet records w ranks counts =
      let now = gateway.monotonic w in
      let (ranked, records₁) = decide gateway request fleet now records in
      served gateway request calls fleet ranked records₁ w (
        decide-All gateway request (Known gateway request calls fleet) fleet now records ranks
          (known gateway request calls fleet fleet (λ p m. m) counts))
