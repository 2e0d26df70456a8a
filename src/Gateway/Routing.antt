-- ===== src/Gateway/Routing.antt =====
-- src/eden/gateway/router/omni_router.py and `GatewayClient.chat` of src/eden/gateway/client.py: which
-- providers may serve a request, and how the client fails over among them. A provider is what the
-- base class of src/eden/gateway/provider.py offers; a strategy ranks the candidates.
pub mod Failover
pub mod Calls
pub mod Eligible
use eden_os.Prelude.{
  ℕ, suc, String, Bool, true, false, Option, none, some, List, [], ◌∷◌, ◌+◌, keep, map, take, not,
  ltb, ◌++◌, if◌then◌else◌,
}
use eden_os.Prelude.Dict
use eden_os.Prelude.Dict.{Dict}
use eden_os.Prelude.Text.{contains}
use eden_os.Errors.{EdenError, code, no_provider_available_error}
use eden_os.Effect.{Outcome, ok, eden, crash, Eff}
use eden_os.Gateway.Health.{
  CircuitBreakerConfig, Latency, Records, is_available, observe_success, observe_failure,
}

pub data PrivacyTier : Type 0 where
  public_cloud private_cloud on_premise local_only : PrivacyTier

abbrev pub tier_rank : PrivacyTier → ℕ
tier_rank public_cloud = 0
tier_rank private_cloud = 1
tier_rank on_premise = 2
tier_rank local_only = 3

-- `max` of two tiers.
abbrev pub stricter : PrivacyTier → PrivacyTier → PrivacyTier
stricter a b = if ltb (tier_rank a) (tier_rank b) then b else a

-- What the router reads of a request, and the rest of it. A capability is its value.
pub record ChatRequest (Q : Type 0) : Type 0 where
  pub required_capabilities : List String
  pub minimum_privacy_tier : Option PrivacyTier
  pub rest : Q

-- What the client reads of a response, and the rest of it.
pub record ChatResponse (L X : Type 0) : Type 0 where
  pub latency_ms : L
  pub attempts : ℕ
  pub rest : X

pub record Provider (W Q L X : Type 0) : Type 0 where
  pub name : String
  pub enabled : Bool
  pub privacy_tier : PrivacyTier
  pub capabilities : List String
  pub supports : ChatRequest Q → Bool
  pub chat : ChatRequest Q → Eff W (ChatResponse L X)

-- Why a provider cannot serve a request.
pub data Reason : Type 0 where
  disabled privacy_tier_below_floor model_unavailable circuit_open : Reason
  missing_capabilities : List String → Reason

-- `RouterConfig`, less the strategy and its weights.
pub record RouterConfig : Type 0 where
  pub minimum_privacy_tier : PrivacyTier
  pub failover_enabled : Bool
  pub max_failovers : ℕ

-- The reasons that the capabilities and the model give, in the order of `_exclusion_reason`.
abbrev lacking : List String → Bool → Option Reason
lacking [] supported = if supported then none else some model_unavailable
lacking (c ∷ cs) supported = some (missing_capabilities (c ∷ cs))

-- `_effective_floor`
abbrev pub floor_of : PrivacyTier → Option PrivacyTier → PrivacyTier
floor_of tier none = tier
floor_of tier (some asked) = stricter tier asked

abbrev pub Fleet : (W Q L X : Type 0) → Type 0
Fleet W Q L X = List (Provider W Q L X)

module _ {W Q L X : Type 0} where
  abbrev pub missing : ChatRequest Q → Provider W Q L X → List String
  missing request p = keep (λ c. not (contains p.capabilities c)) request.required_capabilities

  -- The reasons of `_exclusion_reason` that do not depend on health, in its order.
  unfoldable pub barred : ChatRequest Q → PrivacyTier → Provider W Q L X → Option Reason
  barred request floor p =
      if not p.enabled
      then some disabled
      else if ltb (tier_rank p.privacy_tier) (tier_rank floor)
      then some privacy_tier_below_floor
      else lacking (missing request p) (p.supports request)

-- What the client is given: the configuration, the strategy and the clock.
pub record Gateway (W Q L X : Type 0) (latency : Latency L) (breaker : CircuitBreakerConfig)
    : Type 0 where
  pub config : RouterConfig
  pub rank :
      ChatRequest Q
      → Fleet W Q L X
      → Records latency breaker
      → Fleet W Q L X × Records latency breaker
  pub monotonic : W → ℕ

module _ {L : Type 0} (latency : Latency L) (breaker : CircuitBreakerConfig) where
  -- The last test of `_exclusion_reason`.
  abbrev pub by_circuit :
      String → ℕ → Records latency breaker → Option Reason × Records latency breaker
  by_circuit name now records =
      let (answer, after) = is_available latency breaker name now records in
      (if answer then none else some circuit_open, after)

  module _ {W Q X : Type 0} where
    -- `_exclusion_reason`: the circuit is asked only of a provider that is not barred.
    unfoldable pub exclusion_reason :
        ChatRequest Q
        → PrivacyTier
        → ℕ
        → Provider W Q L X
        → Records latency breaker
        → Option Reason × Records latency breaker
    exclusion_reason request floor now p records = elim (barred request floor p) [
      | some reason ↦ (some reason, records)
      | none ↦ by_circuit p.name now records
    ]

    -- The loop of `decide`, with the providers sorted so far; the clock is read once for all of them.
    unfoldable pub sift :
        ChatRequest Q
        → PrivacyTier
        → ℕ
        → Fleet W Q L X
        → Fleet W Q L X
        → Dict Reason
        → Records latency breaker
        → (Fleet W Q L X × Dict Reason) × Records latency breaker
    sift request floor now [] eligible excluded records = ((eligible, excluded), records)
    sift request floor now (p ∷ ps) eligible excluded records =
        let (reason, records₁) = exclusion_reason request floor now p records in
        elim reason [
          | none ↦ sift request floor now ps (eligible ++ p ∷ []) excluded records₁
          | some r ↦ sift request floor now ps eligible (Dict.put p.name r excluded) records₁
        ]

abbrev pub unavailable : String → EdenError
unavailable message = record { class = no_provider_available_error; message = message }

module _ {W Q L X : Type 0} {latency : Latency L} {breaker : CircuitBreakerConfig}
    (gateway : Gateway W Q L X latency breaker) (request : ChatRequest Q) where
  abbrev pub floor : PrivacyTier
  floor = floor_of gateway.config.minimum_privacy_tier request.minimum_privacy_tier

  -- `OmniRouter.decide`: the ranked candidates.
  unfoldable pub decide :
      Fleet W Q L X → ℕ → Records latency breaker → Fleet W Q L X × Records latency breaker
  decide providers now records =
      let ((eligible, excluded), records₁) =
        sift latency breaker request floor now providers [] [] records in
      gateway.rank request eligible records₁

  abbrev pub limit : ℕ
  limit = if gateway.config.failover_enabled then gateway.config.max_failovers + 1 else 1

  abbrev pub State : Type 0
  State = Records latency breaker × W

  -- The loop of `chat` over the shortlist, from its attempt of this number on.
  unfoldable pub attempts_from : ℕ → Fleet W Q L X → Eff State (ChatResponse L X)
  attempts_from attempt [] state =
      (eden (unavailable "Every eligible provider failed to serve this request."), state)
  attempts_from attempt (p ∷ ps) (records, w) =
      let (outcome, w') = p.chat request w in
      elim outcome [
        | ok response ↦ (
          ok (record response { attempts = attempt }),
          (observe_success latency breaker p.name response.latency_ms records, w'),
        )
        | eden e ↦ attempts_from (suc attempt) ps (
          observe_failure latency breaker p.name (code e.class) (gateway.monotonic w') records,
          w',
        )
        | crash t m ↦ (crash t m, (records, w'))
      ]

  abbrev pub serve : Fleet W Q L X → Eff State (ChatResponse L X)
  serve [] state = (eden (unavailable "No provider satisfies this request."), state)
  serve (p ∷ ps) state = attempts_from 1 (take limit (p ∷ ps)) state

  -- `GatewayClient.chat`
  unfoldable pub chat : Fleet W Q L X → Eff State (ChatResponse L X)
  unfolding decide attempts_from
  chat providers (records, w) =
      let (ranked, records₁) = decide providers (gateway.monotonic w) records in
      serve ranked (records₁, w)
