-- ===== src/Gateway/Routing/Failover.antt =====
-- The steps of the failover loop of `GatewayClient.chat`, by the outcome of a provider.
use eden_os.Prelude.{ℕ, suc, String, ◌∷◌, ◌≡◌, arith}
use eden_os.Errors.{EdenError, code}
use eden_os.Effect.{ok, eden, crash}
use eden_os.Gateway.Health.{
  CircuitBreakerConfig, Latency, Records, observe_success, observe_failure,
}
use eden_os.Gateway.Routing.{ChatRequest, ChatResponse, Provider, Fleet, Gateway, attempts_from}

module _ {W Q L X : Type 0} {latency : Latency L} {breaker : CircuitBreakerConfig}
    (gateway : Gateway W Q L X latency breaker) (request : ChatRequest Q) where
  module _ (attempt : ℕ) (p : Provider W Q L X) (ps : Fleet W Q L X)
      (records : Records latency breaker) (w : W) where
    pub attempt-ok :
        (r : ChatResponse L X)
        → (p.chat request w).0 ≡ ok r
        → attempts_from gateway request attempt (p ∷ ps) (records, w) ≡ (
          ok (record r { attempts = attempt }),
          (observe_success latency breaker p.name r.latency_ms records, (p.chat request w).1),
        )
    unfolding attempts_from
    attempt-ok r e = ground arith

    pub attempt-eden :
        (x : EdenError)
        → (p.chat request w).0 ≡ eden x
        → attempts_from gateway request attempt (p ∷ ps) (records, w)
          ≡ attempts_from gateway request (suc attempt) ps (
            observe_failure latency breaker p.name
                (code x.class)
                (gateway.monotonic (p.chat request w).1)
                records,
            (p.chat request w).1,
          )
    unfolding attempts_from
    attempt-eden x e = ground arith

    pub attempt-crash :
        (t m : String)
        → (p.chat request w).0 ≡ crash t m
        → attempts_from gateway request attempt (p ∷ ps) (records, w)
          ≡ (crash t m, (records, (p.chat request w).1))
    unfolding attempts_from
    attempt-crash t m e = ground arith
