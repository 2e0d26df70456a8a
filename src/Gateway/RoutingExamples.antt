-- ===== src/Gateway/RoutingExamples.antt =====
-- The properties of routing and failover on a small fleet.
use eden_os.Prelude.{
  ℕ, suc, String, true, false, some, [], ◌∷◌, ◌≡◌, ◌⊎◌, inl, inr, refl, All, is_some, length,
}
use eden_os.Prelude.Text.{contains}
use eden_os.Errors.{provider_timeout_error}
use eden_os.Effect.{ok, eden}
use eden_os.Gateway.Health.{CircuitBreakerConfig, Latency}
use eden_os.Gateway.Routing.{
  public_cloud, private_cloud, local_only, ChatRequest, Provider, Fleet, Gateway, barred, floor,
  decide, chat,
}
use eden_os.Gateway.Routing.Eligible.{Spares, chat_confined}
use eden_os.Gateway.Routing.Calls.{Answered, chat-Answered}

abbrev latency : Latency ℕ
latency = record { nil = 0; is_nil = λ x. false; is_positive = λ x. true; weigh = λ x y. x }

abbrev breaker : CircuitBreakerConfig
breaker = record { failure_threshold = 2; reset_seconds = 10; half_open_successes = 1 }

-- The world is the number of calls that went to the cloud.
abbrev cloud : Provider ℕ String ℕ String
cloud = record {
  name = "cloud";
  enabled = true;
  privacy_tier = public_cloud;
  capabilities = "chat" ∷ [];
  supports = λ request. true;
  chat =
      λ request w. (ok (record { latency_ms = 50; attempts = 1; rest = "from the cloud" }), suc w);
}

abbrev flaky : Provider ℕ String ℕ String
flaky = record {
  name = "flaky";
  enabled = true;
  privacy_tier = local_only;
  capabilities = "chat" ∷ [];
  supports = λ request. true;
  chat = λ request w. (eden (record { class = provider_timeout_error; message = "late" }), w);
}

abbrev local : Provider ℕ String ℕ String
local = record {
  name = "local";
  enabled = true;
  privacy_tier = local_only;
  capabilities = "chat" ∷ [];
  supports = λ request. true;
  chat = λ request w. (ok (record { latency_ms = 9; attempts = 1; rest = "from here" }), w);
}

abbrev fleet : Fleet ℕ String ℕ String
fleet = cloud ∷ flaky ∷ local ∷ []

abbrev gateway : Gateway ℕ String ℕ String latency breaker
gateway = record {
  config = record {
    minimum_privacy_tier = public_cloud;
    failover_enabled = true;
    max_failovers = 2;
  };
  rank = λ request candidates records. (candidates, records);
  monotonic = λ w. 0;
}

abbrev request : ChatRequest String
request = record {
  required_capabilities = "chat" ∷ [];
  minimum_privacy_tier = some private_cloud;
  rest = "hello";
}

barred-cloud : is_some (barred request (floor gateway request) cloud) ≡ true
unfolding barred contains
barred-cloud = refl

spared :
    All
      (λ p.
        (is_some (barred request (floor gateway request) p) ≡ true)
        ⊎ Spares gateway request (λ (w : ℕ). w) p)
      fleet
spared = (inl barred-cloud, (inr (λ w. refl), (inr (λ w. refl), tt)))

chat_confined_example : (chat gateway request fleet ([], 0)).1.1 ≡ 0
chat_confined_example =
    chat_confined gateway request (λ (w : ℕ). w) fleet [] 0 (λ P candidates records h. h) spared

-- The same fleet in a world that counts every call.
abbrev counted : Provider ℕ String ℕ String → Provider ℕ String ℕ String
counted p = record p { chat = λ request w. ((p.chat request w).0, suc w) }

abbrev counted_fleet : Fleet ℕ String ℕ String
counted_fleet = counted flaky ∷ counted flaky ∷ counted local ∷ []

chat-Answered_example :
    let r = chat gateway request counted_fleet ([], 0) in
    let ranked = (decide gateway request counted_fleet 0 []).0 in
    Answered gateway request (λ w. w) counted_fleet (length ranked) 0 r.1.1 r.0
chat-Answered_example =
    chat-Answered gateway request (λ w. w) counted_fleet [] 0 (λ P candidates records h. h)
      ((λ v. refl), ((λ v. refl), ((λ v. refl), tt)))
