-- ===== src/Agents/Examples.antt =====
-- The properties of the agents at two agents that work at the desk of the execution's examples.
use eden_os.Prelude.{ℕ, String, true, false, none, some, List, [], ◌∷◌, ◌≡◌, refl, ◌⊎◌}
use eden_os.Effect.{ok}
use eden_os.Execution.Samples.{Desk, desk, engine, set_to, last_word}
use eden_os.Execution.Types.{Action}
use eden_os.Agents.{AgentConfig, Task, suitability, PlanStep, Plan, check_config}
use eden_os.Agents.Context.{AgentContext}
use eden_os.Agents.Base.{Agent, default_thought, default_verify, is_satisfied, execute}
use eden_os.Agents.Lifecycle.{run}
use eden_os.Agents.Steps.{
  Ran, all_succeeded, default_thought-Thinks, execute-Ran, is_satisfied-execute,
}
use eden_os.Agents.Reports.{Reported, run-Reported}
use eden_os.Agents.Orchestrator.{Orchestrator, dispatch}
use eden_os.Agents.Routed.{Call, registers, unregisters, after, IsBest, Unroutable, dispatch-IsBest}
use eden_os.Prelude.{◌||◌, ◌&&◌, str_eq, if◌then◌else◌}
use eden_os.Execution.Verification.Scope.{parts_eq}
use eden_os.Agents.Search.{Host, search_roots}
use eden_os.Agents.Search.Roots.{Links}

abbrev config : AgentConfig
config = record {
  enabled = true;
  max_plan_steps = 20;
  min_suitability = 100000;
  rollback_on_verification_failure = true;
  planning_temperature = 200000;
  planning_model = "";
  recall_limit = 5;
  default_namespace = "default";
  task_timeout_seconds = 300;
  search_roots = [];
  search_max_results = 500;
}

config_accepted : check_config config ≡ ok config
unfolding check_config
config_accepted = refl

abbrev context : AgentContext Desk
context = record {
  config = config;
  generate = λ system prompt w. (ok "an answer", w);
  execution = some engine;
}

abbrev task : Task
task = record {
  goal = "Set the number.";
  id = "task-1";
  actor = "system";
  namespace = "default";
  context = [];
  constraints = [];
  created_at = 0;
  metadata = [];
}

abbrev act_on : Action → PlanStep
act_on a = record {
  description = "Set it.";
  action = some a;
  prompt = "";
  id = "step-1";
  optional = false;
}

abbrev ask : PlanStep
ask = record {
  description = "Ask.";
  action = none;
  prompt = "What number?";
  id = "step-2";
  optional = true;
}

abbrev plan : Plan
plan = record {
  task_id = "task-1";
  steps = ask ∷ act_on (set_to 3) ∷ act_on last_word ∷ ask ∷ [];
  rationale = "";
}

abbrev agent : String → ℕ → Agent Desk
agent name score = record {
  name = name;
  description = "Works at the desk.";
  context = context;
  now = λ w. 0;
  can_handle = λ t w. ok (suitability score "");
  plan = λ t w. (ok plan, w);
  run_thought = default_thought context name "Works at the desk.";
  verify = default_verify context;
}

abbrev worker : Agent Desk
worker = agent "worker" 900000

execute-Ran_example : Ran plan.steps (execute worker task plan.steps desk).0
execute-Ran_example =
    execute-Ran worker (default_thought-Thinks context "worker" "Works at the desk.") task
      plan.steps desk

is_satisfied-execute_example :
    is_satisfied plan (execute worker task plan.steps desk).0
    ≡ all_succeeded (execute worker task plan.steps desk).0
is_satisfied-execute_example =
    is_satisfied-execute worker (default_thought-Thinks context "worker" "Works at the desk.") task
      plan desk

run-Reported_example : Reported 20 task (run worker task desk).0
run-Reported_example =
    run-Reported worker task (suitability 900000 "") desk
      (default_thought-Thinks context "worker" "Works at the desk.") (λ p os w. refl) refl tt

abbrev calls : List (Call Desk)
calls =
    registers (agent "clerk" 500000) false
    ∷ registers worker false
    ∷ registers (agent "guest" 950000) false
    ∷ unregisters "guest"
    ∷ []

abbrev orchestrator : Orchestrator Desk
orchestrator = record { config = config; agents = after (λ s. s) [] calls }

dispatch-IsBest_example :
    Unroutable (λ s. s) orchestrator task desk (dispatch (λ s. s) orchestrator task "" desk)
    ⊎ IsBest (λ s. s) orchestrator task desk (dispatch (λ s. s) orchestrator task "" desk)
dispatch-IsBest_example = dispatch-IsBest (λ s. s) config calls task desk

-- A home with two folders and a key, of which only the folder `home/work` is configured.
abbrev host : Host
host = record {
  resolve = λ s. "home" ∷ s ∷ [];
  is_dir = λ p. true;
  walk = λ root. (root, "notes.md" ∷ "link.md" ∷ "server.key" ∷ []) ∷ [];
  fnmatch =
      λ name pattern. str_eq pattern "*" || (str_eq pattern "*.key" && str_eq name "server.key");
  stat = λ p. some (10, 5);
  show = λ p. "p";
}

-- One of the notes is a link to the other folder.
abbrev links : Links
links = record {
  real = λ p. if parts_eq p ("home" ∷ "work" ∷ "link.md" ∷ []) then "home" ∷ "private" ∷ [] else p;
  is_link = λ p. parts_eq p ("home" ∷ "work" ∷ "link.md" ∷ []);
}
