-- ===== src/Agents/Orchestrator.antt =====
-- src/eden/agents/orchestrator.py. The registry's factories return the agent that they were
-- registered with, so it is the `dict` of the agents; `lower` is Python's `str.lower`.
use eden_os.Prelude.{
  ℕ, String, Bool, Option, none, some, List, [], ◌∷◌, ◌++◌, not, ◌&&◌, ◌||◌, ltb, leb, ◌==◌,
  if◌then◌else◌, str_eq,
}
use eden_os.Prelude.Dict
use eden_os.Prelude.Dict.{Dict}
use eden_os.Prelude.Order.{str_leb}
use eden_os.Prelude.Sorting.{sort}
use eden_os.Prelude.Text.{◌⧺◌}
use eden_os.Errors.{EdenError, no_suitable_agent_error, is_a, class_name}
use eden_os.Effect.{Outcome, ok, eden, crash, Eff}
use eden_os.Enums.{TaskStatus}
use eden_os.Core.Registry.{refused, key}
use eden_os.Agents.{AgentConfig, Task, Suitability, can_handle, no, AgentReport}
use eden_os.Agents.Base.{Agent}
use eden_os.Agents.Lifecycle.{run}

abbrev pub Entry : Type 0
Entry = String × Suitability

pub record RoutingDecision : Type 0 where
  pub ranked : List Entry
  pub declined : Dict String

-- `AgentOrchestrator`
pub record Orchestrator (W : Type 0) : Type 0 where
  pub config : AgentConfig
  pub agents : Dict (Agent W)

-- `sort(key=lambda entry: (-entry[1].score, entry[0]))`
abbrev pub before : Entry → Entry → Bool
before e f = ltb f.1.score e.1.score || (e.1.score == f.1.score && str_leb e.0 f.0)

abbrev pub reason_of : Suitability → String
reason_of s = if str_eq s.reason "" then "below the suitability floor" else s.reason

abbrev pub unsuitable : EdenError
unsuitable = record {
  class = no_suitable_agent_error;
  message = "No registered agent is willing to take this task.";
}

abbrev pub is_willing : (min_suitability : ℕ) → Suitability → Bool
is_willing min_suitability s = can_handle s && leb min_suitability s.score

-- What one agent's answer adds to the decision.
abbrev pub considered : ℕ → String → Outcome Suitability → RoutingDecision → RoutingDecision
considered floor name (ok s) d =
    if is_willing floor s
    then record d { ranked = d.ranked ++ (name, s) ∷ [] }
    else record d { declined = Dict.put name (reason_of s) d.declined }
considered floor name (eden e) d = record d {
  declined = Dict.put name ("can_handle raised " ⧺ class_name e.class) d.declined;
}
considered floor name (crash t m) d = record d {
  declined = Dict.put name ("can_handle raised " ⧺ t) d.declined;
}

module _ {W : Type 0} where
  -- The loop of `route`.
  unfoldable pub sift : ℕ → Task → W → List (Agent W) → RoutingDecision → RoutingDecision
  sift floor task w [] d = d
  sift floor task w (a ∷ rest) d =
      sift floor task w rest (considered floor a.name (a.can_handle task w) d)

  -- `route`
  unfoldable pub route : Orchestrator W → Task → W → RoutingDecision
  route o task w =
      let d =
        sift o.config.min_suitability task w (Dict.values o.agents)
          (record { ranked = []; declined = [] }) in
      record d { ranked = sort before d.ranked }

module _ {W : Type 0} (lower : String → String) where
  -- `register`
  unfoldable pub register :
      Agent W → (replace : Bool) → Dict (Agent W) → Outcome (Unit {0}) × Dict (Agent W)
  register agent replace agents =
      if str_eq (key lower agent.name) ""
      then (eden (refused "Registry keys must not be empty."), agents)
      else if Dict.has (key lower agent.name) agents && not replace
      then (eden (refused "An entry with this name is already registered."), agents)
      else (ok tt, Dict.put (key lower agent.name) agent agents)

  -- `unregister`
  unfoldable pub unregister : String → Dict (Agent W) → Outcome (Unit {0}) × Dict (Agent W)
  unregister name agents =
      if Dict.has (key lower name) agents
      then (ok tt, Dict.remove (key lower name) agents)
      else (eden (refused "No entry is registered under this name."), agents)

  abbrev pub ran : Option (Agent W) → Task → Eff W AgentReport
  ran none task w = (eden (refused "No entry is registered under this name."), w)
  ran (some a) task w = run a task w

  -- `self._agents.create(name)`, and the agent's `run`
  abbrev pub run_named : Orchestrator W → String → Task → Eff W AgentReport
  run_named o name task w = ran (Dict.get (key lower name) o.agents) task w

  abbrev pub to_winner : Orchestrator W → List Entry → Task → Eff W AgentReport
  to_winner o [] task w = (eden unsuitable, w)
  to_winner o (e ∷ es) task w = run_named o e.0 task w

  -- `dispatch`
  unfoldable pub dispatch : Orchestrator W → Task → (agent : String) → Eff W AgentReport
  unfolding route
  dispatch o task agent w =
      if not (str_eq agent "")
      then run_named o agent task w
      else to_winner o (route o task w).ranked task w

  abbrev pub turned_away : Orchestrator W → (W → ℕ) → Task → EdenError → W → AgentReport
  turned_away o now task e w = record {
    task = task;
    agent = "";
    status = TaskStatus.rejected;
    suitability = no e.message;
    plan = none;
    outcomes = [];
    verification = none;
    started_at = now w;
    finished_at = none;
  }

  -- The `except NoSuitableAgentError` of `dispatch_all`.
  abbrev pub tolerated :
      Orchestrator W → (W → ℕ) → Task → Outcome AgentReport × W → Outcome AgentReport × W
  tolerated o now task (ok r, w) = (ok r, w)
  tolerated o now task (eden e, w) =
      if is_a e.class no_suitable_agent_error
      then (ok (turned_away o now task e w), w)
      else (eden e, w)
  tolerated o now task (crash t m, w) = (crash t m, w)

  -- `dispatch_all`: `now` is the clock that a report reads.
  unfoldable pub dispatch_all :
      Orchestrator W → (W → ℕ) → List Task → List AgentReport → Eff W (List AgentReport)
  unfolding dispatch
  dispatch_all o now [] reports w = (ok reports, w)
  dispatch_all o now (task ∷ tasks) reports w =
      let (outcome, w') = tolerated o now task (dispatch o task "" w) in
      elim outcome [
        | ok r ↦ dispatch_all o now tasks (reports ++ r ∷ []) w'
        | eden e ↦ (eden e, w')
        | crash t m ↦ (crash t m, w')
      ]
