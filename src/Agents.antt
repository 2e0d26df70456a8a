-- ===== src/Agents.antt =====
-- src/eden/agents/types.py, and the `AgentConfig` of src/eden/config/schema.py. Scores,
-- confidences and the temperature are in millionths, and times in seconds; a score below zero, which
-- is clamped, is zero here already. A report's summary and its duration are left out.
pub mod Context
pub mod Search
pub mod Base
pub mod Lifecycle
pub mod Steps
pub mod Reports
pub mod Orchestrator
pub mod Routed
mod Examples
use eden_os.Prelude.{
  ℕ, String, Bool, true, false, Option, none, some, List, [], ◌∷◌, not, ◌&&◌, ltb, leb, any, keep,
  length, is_some, if◌then◌else◌, str_eq, min,
}
use eden_os.Prelude.Dict.{Dict}
use eden_os.Prelude.Text.{is_blank}
use eden_os.Errors.{Failure, EdenError, validation_error, invalid_config_error}
use eden_os.Effect.{Outcome, ok, eden}
use eden_os.Enums.{TaskStatus, is_completed, StepStatus}
use eden_os.Execution.Types.{Value, Action, Preparation, ExecutionRecord, reversible}

abbrev pub one : ℕ
one = 1000000

abbrev pub max_temperature : ℕ
max_temperature = 2000000

pub record Task : Type 0 where
  pub goal : String
  pub id : String
  pub actor : String
  pub namespace : String
  pub context : Dict Value
  pub constraints : List String
  pub created_at : ℕ
  pub metadata : Dict Value

-- `Task.__post_init__`: `fresh` is what `new_id("task")` returns.
unfoldable pub make_task : String → Task → Outcome Task
make_task fresh t =
    if is_blank t.goal
    then eden (record { class = validation_error; message = "Task goal must not be empty." })
    else if is_blank t.namespace
    then eden (record { class = validation_error; message = "Task namespace must not be empty." })
    else if str_eq t.id ""
    then ok (record t { id = fresh })
    else ok t

pub record Suitability : Type 0 where
  pub score : ℕ
  pub reason : String

-- `Suitability(score, reason)`, clamped by `__post_init__`
abbrev pub suitability : ℕ → String → Suitability
suitability score reason = record { score = min one score; reason = reason }

-- `Suitability.can_handle`
abbrev pub can_handle : Suitability → Bool
can_handle s = ltb 0 s.score

-- `Suitability.no`
abbrev pub no : String → Suitability
no reason = suitability 0 reason

-- `Suitability.certain`
abbrev pub certain : String → Suitability
certain reason = suitability one reason

pub record PlanStep : Type 0 where
  pub description : String
  pub action : Option Action
  pub prompt : String
  pub id : String
  pub optional : Bool

-- `PlanStep.__post_init__`: `fresh` is what `new_id("step")` returns.
unfoldable pub make_step : String → PlanStep → Outcome PlanStep
make_step fresh s =
    if is_blank s.description
    then eden
        (record { class = validation_error; message = "Plan step description must not be empty." })
    else if not (is_some s.action) && is_blank s.prompt
    then eden (record {
      class = validation_error;
      message = "A plan step must either carry an action or ask something.";
    })
    else if is_some s.action && not (is_blank s.prompt)
    then eden (record {
      class = validation_error;
      message = "A plan step must not both act and reason; split it in two.";
    })
    else if str_eq s.id ""
    then ok (record s { id = fresh })
    else ok s

-- `PlanStep.changes_the_world`
abbrev pub changes_the_world : PlanStep → Bool
changes_the_world s = is_some s.action

pub record Plan : Type 0 where
  pub task_id : String
  pub steps : List PlanStep
  pub rationale : String

-- `Plan.changes_the_world`
abbrev pub has_effects : Plan → Bool
has_effects p = any changes_the_world p.steps

-- `Plan.effect_count`
abbrev pub effect_count : Plan → ℕ
effect_count p = length (keep changes_the_world p.steps)

-- `record` is called `execution`.
pub record StepOutcome : Type 0 where
  pub step : PlanStep
  pub status : StepStatus
  pub output : String
  pub execution : Option ExecutionRecord
  pub preparation : Option Preparation
  pub error : Option Failure

-- `StepOutcome.succeeded`
abbrev pub step_succeeded : StepStatus → Bool
step_succeeded StepStatus.succeeded = true
step_succeeded _ = false

abbrev pub is_failed : StepStatus → Bool
is_failed StepStatus.failed = true
is_failed _ = false

abbrev pub is_skipped : StepStatus → Bool
is_skipped StepStatus.skipped = true
is_skipped _ = false

abbrev pub can_undo : Option Preparation → Bool
can_undo none = false
can_undo (some p) = reversible p

-- `StepOutcome.reversible`
abbrev pub is_reversible : StepOutcome → Bool
is_reversible o = step_succeeded o.status && can_undo o.preparation

-- The findings that `BaseAgent.verify` writes as sentences, or that an error's message is.
pub data Observation : Type 0 where
  step_failed : String → Observation
  never_attempted : ℕ → Observation
  message : String → Observation

pub record Verification : Type 0 where
  pub satisfied : Bool
  pub confidence : ℕ
  pub findings : List Observation
  pub should_rollback : Bool

pub record AgentReport : Type 0 where
  pub task : Task
  pub agent : String
  pub status : TaskStatus
  pub suitability : Suitability
  pub plan : Option Plan
  pub outcomes : List StepOutcome
  pub verification : Option Verification
  pub started_at : ℕ
  pub finished_at : Option ℕ

-- `AgentReport.succeeded`
abbrev pub report_succeeded : AgentReport → Bool
report_succeeded r = is_completed r.status

pub record AgentConfig : Type 0 where
  pub enabled : Bool
  pub max_plan_steps : ℕ
  pub min_suitability : ℕ
  pub rollback_on_verification_failure : Bool
  pub planning_temperature : ℕ
  pub planning_model : String
  pub recall_limit : ℕ
  pub default_namespace : String
  pub task_timeout_seconds : ℕ
  pub search_roots : List String
  pub search_max_results : ℕ

abbrev invalid : String → EdenError
invalid m = record { class = invalid_config_error; message = m }

-- `AgentConfig.__post_init__`
unfoldable pub check_config : AgentConfig → Outcome AgentConfig
check_config c =
    if not (ltb 0 c.max_plan_steps)
    then eden (invalid "Value must be strictly positive.")
    else if not (ltb 0 c.recall_limit)
    then eden (invalid "Value must be strictly positive.")
    else if not (ltb 0 c.task_timeout_seconds)
    then eden (invalid "Value must be strictly positive.")
    else if not (ltb 0 c.search_max_results)
    then eden (invalid "Value must be strictly positive.")
    else if not (leb c.min_suitability one)
    then eden (invalid "Minimum suitability must be between 0 and 1.")
    else if not (leb c.planning_temperature max_temperature)
    then eden (invalid "Planning temperature is out of range.")
    else ok c
