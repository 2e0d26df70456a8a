-- ===== src/Automation/Rules.antt =====
-- The rules of src/eden/automation/scheduler.py, and the records of their runs.
use eden_os.Prelude.{ℕ, String, Bool, true, false, Option, is_some, if◌then◌else◌}
use eden_os.Prelude.Text.{is_blank}
use eden_os.Errors.{EdenError, Failure, invalid_rule_error}
use eden_os.Effect.{Outcome, ok, eden}
use eden_os.Execution.Types.{Action}
use eden_os.Automation.Triggers.{Trigger}

-- The statuses of a run.
pub data AutomationStatus : Type 0 where
  idle running succeeded failed skipped : AutomationStatus

-- `Rule`; a task of the agents is of any type `T`.
pub record Rule (T : Type 0) : Type 0 where
  pub name : String
  pub trigger : Trigger
  pub task : Option T
  pub action : Option Action
  pub enabled : Bool
  pub description : String

abbrev pub invalid_rule : String → EdenError
invalid_rule message = record { class = invalid_rule_error; message = message }

-- `Rule.__post_init__`
unfoldable pub make_rule : {T : Type 0} → Rule T → Outcome (Rule T)
make_rule r =
    if is_blank r.name
    then eden (invalid_rule "Rule name must not be empty.")
    else elim (is_some r.task) [
      | true ↦
          if is_some r.action
          then eden (invalid_rule "A rule must carry exactly one of a task or an action.")
          else ok r
      | false ↦
          if is_some r.action
          then ok r
          else eden (invalid_rule "A rule must carry exactly one of a task or an action.")
    ]

-- What a run writes down of the exception that ended it.
pub data RunError : Type 0 where
  eden_failure : Failure → RunError
  other_failure : String → String → RunError

pub record AutomationRun : Type 0 where
  pub id : String
  pub rule : String
  pub status : AutomationStatus
  pub detail : String
  pub started_at : ℕ
  pub duration_ms : ℕ
  pub error : Option RunError
