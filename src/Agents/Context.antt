-- ===== src/Agents/Context.antt =====
-- src/eden/agents/context.py: what an agent can do. Memory is left out.
use eden_os.Prelude.{String, Bool, false, Option, none, some, if◌then◌else◌, not}
use eden_os.Prelude.Text.{strip}
use eden_os.Errors.{EdenError, agent_capability_error}
use eden_os.Effect.{Outcome, ok, eden, crash, Eff}
use eden_os.Enums.{is_succeeded}
use eden_os.Execution.Types.{Action, Preparation, Verdict, ExecutionRecord, reversible}
use eden_os.Execution.Engine.Base.{Engine}
use eden_os.Execution.Engine.{review, submit, rollback}
use eden_os.Agents.{AgentConfig}

-- `AgentContext`. `generate system prompt` is the content of the gateway's answer to the two
-- messages, with the model and the temperature of the configuration.
pub record AgentContext (W : Type 0) : Type 0 where
  pub config : AgentConfig
  pub generate : (system prompt : String) → Eff W String
  pub execution : Option (Engine W)

-- `record` is called `execution`.
pub record ActionOutcome : Type 0 where
  pub execution : ExecutionRecord
  pub preparation : Preparation

-- `ActionOutcome.succeeded`
abbrev pub action_succeeded : ActionOutcome → Bool
action_succeeded o = is_succeeded o.execution.status

-- `_require_execution`
abbrev pub disabled : EdenError
disabled = record {
  class = agent_capability_error;
  message = "This agent needs to act, but the execution subsystem is disabled.";
}

abbrev stripped : Outcome String → Outcome String
stripped (ok text) = ok (strip text)
stripped (eden e) = eden e
stripped (crash t m) = crash t m

module _ {W : Type 0} where
  abbrev pub submitted : Preparation → Outcome ExecutionRecord × W → Outcome ActionOutcome × W
  submitted preparation (ok r, w) = (ok (record { execution = r; preparation = preparation }), w)
  submitted preparation (eden e, w) = (eden e, w)
  submitted preparation (crash t m, w) = (crash t m, w)

  -- The rest of `act`, once `engine.review` has answered.
  abbrev pub act_reviewed :
      Engine W → Action → Outcome (Verdict × Preparation) × W → Outcome ActionOutcome × W
  act_reviewed engine action (ok reviewed, w) = submitted reviewed.1 (submit engine action w)
  act_reviewed engine action (eden e, w) = (eden e, w)
  act_reviewed engine action (crash t m, w) = (crash t m, w)

  abbrev pub act_with : Option (Engine W) → Action → Eff W ActionOutcome
  act_with none action w = (eden disabled, w)
  act_with (some engine) action w = act_reviewed engine action (review engine action w)

  abbrev pub applied : Outcome ExecutionRecord × W → Outcome Bool × W
  applied (ok rolled, w) = (ok rolled.rollback_applied, w)
  applied (eden e, w) = (eden e, w)
  applied (crash t m, w) = (crash t m, w)

  abbrev pub undo_with : Option (Engine W) → ActionOutcome → Eff W Bool
  undo_with none o w = (eden disabled, w)
  undo_with (some engine) o w =
      if not (reversible o.preparation)
      then (ok false, w)
      else applied (rollback engine o.execution o.preparation w)

module _ {W : Type 0} (context : AgentContext W) where
  -- `think`
  unfoldable pub think : (prompt system : String) → Eff W String
  think prompt system w =
      let (answer, w') = context.generate system prompt w in (stripped answer, w')

  -- `act`
  unfoldable pub act : Action → Eff W ActionOutcome
  act action w = act_with context.execution action w

  -- `undo`
  unfoldable pub undo : ActionOutcome → Eff W Bool
  undo outcome w = undo_with context.execution outcome w
