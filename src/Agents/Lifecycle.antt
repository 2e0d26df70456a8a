-- ===== src/Agents/Lifecycle.antt =====
-- The lifecycle `run` of src/eden/agents/base.py, with its compensation and its report. The time
-- budget of `run`, whose end raises `AgentError` at some point of the lifecycle, is left out.
use eden_os.Prelude.{
  ℕ, Bool, true, false, Option, none, some, List, [], ◌∷◌, map, not, ◌&&◌, keep, if◌then◌else◌,
}
use mathlib.Core.List.{reverse}
use eden_os.Errors.{EdenError}
use eden_os.Effect.{Outcome, ok, eden, crash, Eff}
use eden_os.Enums.{TaskStatus, StepStatus}
use eden_os.Execution.Types.{Preparation, ExecutionRecord}
use eden_os.Agents.{
  Task, Suitability, can_handle, Plan, StepOutcome, is_reversible, message, Verification,
  AgentReport,
}
use eden_os.Agents.Context.{ActionOutcome, undo}
use eden_os.Agents.Base.{is_empty, Agent, validate, execute}

-- The outcome that replaces one whose effect is undone.
abbrev pub rolled_back : StepOutcome → StepOutcome
rolled_back o =
    if is_reversible o
    then record {
      step = o.step;
      status = StepStatus.rolled_back;
      output = o.output;
      execution = o.execution;
      preparation = o.preparation;
      error = none;
    }
    else o

abbrev pub prepend :
    Option Preparation → Option ExecutionRecord → List ActionOutcome → List ActionOutcome
prepend none r rest = rest
prepend (some p) none rest = rest
prepend (some p) (some r) rest = record { execution = r; preparation = p } ∷ rest

-- What the loop of `_compensate` undoes: the outcomes with a record and a preparation.
abbrev pub undoable : List StepOutcome → List ActionOutcome
undoable [] = []
undoable (o ∷ os) = prepend o.preparation o.execution (undoable os)

module _ {W : Type 0} (agent : Agent W) where
  -- `report`
  abbrev pub report :
      Task
      → Suitability
      → Option Plan
      → List StepOutcome
      → Option Verification
      → TaskStatus
      → (started : ℕ) → W
      → AgentReport
  report task suitability plan outcomes verification status started w = record {
    task = task;
    agent = agent.name;
    status = status;
    suitability = suitability;
    plan = plan;
    outcomes = outcomes;
    verification = verification;
    started_at = started;
    finished_at = some (agent.now w);
  }

  -- The loop of `_compensate`.
  unfoldable pub undo_each : List ActionOutcome → Bool → Eff W Bool
  undo_each [] all_undone w = (ok all_undone, w)
  undo_each (o ∷ os) all_undone w =
      let (undone, w') = undo agent.context o w in
      elim undone [
        | ok b ↦ undo_each os (all_undone && b) w'
        | eden e ↦ (eden e, w')
        | crash t m ↦ (crash t m, w')
      ]

  -- `_compensate`
  unfoldable pub compensate : List StepOutcome → Eff W Bool
  unfolding undo_each
  compensate outcomes w =
      let undoing = keep is_reversible outcomes in
      if is_empty undoing then (ok false, w) else undo_each (undoable (reverse undoing)) true w

  abbrev pub verdict_status : Bool → TaskStatus
  verdict_status true = TaskStatus.completed
  verdict_status false = TaskStatus.failed

  -- The end of `_run_lifecycle`, when a rollback has answered.
  abbrev pub after_rollback :
      Task
      → Suitability
      → ℕ
      → Plan
      → List StepOutcome
      → Verification
      → Outcome Bool × W
      → Outcome AgentReport × W
  after_rollback task s started plan outcomes v (ok true, w) = (
    ok (
        report task s (some plan) (map rolled_back outcomes) (some v) TaskStatus.rolled_back started
          w),
    w,
  )
  after_rollback task s started plan outcomes v (ok false, w) =
      (ok (report task s (some plan) outcomes (some v) (verdict_status v.satisfied) started w), w)
  after_rollback task s started plan outcomes v (eden e, w) = (eden e, w)
  after_rollback task s started plan outcomes v (crash t m, w) = (crash t m, w)

  abbrev pub after_judgement :
      Task
      → Suitability
      → ℕ
      → Plan
      → List StepOutcome
      → Verification
      → (should_rollback : Bool) → Eff W AgentReport
  after_judgement task s started plan outcomes v true w =
      after_rollback task s started plan outcomes v (compensate outcomes w)
  after_judgement task s started plan outcomes v false w =
      (ok (report task s (some plan) outcomes (some v) (verdict_status v.satisfied) started w), w)

  abbrev pub after_verify :
      Task
      → Suitability
      → ℕ
      → Plan
      → List StepOutcome
      → Outcome Verification × W
      → Outcome AgentReport × W
  after_verify task s started plan outcomes (ok v, w) =
      after_judgement task s started plan outcomes v v.should_rollback w
  after_verify task s started plan outcomes (eden e, w) = (eden e, w)
  after_verify task s started plan outcomes (crash t m, w) = (crash t m, w)

  abbrev pub after_validate : Task → Suitability → ℕ → Plan → Option EdenError → Eff W AgentReport
  after_validate task s started plan (some e) w = (eden e, w)
  after_validate task s started plan none w =
      let (outcomes, w') = execute agent task plan.steps w in
      after_verify task s started plan outcomes (agent.verify task plan outcomes w')

  abbrev pub after_plan : Task → Suitability → ℕ → Outcome Plan × W → Outcome AgentReport × W
  after_plan task s started (ok plan, w) =
      after_validate task s started plan (validate agent.context.config.max_plan_steps plan task) w
  after_plan task s started (eden e, w) = (eden e, w)
  after_plan task s started (crash t m, w) = (crash t m, w)

  -- `_run_lifecycle`
  unfoldable pub run_lifecycle : Task → Suitability → ℕ → Eff W AgentReport
  run_lifecycle task s started w = after_plan task s started (agent.plan task w)

  -- The `except EdenError` of `run`.
  abbrev pub caught : Task → Suitability → ℕ → Outcome AgentReport × W → Outcome AgentReport × W
  caught task s started (ok r, w) = (ok r, w)
  caught task s started (eden e, w) = (
    ok (
        report task s none []
          (some (record {
            satisfied = false;
            confidence = 0;
            findings = message e.message ∷ [];
            should_rollback = false;
          }))
          TaskStatus.failed started w),
    w,
  )
  caught task s started (crash t m, w) = (crash t m, w)

  abbrev pub assessed : Task → Outcome Suitability → Eff W AgentReport
  assessed task (ok s) w =
      if not (can_handle s)
      then (ok (report task s none [] none TaskStatus.rejected (agent.now w) w), w)
      else caught task s (agent.now w) (run_lifecycle task s (agent.now w) w)
  assessed task (eden e) w = (eden e, w)
  assessed task (crash t m) w = (crash t m, w)

  -- `run`
  unfoldable pub run : Task → Eff W AgentReport
  run task w = assessed task (agent.can_handle task w) w
