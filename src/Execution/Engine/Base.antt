-- ===== src/Execution/Engine/Base.antt =====
-- The engine of src/eden/execution/engine.py and the steps that its pipeline shares: the handlers,
-- preparation, compensation and the journal entry. The world `W` is all that handlers, gates, the
-- journal and the clock act on or read; the log lines are left out.
use eden_os.Prelude.{ℕ, Bool, true, false, Option, none, some, List, [], ◌∷◌}
use eden_os.Prelude.Dict
use eden_os.Prelude.Dict.{Dict}
use eden_os.Prelude.Text.{◌⧺◌}
use eden_os.Errors.{EdenError, handler_not_found_error}
use eden_os.Effect.{Outcome, ok, eden, crash, Eff}
use eden_os.Enums.{ActionKind, kind_value}
use eden_os.Execution.Types.{
  str, Action, Preparation, Verdict, ExecutionResult, ExecutionRecord, ExecutionConfig,
}
use eden_os.Execution.Permissions.{ApprovalGate}

-- `ActionHandler`
pub record ActionHandler (W : Type 0) : Type 0 where
  pub kind : ActionKind
  pub prepare : Action → Eff W Preparation
  pub execute : Action → Preparation → Eff W ExecutionResult

-- `ExecutionEngine`: the verifier reads the world too, since it resolves paths.
pub record Engine (W : Type 0) : Type 0 where
  pub config : ExecutionConfig
  pub verifier : Action → Preparation → W → Verdict
  pub gate : ApprovalGate W
  pub append : ExecutionRecord → Eff W (Unit {0})
  pub handlers : Dict (ActionHandler W)
  pub now : W → ℕ

abbrev pub not_found : EdenError
not_found = record {
  class = handler_not_found_error;
  message = "No handler is registered for this action kind.";
}

-- What `_prepare` makes of a handler's preparation: one that raised has no rollback plan.
abbrev pub prepared : Outcome Preparation → Preparation
prepared (ok p) = p
prepared (eden e) = record { rollback = none; notes = ("reason", str e.message) ∷ [] }
prepared (crash type message) = record {
  rollback = none;
  notes = ("reason", str ("preparation failed (" ⧺ type ⧺ ")")) ∷ [];
}

abbrev pub empty_preparation : Preparation
empty_preparation = record { rollback = none; notes = [] }

module _ {W : Type 0} (engine : Engine W) where
  -- `handler_for`; the values of the kinds are their own keys in the registry.
  unfoldable pub handler_for : ActionKind → Option (ActionHandler W)
  handler_for kind = Dict.get (kind_value kind) engine.handlers

  -- `_prepare`
  unfoldable pub prepare : ActionHandler W → Action → W → Preparation × W
  prepare handler action w = let (outcome, w') = handler.prepare action w in (prepared outcome, w')

  -- `_finish`: a journal that raises does not fail the action.
  unfoldable pub finish : ExecutionRecord → W → ExecutionRecord × W
  finish r w =
      let completed : ExecutionRecord = record r { finished_at = some (engine.now w) } in
      (completed, (engine.append completed w).1)

  -- One pass of the loop of `_apply_rollback`, and the rest of it on success.
  unfoldable pub run_steps : List Action → W → Bool × W
  run_steps [] w = (true, w)
  run_steps (step ∷ steps) w = elim (handler_for step.kind) [
    | none ↦ (false, w)
    | some handler ↦
        let (outcome, w') = handler.execute step empty_preparation w in
        elim outcome [
          | ok result ↦ run_steps steps w'
          | eden e ↦ (false, w')
          | crash t m ↦ (false, w')
        ]
  ]

  -- `_apply_rollback`: no plan, or an empty one, is undone already.
  unfoldable pub apply_rollback : Preparation → W → Bool × W
  unfolding run_steps
  apply_rollback preparation w = elim preparation.rollback [
    | none ↦ (true, w)
    | some plan ↦ run_steps plan.steps w
  ]

  -- `_compensate_one`
  unfoldable pub compensate_one : Preparation → W → Bool × W
  compensate_one preparation w = elim preparation.rollback [
    | none ↦ (false, w)
    | some plan ↦ apply_rollback preparation w
  ]
