-- ===== src/Execution/Engine.antt =====
-- src/eden/execution/engine.py: prepare, verify, permit, execute, roll back, and transactions that
-- compensate what they completed.
pub mod Base
pub mod Gated
pub mod Audit
pub mod Settled
pub mod Transaction
pub mod Saga
pub mod Stranded
use eden_os.Prelude.{
  ℕ, String, Bool, true, false, Option, none, some, List, [], ◌∷◌, ◌++◌, not, ltb, length,
  if◌then◌else◌, ◌&&◌,
}
use eden_os.Prelude.Dict
use eden_os.Prelude.Dict.{Dict}
use eden_os.Prelude.Text.{◌⧺◌}
use eden_os.Errors.{
  EdenError, Failure, to_dict, handler_not_found_error, action_execution_error, rollback_error,
}
use eden_os.Effect.{Outcome, ok, eden, crash, Eff}
use eden_os.Enums.{
  ActionKind, kind_value, ExecutionStatus, rejected, denied, skipped, succeeded, failed,
  rolled_back, rollback_failed, is_succeeded,
}
use eden_os.Execution.Types.{
  Value, str, Action, RollbackPlan, Preparation, Verdict, blocked, Permit, ExecutionResult,
  ExecutionRecord, TransactionResult, ExecutionConfig,
}
use eden_os.Execution.Permissions.{ApprovalGate, decide}
use mathlib.Core.List.{reverse}
use eden_os.Execution.Engine.Base.{
  ActionHandler, Engine, not_found, handler_for, prepare, finish, apply_rollback, compensate_one,
}

abbrev crashed : String → String → Failure
crashed t m = record {
  code = "eden.execution.handler_crashed";
  type = t;
  message = m;
  retryable = none;
}

abbrev dry_result : ExecutionResult
dry_result = record {
  succeeded = true;
  output = "Dry run: verified and permitted, not executed.";
  detail = [];
}

-- The record that the pipeline builds, before `_finish` stamps it.
abbrev pub entry : Action → ExecutionStatus → Verdict → Permit → ℕ → ExecutionRecord
entry action status verdict permit started = record {
  action = action;
  status = status;
  verdict = some verdict;
  permit = some permit;
  result = none;
  rollback_applied = false;
  error = none;
  started_at = started;
  finished_at = none;
}

module _ {W : Type 0} (engine : Engine W) where
  abbrev undone : Bool → ExecutionStatus
  undone true = rolled_back
  undone false = failed

  -- The `except` branches of `_execute`.
  unfoldable pub fail :
      Action → Verdict → Permit → Preparation → ℕ → Failure → W → ExecutionRecord × W
  fail action verdict permit preparation started failure w =
      let (back, w') = compensate_one engine preparation w in
      finish engine
        (record (entry action (undone back) verdict permit started) {
          rollback_applied = back;
          error = some failure;
        })
        w'

  -- `_execute`, once the handler has answered.
  unfoldable pub conclude :
      Action
      → Verdict
      → Permit
      → Preparation
      → ℕ
      → Outcome ExecutionResult
      → W
      → ExecutionRecord × W
  unfolding fail
  conclude action verdict permit preparation started (ok result) w =
      finish engine
        (record (entry action (if result.succeeded then succeeded else failed) verdict permit
          started) { result = some result })
        w
  conclude action verdict permit preparation started (eden e) w =
      fail action verdict permit preparation started (to_dict e) w
  conclude action verdict permit preparation started (crash t m) w =
      fail action verdict permit preparation started (crashed t m) w

  -- `_execute`
  unfoldable pub execute :
      ActionHandler W → Action → Verdict → Permit → Preparation → ℕ → W → ExecutionRecord × W
  unfolding conclude
  execute handler action verdict permit preparation started w =
      let (outcome, w') = handler.execute action preparation w in
      conclude action verdict permit preparation started outcome w'

  -- `submit` after `_prepare` and `verify`: permission, the dry run, execution.
  unfoldable pub authorise :
      ActionHandler W → Action → Verdict → Preparation → ℕ → W → ExecutionRecord × W
  authorise handler action verdict preparation started w =
      let (permit, w') = decide engine.config engine.gate action verdict w in
      if blocked verdict
      then finish engine (entry action rejected verdict permit started) w'
      else if not permit.granted
      then finish engine (entry action denied verdict permit started) w'
      else if engine.config.dry_run
      then finish engine
          (record (entry action skipped verdict permit started) { result = some dry_result }) w'
      else execute handler action verdict permit preparation started w'

  -- `submit`, with the handler found.
  unfoldable pub submit_with : ActionHandler W → Action → W → ExecutionRecord × W
  unfolding authorise
  submit_with handler action w =
      let (preparation, w') = prepare engine handler action w in
      authorise handler action (engine.verifier action preparation w') preparation (engine.now w) w'

  -- `submit`
  unfoldable pub submit : Action → Eff W ExecutionRecord
  unfolding submit_with
  submit action w = elim (handler_for engine action.kind) [
    | none ↦ (eden not_found, w)
    | some handler ↦ let (r, w') = submit_with handler action w in (ok r, w')
  ]

  -- `review`
  unfoldable pub review : Action → Eff W (Verdict × Preparation)
  review action w = elim (handler_for engine action.kind) [
    | none ↦ (eden not_found, w)
    | some handler ↦
        let (preparation, w') = prepare engine handler action w in
        (ok (engine.verifier action preparation w', preparation), w')
  ]

  abbrev Completed : Type 0
  Completed = ExecutionRecord × Preparation

  -- The loop of `_compensate`, over the completed actions in reverse.
  unfoldable pub compensate_all : List Completed → Bool → W → Bool × W
  compensate_all [] all_succeeded w = (all_succeeded, w)
  compensate_all ((r, preparation) ∷ rest) all_succeeded w =
      let (back, w') = compensate_one engine preparation w in
      compensate_all rest (all_succeeded && back) w'

  -- `_compensate`
  unfoldable pub compensate : List Completed → W → Bool × W
  unfolding compensate_all
  compensate completed w = compensate_all (reverse completed) true w

  -- The loop of `submit_transaction`.
  unfoldable pub transact :
      List Action → List ExecutionRecord → List Completed → Eff W TransactionResult
  transact [] records completed w =
      (ok (record { records = records; succeeded = true; compensated = false }), w)
  transact (action ∷ actions) records completed w = elim (handler_for engine action.kind) [
    | none ↦ (eden not_found, w)
    | some handler ↦
        let (preparation, w₁) = prepare engine handler action w in
        let (r, w₂) = submit_with handler action w₁ in
        elim (is_succeeded r.status) [
          | true ↦ transact actions (records ++ r ∷ []) (completed ++ (r, preparation) ∷ []) w₂
          | false ↦
              let (back, w₃) = compensate completed w₂ in
              (
                ok (record { records = records ++ r ∷ []; succeeded = false; compensated = back }),
                w₃,
              )
        ]
  ]

  -- `submit_transaction`
  unfoldable pub submit_transaction : List Action → Eff W TransactionResult
  unfolding transact
  submit_transaction actions w =
      if ltb engine.config.max_transaction_actions (length actions)
      then (
        eden (record {
          class = action_execution_error;
          message = "Transaction exceeds the configured action ceiling.";
        }),
        w,
      )
      else transact actions [] [] w

  -- `rollback`
  unfoldable pub rollback : ExecutionRecord → Preparation → Eff W ExecutionRecord
  rollback r preparation w = elim preparation.rollback [
    | none ↦ (
      eden (record {
        class = rollback_error;
        message = "This action was irreversible; there is no plan to apply.";
      }),
      w,
    )
    | some plan ↦
        let (back, w₁) = apply_rollback engine preparation w in
        let (stamped, w₂) =
          finish engine
            (record {
              action = r.action;
              status = if back then rolled_back else rollback_failed;
              verdict = r.verdict;
              permit = r.permit;
              result = r.result;
              rollback_applied = back;
              error = none;
              started_at = r.started_at;
              finished_at = none;
            })
            w₁ in
        (ok stamped, w₂)
  ]
