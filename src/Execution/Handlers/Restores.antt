-- ===== src/Execution/Handlers/Restores.antt =====
-- A transaction over the shipped handlers puts the files back.
use eden_os.Prelude.{
  String, Bool, true, false, Option, none, some, List, ◌≡◌, ◌≢◌, refl, sym, ap, ◌∙◌, arith, inl,
  inr, ◌⊎◌, fun_ext, subst,
}
use eden_os.Prelude.Dict
use eden_os.Effect.{Outcome, ok, eden, crash}
use eden_os.Enums.{
  ActionKind, noop, file_write, file_delete, shell_command, device_command, custom, failed,
}
use eden_os.Execution.Types.{
  Action, RollbackPlan, Preparation, Verdict, ExecutionRecord, TransactionResult, failed_record,
}
use eden_os.Execution.Verification.Scope.{Parts}
use eden_os.Execution.Engine.Base.{
  ActionHandler, Engine, handler_for, prepare, run_steps, apply_rollback, compensate_one,
}
use eden_os.Execution.Engine.{submit_transaction}
use eden_os.Execution.Engine.Saga.{submit_transaction-restores}
use eden_os.Execution.Handlers.Newlines.{normal}
use eden_os.Execution.Handlers.Base.{text_file, Machine, text_parameter, read_text_or_none}
use eden_os.Execution.Handlers.{
  path_of, prepare_write, prepare_delete, default_handlers, no_op_handler, file_write_handler,
  file_delete_handler,
}
use eden_os.Execution.Handlers.Command.{shell_command_handler, prepare_command}
use eden_os.Execution.Handlers.Plans.{
  look, IsFileSystem, Plan, no_plan, empty_plan, delete_plan, restore_plan, Plan-write, Plan-delete,
}
use eden_os.Execution.Handlers.ReadOnly.{
  ReadOnly, file_write_handler-ReadOnly, file_delete_handler-ReadOnly,
  shell_command_handler-ReadOnly,
}
use eden_os.Execution.Handlers.Undo.{
  compensates, compensate-none, compensate-plan, run-write, write_elsewhere, delete_elsewhere,
  delete_absent, find_write, find_delete,
}

some_inj : {A : Type 0} {x y : A} → some x ≡ some y → x ≡ y
some_inj h = cc

module _ {W : Type 0} (machine : Machine W) (engine : Engine W)
    (shipped : engine.handlers ≡ default_handlers machine engine.config)
    (fs : IsFileSystem machine engine.config) where
  abbrev at : String → Parts
  at raw = path_of machine engine.config raw

  -- What a preparation holds: nothing, or a plan for the path that the action names.
  abbrev Planned : Bool → Action → W → Option RollbackPlan → Type 0
  Planned idle a w r =
      (r ≡ none)
      ⊎ ((raw : String) × (text_parameter a "path" ≡ ok raw)
          × Plan machine engine.config idle (at raw) w r)

  Planned-write :
      (a : Action) (w : W)
      → Planned false a w (prepare engine (file_write_handler machine engine.config) a w).0.rollback
  unfolding prepare file_write_handler prepare_write
  Planned-write a w = go (text_parameter a "path") refl
    where
      go :
          (o : Outcome String)
          → text_parameter a "path" ≡ o
          → Planned false a w
              (prepare engine (file_write_handler machine engine.config) a w).0.rollback
      go (ok raw) e =
          inr (raw, e, rw e (Plan-write machine engine.config (at raw) w a _ _ refl refl))
      go (eden x) e = inl (rw e refl)
      go (crash t m) e = inl (rw e refl)

  Planned-delete :
      (a : Action) (w : W)
      → Planned true a w (prepare engine (file_delete_handler machine engine.config) a w).0.rollback
  unfolding prepare file_delete_handler prepare_delete
  Planned-delete a w = go (text_parameter a "path") refl
    where
      go :
          (o : Outcome String)
          → text_parameter a "path" ≡ o
          → Planned true a w
              (prepare engine (file_delete_handler machine engine.config) a w).0.rollback
      go (ok raw) e =
          inr (raw, e, rw e (Plan-delete machine engine.config (at raw) w a _ _ _ refl refl))
      go (eden x) e = inl (rw e refl)
      go (crash t m) e = inl (rw e refl)

  irrevocable :
      (a : Action) (w : W) → (prepare engine (shell_command_handler machine) a w).0.rollback ≡ none
  unfolding prepare shell_command_handler prepare_command
  irrevocable a w = go (text_parameter a "command") refl
    where
      go :
          (o : Outcome String)
          → text_parameter a "command" ≡ o
          → (prepare engine (shell_command_handler machine) a w).0.rollback ≡ none
      go (ok raw) e = rw e refl
      go (eden x) e = rw e refl
      go (crash t m) e = rw e refl

  module _ (a : Action) (p : Preparation) (w w₁ w₂ : W)
      (alike : look machine w₁ ≡ look machine w) where
    -- The handler `h` prepared at `w` and executed at `w₁`, undone at `w₂`.
    abbrev Undoes : ActionHandler W → Type 0
    Undoes h =
        look machine w₂ ≡ look machine (h.execute a p w₁).1
        → (compensate_one engine (prepare engine h a w).0 w₂).0 ≡ true
        → look machine (compensate_one engine (prepare engine h a w).0 w₂).1 ≡ look machine w

    undo_write : Undoes (file_write_handler machine engine.config)
    unfolding file_write_handler
    undo_write left passed =
        let p₀ = (prepare engine (file_write_handler machine engine.config) a w).0 in
        elim (Planned-write a w) [
          | inl e ↦ cc (compensate-none machine engine shipped fs p₀ w₂ e, passed)
          | inr (raw, e, plan) ↦ fun_ext (
              compensates machine engine shipped fs false raw w w₂ p₀ plan
                (λ q other.
                  ap (λ (f : Parts → _). f q) left
                  ∙ write_elsewhere machine engine shipped fs raw a p w₁ e q other
                  ∙ ap (λ (f : Parts → _). f q) alike)
                (λ never. cc) passed)
        ]

    undo_delete : Undoes (file_delete_handler machine engine.config)
    unfolding file_delete_handler
    undo_delete left passed =
        let p₀ = (prepare engine (file_delete_handler machine engine.config) a w).0 in
        elim (Planned-delete a w) [
          | inl e ↦ cc (compensate-none machine engine shipped fs p₀ w₂ e, passed)
          | inr (raw, e, plan) ↦ fun_ext (
              compensates machine engine shipped fs true raw w w₂ p₀ plan
                (λ q other.
                  ap (λ (f : Parts → _). f q) left
                  ∙ delete_elsewhere machine engine shipped fs raw a p w₁ e q other
                  ∙ ap (λ (f : Parts → _). f q) alike)
                (λ able absent.
                  ap (λ (f : Parts → _). f (at raw)) left
                  ∙ delete_absent machine engine shipped fs raw a p w₁ e
                      (ap (λ (f : Parts → _). f (at raw)) alike ∙ absent))
                passed)
        ]

    undo_no_op : Undoes (no_op_handler machine engine.config)
    unfolding prepare compensate_one apply_rollback run_steps
    undo_no_op left passed = left ∙ alike

    undo_command : Undoes (shell_command_handler machine)
    undo_command left passed =
        let p₀ = (prepare engine (shell_command_handler machine) a w).0 in
        cc (compensate-none machine engine shipped fs p₀ w₂ (irrevocable a w), passed)

  -- What the shipped handlers owe to a transaction.
  record IsUndoable (h : ActionHandler W) : Type 0 where
    read_only : ReadOnly machine engine.config h
    undoes :
        (a : Action) (p : Preparation) (w w₁ w₂ : W) (alike : look machine w₁ ≡ look machine w)
        → Undoes a p w w₁ w₂ alike h

  found_no_op : handler_for engine noop ≡ some (no_op_handler machine engine.config)
  unfolding handler_for Dict.get
  found_no_op = rw shipped refl

  found_command : handler_for engine shell_command ≡ some (shell_command_handler machine)
  unfolding handler_for Dict.get
  found_command = rw shipped refl

  found_device : handler_for engine device_command ≡ none
  unfolding handler_for Dict.get
  found_device = rw shipped refl

  found_custom : handler_for engine custom ≡ none
  unfolding handler_for Dict.get
  found_custom = rw shipped refl

  handler_for-IsUndoable :
      (kind : ActionKind) (h : ActionHandler W) → handler_for engine kind ≡ some h → IsUndoable h
  handler_for-IsUndoable noop h found =
      subst IsUndoable (some_inj (sym (found_no_op) ∙ found)) (record {
        read_only = λ a w. refl;
        undoes = λ a p w w₁ w₂ alike. undo_no_op a p w w₁ w₂ alike;
      })
  handler_for-IsUndoable file_write h found =
      subst IsUndoable (some_inj (sym (find_write machine engine shipped fs) ∙ found)) (record {
        read_only = file_write_handler-ReadOnly machine engine.config;
        undoes = λ a p w w₁ w₂ alike. undo_write a p w w₁ w₂ alike;
      })
  handler_for-IsUndoable file_delete h found =
      subst IsUndoable (some_inj (sym (find_delete machine engine shipped fs) ∙ found)) (record {
        read_only = file_delete_handler-ReadOnly machine engine.config;
        undoes = λ a p w w₁ w₂ alike. undo_delete a p w w₁ w₂ alike;
      })
  handler_for-IsUndoable shell_command h found =
      subst IsUndoable (some_inj (sym (found_command) ∙ found)) (record {
        read_only = shell_command_handler-ReadOnly machine engine.config;
        undoes = λ a p w w₁ w₂ alike. undo_command a p w w₁ w₂ alike;
      })
  handler_for-IsUndoable device_command h found = absurd (cc (found_device, found))
  handler_for-IsUndoable custom h found = absurd (cc (found_custom, found))

  -- What a rolled back overwrite leaves: if the file held the text `s` when the write was prepared
  -- and the compensation passes, then the file holds `s` with its line ends made `\n`, whatever stood
  -- there in between.
  pub overwrite_restored :
      (a : Action) (raw s : String) (w w₂ : W)
      → text_parameter a "path" ≡ ok raw
      → machine.file (at raw) w ≡ text_file s
      → (compensate_one engine
          (prepare engine (file_write_handler machine engine.config) a w).0
          w₂).0
        ≡ true
      → machine.file
          (at raw)
          (compensate_one engine
            (prepare engine (file_write_handler machine engine.config) a w).0
            w₂).1
        ≡ text_file (normal s)
  unfolding read_text_or_none
  overwrite_restored a raw s w w₂ named held passed =
      let p₀ = (prepare engine (file_write_handler machine engine.config) a w).0 in
      elim (Planned-write a w) [
        | inl e ↦ absurd (cc (compensate-none machine engine shipped fs p₀ w₂ e, passed))
        | inr (raw', named', plan) ↦
            let raw≡ : raw ≡ raw' = ground (arith, named, named') in
            elim plan [
              | no_plan e ↦ absurd (cc (compensate-none machine engine shipped fs p₀ w₂ e, passed))
              | empty_plan description able e gone ↦ absurd (cc able)
              | delete_plan description step e kind path gone ↦
                  absurd (ground (arith, raw≡, held, gone))
              | restore_plan description step previous e kind path content read ↦
                  let ran =
                    compensate-plan machine engine shipped fs p₀ _ w₂ e
                    ∙ run-write machine engine shipped fs raw' step previous w₂ kind path content in
                  let text : previous ≡ normal s = ground (arith, raw≡, held, read) in
                  ap (λ o. machine.file (at raw) o.1) ran
                  ∙ ap (λ r. machine.file (at r) (machine.write_text (at raw') previous w₂).1) raw≡
                  ∙ fs.written (at raw') previous w₂ (sym (ap (λ o. o.0) ran) ∙ passed)
                  ∙ ap text_file text
            ]
      ]

-- Over the handlers that EDEN ships with, a transaction that failed and reports that it was
-- compensated has put every file back, up to its line ends: what a text reader sees of the files
-- after it is what it saw before. The file system keeps the laws of `IsFileSystem`, the gate and the
-- journal leave the files alone, and the action that failed did not itself end as `FAILED`.
pub files_restored :
    {W : Type 0} (machine : Machine W) (engine : Engine W)
    → engine.handlers ≡ default_handlers machine engine.config
    → IsFileSystem machine engine.config
    → ((a : Action) (v : Verdict) (w : W)
        → look machine (engine.gate.request a v w).1 ≡ look machine w)
    → ((r : ExecutionRecord) (w : W) → look machine (engine.append r w).1 ≡ look machine w)
    → (actions : List Action) (w : W) {t : TransactionResult}
    → (submit_transaction engine actions w).0 ≡ ok t
    → t.succeeded ≡ false
    → t.compensated ≡ true
    → ((r : ExecutionRecord) → failed_record t.records ≡ some r → r.status ≢ failed)
    → look machine (submit_transaction engine actions w).1 ≡ look machine w
files_restored machine engine shipped fs by_gate by_append actions w h lost back sound =
    submit_transaction-restores engine (look machine)
      (λ kind hd found a v.
        ap (look machine)
          ((handler_for-IsUndoable machine engine shipped fs kind hd found).read_only a v))
      by_gate by_append
      (λ kind hd found a p v v₁ v₂ alike left passed.
        (handler_for-IsUndoable machine engine shipped fs kind hd found).undoes a p v v₁ v₂ alike
          left passed)
      actions w h lost back sound
