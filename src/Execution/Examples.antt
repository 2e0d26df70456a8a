-- ===== src/Execution/Examples.antt =====
-- The properties of the execution subsystem at concrete inputs.
use eden_os.Prelude.{ℕ, true, false, Option, none, some, ◌≡◌, ◌≢◌, ◌++◌, refl, subst, List, [], ◌∷◌}
use eden_os.Effect.{Outcome, ok}
use eden_os.Enums.{
  ActionKind, noop, file_write, file_delete, shell_command, device_command, custom, failed,
}
use eden_os.Execution.Samples.{
  Desk, desk, config, engine, setter, set_to, last_word, value_of, plan_for, write,
}
use eden_os.Execution.Types.{
  Action, Preparation, ExecutionRecord, TransactionResult, blocked, risk, failed_record,
  blocking_findings,
}
use eden_os.Execution.Permissions.{decide}
use eden_os.Execution.Verification.{verify, default_verifier, collect}
use eden_os.Execution.Verification.Rules.{
  schema, schema_findings, workspace_scope, sensitive_path, command_allowlist, payload_size,
  reversibility, destructive, text_of, target_path, matches_glob, first_match,
}
use eden_os.Execution.Engine.{submit_with, submit, execute, compensate, submit_transaction}
use eden_os.Execution.Engine.Base.{
  ActionHandler, Engine, handler_for, prepare, finish, apply_rollback, compensate_one,
}
use eden_os.Execution.Engine.Saga.{submit_transaction-restores}
use eden_os.Execution.Engine.Gated.{is_performed, IsAuthorised, submit-IsAuthorised, submit_inert}
use eden_os.Execution.Engine.Audit.{entries-submit}
use eden_os.Execution.Engine.Transaction.{Shape, submit_transaction-Shape}
use eden_os.Prelude.Dict

-- All that a run of the desk computes with.
program : Unit {0}
unfolding submit submit_transaction submit_with execute compensate prepare finish compensate_one
    handler_for apply_rollback decide verify default_verifier collect blocked risk blocking_findings
    schema schema_findings workspace_scope sensitive_path command_allowlist payload_size
    reversibility destructive text_of target_path matches_glob first_match Dict.get failed_record
program = tt

some_eq {ℓ} : {A : Type ℓ} {a b : A} → some a ≡ some b → a ≡ b
some_eq e = cc

abbrev batch : List Action
batch = set_to 1 ∷ set_to 2 ∷ last_word ∷ []

only_setter :
    (kind : ActionKind) (h : ActionHandler Desk) → handler_for engine kind ≡ some h → setter ≡ h
unfolding program
only_setter custom h e = some_eq e
only_setter noop h e = cc
only_setter file_write h e = cc
only_setter file_delete h e = cc
only_setter shell_command h e = cc
only_setter device_command h e = cc

setter_reads :
    (kind : ActionKind) (h : ActionHandler Desk)
    → handler_for engine kind ≡ some h
    → (a : Action) (w : Desk) → (h.prepare a w).1.value ≡ w.value
setter_reads kind h found a w =
    subst (λ (g : ActionHandler Desk). (g.prepare a w).1.value ≡ w.value) (only_setter kind h found)
      refl

write_undone :
    (v : Option ℕ) (w w₁ w₂ : Desk)
    → w₁.value ≡ w.value
    → w₂.value ≡ (write v w₁).1.value
    → (compensate_one engine (record { rollback = plan_for v w.value; notes = [] }) w₂).0 ≡ true
    → (compensate_one engine (record { rollback = plan_for v w.value; notes = [] }) w₂).1.value
      ≡ w.value
unfolding program
write_undone none w w₁ w₂ same at back = cc
write_undone (some n) w w₁ w₂ same at back = refl

setter_undone :
    (kind : ActionKind) (h : ActionHandler Desk)
    → handler_for engine kind ≡ some h
    → (a : Action) (p : Preparation) (w w₁ w₂ : Desk) → w₁.value ≡ w.value
    → w₂.value ≡ (h.execute a p w₁).1.value
    → (compensate_one engine (prepare engine h a w).0 w₂).0 ≡ true
    → (compensate_one engine (prepare engine h a w).0 w₂).1.value ≡ w.value
unfolding prepare
setter_undone kind h found a p w w₁ w₂ =
    subst
      (λ (g : ActionHandler Desk).
        w₁.value ≡ w.value
        → w₂.value ≡ (g.execute a p w₁).1.value
        → (compensate_one engine (prepare engine g a w).0 w₂).0 ≡ true
        → (compensate_one engine (prepare engine g a w).0 w₂).1.value ≡ w.value)
      (only_setter kind h found) (write_undone (value_of (Dict.get "value" a.parameters)) w w₁ w₂)

abbrev batch_result : Outcome TransactionResult
batch_result = (submit_transaction engine batch desk).0

result_of : Outcome TransactionResult → TransactionResult
result_of (ok t) = t
result_of _ = record { records = []; succeeded = true; compensated = false }

batch_ok : batch_result ≡ ok (result_of batch_result)
unfolding program result_of
batch_ok = refl

batch_sound :
    (r : ExecutionRecord)
    → failed_record (result_of batch_result).records ≡ some r
    → r.status ≢ failed
unfolding program result_of
batch_sound r e = subst (λ (s : ExecutionRecord). s.status ≢ failed) (some_eq e) (λ x. cc)

batch_lost : (result_of batch_result).succeeded ≡ false
unfolding program result_of
batch_lost = refl

batch_back : (result_of batch_result).compensated ≡ true
unfolding program result_of
batch_back = refl

-- Two settings and a last word that the gate refuses: the number is back at 0.
submit_transaction-restores_example : (submit_transaction engine batch desk).1.value ≡ 0
submit_transaction-restores_example =
    submit_transaction-restores engine (λ w. w.value) setter_reads (λ a v w. refl) (λ r w. refl)
      setter_undone batch desk batch_ok batch_lost batch_back batch_sound

submit_transaction-Shape_example : Shape 3 (result_of batch_result)
submit_transaction-Shape_example = submit_transaction-Shape engine batch desk batch_ok

record_of : Outcome ExecutionRecord → ExecutionRecord → ExecutionRecord
record_of (ok r) d = r
record_of _ d = d

blank : ExecutionRecord
blank = record {
  action = last_word;
  status = failed;
  verdict = none;
  permit = none;
  result = none;
  rollback_applied = false;
  error = none;
  started_at = 0;
  finished_at = none;
}

abbrev submitted : Action → ExecutionRecord
submitted a = record_of (submit engine a desk).0 blank

submit_first : (submit engine (set_to 1) desk).0 ≡ ok (submitted (set_to 1))
unfolding program record_of
submit_first = refl

first_performed : is_performed (submitted (set_to 1)).status ≡ true
unfolding program record_of
first_performed = refl

submit_last : (submit engine last_word desk).0 ≡ ok (submitted last_word)
unfolding program record_of
submit_last = refl

last_refused : is_performed (submitted last_word).status ≡ false
unfolding program record_of
last_refused = refl

submit-IsAuthorised_example : IsAuthorised config (submitted (set_to 1))
submit-IsAuthorised_example =
    submit-IsAuthorised engine (set_to 1) desk submit_first first_performed

submit_inert_example : (submit engine last_word desk).1.value ≡ 0
submit_inert_example =
    submit_inert engine last_word desk (λ w. w.value)
      (λ h v found. setter_reads custom h found last_word v) (λ a verdict v. refl) (λ r v. refl)
      submit_last last_refused

setter_quiet :
    (kind : ActionKind) (h : ActionHandler Desk)
    → handler_for engine kind ≡ some h
    → (a : Action) (w : Desk) → (h.prepare a w).1.journal ≡ w.journal
setter_quiet kind h found a w =
    subst (λ (g : ActionHandler Desk). (g.prepare a w).1.journal ≡ w.journal)
      (only_setter kind h found) refl

write_quiet : (v : Option ℕ) (w : Desk) → (write v w).1.journal ≡ w.journal
write_quiet none w = refl
write_quiet (some n) w = refl

setter_silent :
    (kind : ActionKind) (h : ActionHandler Desk)
    → handler_for engine kind ≡ some h
    → (a : Action) (p : Preparation) (w : Desk) → (h.execute a p w).1.journal ≡ w.journal
setter_silent kind h found a p w =
    subst (λ (g : ActionHandler Desk). (g.execute a p w).1.journal ≡ w.journal)
      (only_setter kind h found) (write_quiet (value_of (Dict.get "value" a.parameters)) w)

entries-submit_example : (submit engine (set_to 1) desk).1.journal ≡ [] ++ submitted (set_to 1) ∷ []
entries-submit_example =
    entries-submit engine (λ w. w.journal) setter_quiet setter_silent (λ a v w. refl) (λ r w. refl)
      (set_to 1) desk submit_first

pair_runs : submit_transaction engine (set_to 1 ∷ []) desk ≡ (
  ok (result_of (submit_transaction engine (set_to 1 ∷ []) desk).0),
  (submit_transaction engine (set_to 1 ∷ []) desk).1,
)
unfolding program result_of
pair_runs = refl

pair_done : (result_of (submit_transaction engine (set_to 1 ∷ []) desk).0).succeeded ≡ true
unfolding program result_of
pair_done = refl

no_device : handler_for engine device_command ≡ none
unfolding program
no_device = refl

abbrev dry : Engine Desk
dry = record engine { config = record config { dry_run = true } }

abbrev dry_result : Outcome TransactionResult
dry_result = (submit_transaction dry (set_to 1 ∷ set_to 2 ∷ []) desk).0

dry_ok : dry_result ≡ ok (result_of dry_result)
unfolding program result_of
dry_ok = refl
