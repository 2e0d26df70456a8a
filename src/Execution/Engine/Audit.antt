-- ===== src/Execution/Engine/Audit.antt =====
-- The audit trail of the engine: which records reach the journal.
use eden_os.Prelude.{
  ℕ, Bool, true, some, List, [], ◌∷◌, ◌++◌, ◌≡◌, refl, sym, ap, ◌∙◌, arith, Option-cases, inl, inr,
  ◌&&◌,
}
use mathlib.Core.List.{append_assoc, append-nil, reverse}
use eden_os.Effect.{Outcome, ok, eden, crash}
use eden_os.Enums.{ActionKind}
use eden_os.Execution.Types.{
  Action, Preparation, Verdict, Permit, ExecutionResult, ExecutionRecord, TransactionResult,
}
use eden_os.Errors.{Failure}
use eden_os.Execution.Permissions.{decide}
use eden_os.Execution.Engine.Base.{
  ActionHandler, Engine, handler_for, prepare, finish, run_steps, apply_rollback, compensate_one,
  empty_preparation,
}
use eden_os.Execution.Engine.{
  fail, conclude, execute, authorise, submit_with, submit, compensate_all, compensate, transact,
  submit_transaction, Completed,
}
use eden_os.Execution.Engine.Gated.{submit-with}
use eden_os.Execution.Engine.Transaction.{attempted}

-- A journal that keeps what it is given and that only the engine writes to: `entries` reads it.
module _ {W : Type 0} (engine : Engine W) (entries : W → List ExecutionRecord)
    (by_prepare : (kind : ActionKind) (h : ActionHandler W)
      → handler_for engine kind ≡ some h
      → (a : Action) (w : W) → entries (h.prepare a w).1 ≡ entries w)
    (by_execute : (kind : ActionKind) (h : ActionHandler W)
      → handler_for engine kind ≡ some h
      → (a : Action) (p : Preparation) (w : W) → entries (h.execute a p w).1 ≡ entries w)
    (by_gate : (a : Action) (v : Verdict) (w : W)
      → entries (engine.gate.request a v w).1 ≡ entries w)
    (by_append : (r : ExecutionRecord) (w : W)
      → entries (engine.append r w).1 ≡ entries w ++ r ∷ []) where
  entries-decide :
      (a : Action) (v : Verdict) (w : W)
      → entries (decide engine.config engine.gate a v w).1 ≡ entries w
  unfolding decide
  entries-decide a v w = ground (arith, by_gate a v w)

  entries-finish :
      (r : ExecutionRecord) (w : W)
      → entries (finish engine r w).1 ≡ entries w ++ (finish engine r w).0 ∷ []
  unfolding finish
  entries-finish r w = by_append _ w

  entries-run_steps :
      (steps : List Action) (w : W) → entries (run_steps engine steps w).1 ≡ entries w
  unfolding run_steps
  entries-run_steps [] w = refl
  entries-run_steps (step ∷ steps) w = elim (Option-cases (handler_for engine step.kind)) [
    | inl missing ↦ ground arith
    | inr (h, found) ↦ ground (
      arith,
      by_execute step.kind h found step empty_preparation w,
      entries-run_steps steps (h.execute step empty_preparation w).1,
    )
  ]

  entries-compensate_one :
      (p : Preparation) (w : W) → entries (compensate_one engine p w).1 ≡ entries w
  unfolding compensate_one apply_rollback
  entries-compensate_one p w = elim (Option-cases p.rollback) [
    | inl missing ↦ ground arith
    | inr (plan, planned) ↦ ground (arith, entries-run_steps plan.steps w)
  ]

  -- A step of the pipeline that journals the record which it returns, and nothing else.
  abbrev Logs : W → ExecutionRecord × W → Type 0
  Logs w (r, w') = entries w' ≡ entries w ++ r ∷ []

  Logs-after :
      (w w' : W) (out : ExecutionRecord × W) → entries w' ≡ entries w → Logs w' out → Logs w out
  Logs-after w w' out same logs = cc

  Logs-fail :
      (a : Action) (v : Verdict) (q : Permit) (p : Preparation) (started : ℕ) (f : Failure) (w : W)
      → Logs w (fail engine a v q p started f w)
  unfolding fail
  Logs-fail a v q p started f w =
      let (back, w') = compensate_one engine p w in
      Logs-after w w' _ (entries-compensate_one p w) (entries-finish _ w')

  Logs-conclude :
      (a : Action) (v : Verdict) (q : Permit) (p : Preparation) (started : ℕ)
      (outcome : Outcome ExecutionResult) (w : W)
      → Logs w (conclude engine a v q p started outcome w)
  unfolding conclude
  Logs-conclude a v q p started (ok result) w = entries-finish _ w
  Logs-conclude a v q p started (eden e) w = Logs-fail a v q p started _ w
  Logs-conclude a v q p started (crash t m) w = Logs-fail a v q p started _ w

  module _ (kind : ActionKind) (h : ActionHandler W)
      (found : handler_for engine kind ≡ some h) where
    Logs-execute :
        (a : Action) (v : Verdict) (q : Permit) (p : Preparation) (started : ℕ) (w : W)
        → Logs w (execute engine h a v q p started w)
    unfolding execute
    Logs-execute a v q p started w =
        let (outcome, w') = h.execute a p w in
        Logs-after w w' _ (by_execute kind h found a p w) (Logs-conclude a v q p started outcome w')

    Logs-authorise :
        (a : Action) (v : Verdict) (p : Preparation) (started : ℕ) (w : W)
        → Logs w (authorise engine h a v p started w)
    unfolding authorise
    Logs-authorise a v p started w =
        let (q, w') = decide engine.config engine.gate a v w in
        grind (arith, entries-decide a v w, entries-finish, Logs-execute a v q p started w')

    Logs-submit_with : (a : Action) (w : W) → Logs w (submit_with engine h a w)
    unfolding submit_with prepare
    Logs-submit_with a w =
        let (p, w') = prepare engine h a w in
        Logs-after w w' _ (by_prepare kind h found a w)
          (Logs-authorise a (engine.verifier a p w') p (engine.now w) w')

  entries-compensate_all :
      (completed : List (Completed engine)) (good : Bool) (w : W)
      → entries (compensate_all engine completed good w).1 ≡ entries w
  unfolding compensate_all
  entries-compensate_all [] good w = refl
  entries-compensate_all ((r, p) ∷ rest) good w =
      let (back, w') = compensate_one engine p w in
      entries-compensate_all rest (good && back) w' ∙ entries-compensate_one p w

  entries-compensate :
      (completed : List (Completed engine)) (w : W)
      → entries (compensate engine completed w).1 ≡ entries w
  unfolding compensate
  entries-compensate completed w = entries-compensate_all (reverse completed) true w

  entries-attempted :
      (base records : List ExecutionRecord) (kind : ActionKind) (h : ActionHandler W)
      → handler_for engine kind ≡ some h
      → (a : Action) (w : W) → entries w ≡ base ++ records
      → entries (attempted engine h a w).1 ≡ base ++ (records ++ (attempted engine h a w).0 ∷ [])
  unfolding prepare
  entries-attempted base records kind h found a w same =
      Logs-submit_with kind h found a (h.prepare a w).1
      ∙ ap (λ es. es ++ (attempted engine h a w).0 ∷ []) (by_prepare kind h found a w ∙ same)
      ∙ append_assoc base records ((attempted engine h a w).0 ∷ [])

  entries-transact :
      (base : List ExecutionRecord) (actions : List Action) (records : List ExecutionRecord)
      (completed : List (Completed engine)) (w : W) {t : TransactionResult}
      → entries w ≡ base ++ records
      → (transact engine actions records completed w).0 ≡ ok t
      → entries (transact engine actions records completed w).1 ≡ base ++ t.records
  unfolding transact
  entries-transact base [] records completed w same h = ground arith
  entries-transact base (a ∷ actions) records completed w {t} same h =
      elim (Option-cases (handler_for engine a.kind)) [
        | inl missing ↦ absurd (ground arith)
        | inr (handler, found) ↦
            let p = (prepare engine handler a w).0 in
            let (r, w₂) = attempted engine handler a w in
            let logged = entries-attempted base records a.kind handler found a w same in
            ground (
              arith,
              logged,
              entries-compensate completed w₂,
              entries-transact base actions (records ++ r ∷ []) (completed ++ (r, p) ∷ []) w₂
                  {t = t} logged,
            )
      ]

  -- Every submission leaves exactly one journal entry, its record, whether the action ran, was
  -- refused, failed or was rolled back: over a journal that keeps what it is given and that the
  -- handlers and the gate leave alone, `submit` appends the record that it returns and no other.
  pub entries-submit :
      (action : Action) (w : W) {r : ExecutionRecord}
      → (submit engine action w).0 ≡ ok r
      → entries (submit engine action w).1 ≡ entries w ++ r ∷ []
  entries-submit action w {r} h =
      let (handler, found, e, moved) = submit-with engine action w h in
      let logged = Logs-submit_with action.kind handler found action w in cc

  -- A transaction that returns a result, compensated or not, has added exactly the records of that
  -- result to the journal, in their order; compensation itself writes nothing there.
  pub entries-submit_transaction :
      (actions : List Action) (w : W) {t : TransactionResult}
      → (submit_transaction engine actions w).0 ≡ ok t
      → entries (submit_transaction engine actions w).1 ≡ entries w ++ t.records
  unfolding submit_transaction
  entries-submit_transaction actions w {t} h = ground (
    arith,
    append-nil (entries w),
    entries-transact (entries w) actions [] [] w {t = t} (sym (append-nil (entries w))),
  )
