-- ===== src/Execution/Engine/Stranded.antt =====
-- Two ways in which `submit_transaction` of src/eden/execution/engine.py ends short.
use eden_os.Prelude.{
  ℕ, true, false, List, [], ◌∷◌, ◌++◌, ◌≡◌, none, sym, ap, ◌∙◌, arith, length, ◌≤◌,
}
use eden_os.Effect.{Outcome, ok, eden}
use eden_os.Enums.{is_succeeded}
use eden_os.Execution.Types.{Action, Preparation, Verdict, ExecutionRecord, TransactionResult}
use eden_os.Execution.Engine.Base.{ActionHandler, Engine, handler_for, prepare, finish, not_found}
use eden_os.Execution.Engine.{authorise, submit_with, transact, submit_transaction, Completed}
use eden_os.Execution.Engine.Transaction.{
  attempted, transact-missing, transact-goes_on, transact-stops, missing, goes_on, stops, round,
  submit_transaction-runs,
}

module _ {W : Type 0} (engine : Engine W) where
  transact-missing_later :
      (before : List Action) (action : Action) (after : List Action)
      (records : List ExecutionRecord) (completed : List (Completed engine)) (w w' : W)
      {t : TransactionResult}
      → transact engine before records completed w ≡ (ok t, w')
      → t.succeeded ≡ true
      → handler_for engine action.kind ≡ none
      → transact engine (before ++ action ∷ after) records completed w ≡ (eden not_found, w')
  transact-missing_later [] action after records completed w w' h all_done e =
      unfold transact in ground arith
  transact-missing_later (a ∷ before) action after records completed w w' {t} h all_done e =
      elim (round engine a w) [
        | missing m ↦
            absurd (ground (arith, transact-missing engine a before records completed w m))
        | goes_on hd found done ↦
            let r = (attempted engine hd a w).0 in
            let p = (prepare engine hd a w).0 in
            transact-goes_on engine a (before ++ action ∷ after) records completed w hd found done
            ∙ transact-missing_later before action after (records ++ r ∷ [])
                (completed ++ (r, p) ∷ []) (attempted engine hd a w).1 w'
                (sym (transact-goes_on engine a before records completed w hd found done) ∙ h)
                all_done e
        | stops hd found undone ↦
            absurd
              (ground (arith, transact-stops engine a before records completed w hd found undone))
      ]

  authorise_dry :
      (h : ActionHandler W) (a : Action) (v : Verdict) (p : Preparation) (started : ℕ) (w : W)
      → engine.config.dry_run ≡ true
      → is_succeeded (authorise engine h a v p started w).0.status ≡ false
  unfolding authorise finish
  authorise_dry h a v p started w dry = ground arith

  attempted_dry :
      (h : ActionHandler W) (a : Action) (w : W)
      → engine.config.dry_run ≡ true
      → is_succeeded (attempted engine h a w).0.status ≡ false
  unfolding submit_with
  attempted_dry h a w dry =
      let (p, v) = prepare engine h a (prepare engine h a w).1 in
      authorise_dry h a (engine.verifier a p v) p _ v dry

-- An unknown kind in the middle of a transaction strands what was done: if the actions before it
-- all succeed and leave the world at `w'`, and `action` has no handler, then `submit_transaction`
-- raises `HandlerNotFoundError` and leaves the world at `w'`; none of the completed actions is
-- compensated.
pub submit_transaction_strands :
    {W : Type 0} (engine : Engine W) (before : List Action) (action : Action) (after : List Action)
    (w w' : W) {t : TransactionResult}
    → length (before ++ action ∷ after) ≤ engine.config.max_transaction_actions
    → submit_transaction engine before w ≡ (ok t, w')
    → t.succeeded ≡ true
    → handler_for engine action.kind ≡ none
    → submit_transaction engine (before ++ action ∷ after) w ≡ (eden not_found, w')
unfolding submit_transaction
submit_transaction_strands {W} engine before action after w w' {t} fits h all_done e = ground (
  arith,
  transact-missing_later engine before action after [] [] w w' {t = t}
      (sym (
          submit_transaction-runs engine before w {t = t}
            (ap (λ (o : Outcome TransactionResult × W). o.0) h))
        ∙ h)
      all_done e,
)

-- In a dry run a transaction of one action or more never succeeds: it either raises, or returns a
-- result that is not `succeeded` and holds the record of the first action alone.
pub submit_transaction_dry :
    {W : Type 0} (engine : Engine W) (action : Action) (actions : List Action) (w : W)
    {t : TransactionResult}
    → engine.config.dry_run ≡ true
    → (submit_transaction engine (action ∷ actions) w).0 ≡ ok t
    → (t.succeeded ≡ false) × (length t.records ≡ 1)
submit_transaction_dry engine action actions w {t} dry h =
    let runs = submit_transaction-runs engine (action ∷ actions) w h in
    elim (round engine action w) [
      | missing m ↦ absurd (ground (arith, runs, transact-missing engine action actions [] [] w m))
      | goes_on hd found done ↦ absurd (ground (arith, done, attempted_dry engine hd action w dry))
      | stops hd found undone ↦
          let step = transact-stops engine action actions [] [] w hd found undone in
          (ground (arith, runs, step), ground (arith, runs, step))
    ]
