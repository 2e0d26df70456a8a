-- ===== src/Execution/Engine/Transaction.antt =====
-- The shape of the result of `submit_transaction`.
use eden_os.Prelude.{
  ℕ, true, false, none, some, List, [], ◌∷◌, ◌++◌, ◌≡◌, refl, sym, ap, ◌∙◌, arith, Option-cases,
  Bool-cases, inl, inr, length, length-append, ◌+◌, ◌≤◌, ◌⊎◌, subst,
}
use eden_os.Effect.{Outcome, ok, eden}
use eden_os.Enums.{is_succeeded}
use eden_os.Execution.Types.{Action, ExecutionRecord, TransactionResult, failed_record}
use eden_os.Execution.Engine.Base.{ActionHandler, Engine, handler_for, prepare, not_found}
use eden_os.Execution.Engine.{submit_with, compensate, transact, submit_transaction, Completed}

-- The first record that did not succeed is the last one, if all before it succeeded.
pub failed_record-append :
    (xs : List ExecutionRecord) (r : ExecutionRecord)
    → failed_record xs ≡ none
    → is_succeeded r.status ≡ false
    → failed_record (xs ++ r ∷ []) ≡ some r
unfolding failed_record
failed_record-append [] r h e = ground arith
failed_record-append (x ∷ xs) r h e = ground (arith, failed_record-append xs r)

pub failed_record-append_none :
    (xs : List ExecutionRecord) (r : ExecutionRecord)
    → failed_record xs ≡ none
    → is_succeeded r.status ≡ true
    → failed_record (xs ++ r ∷ []) ≡ none
unfolding failed_record
failed_record-append_none [] r h e = ground arith
failed_record-append_none (x ∷ xs) r h e = ground (arith, failed_record-append_none xs r)

-- The result of a transaction of at most `n` records: all `n` succeeded, or the last one did not.
abbrev pub Shape : ℕ → TransactionResult → Type 0
Shape n t =
    (t.succeeded ≡ true) × (failed_record t.records ≡ none) × (length t.records ≡ n)
    ⊎ (t.succeeded ≡ false)
      × ((before : List ExecutionRecord) × (r : ExecutionRecord) × (t.records ≡ before ++ r ∷ [])
          × (failed_record before ≡ none)
          × (is_succeeded r.status ≡ false))
      × (length t.records ≤ n)

module _ {W : Type 0} (engine : Engine W) where
  -- One round of a transaction: the first preparation, and the submission after it.
  abbrev pub attempted : ActionHandler W → Action → W → ExecutionRecord × W
  attempted h a w = submit_with engine h a (prepare engine h a w).1

  module _ (a : Action) (actions : List Action) (records : List ExecutionRecord)
      (completed : List (Completed engine)) (w : W) where
    pub transact-missing :
        handler_for engine a.kind ≡ none
        → transact engine (a ∷ actions) records completed w ≡ (eden not_found, w)
    unfolding transact
    transact-missing e = ground arith

    module _ (h : ActionHandler W) (found : handler_for engine a.kind ≡ some h) where
      abbrev r : ExecutionRecord
      r = (attempted h a w).0

      pub transact-goes_on :
          is_succeeded r.status ≡ true
          → transact engine (a ∷ actions) records completed w
            ≡ transact engine actions
                (records ++ r ∷ [])
                (completed ++ (r, (prepare engine h a w).0) ∷ [])
                (attempted h a w).1
      unfolding transact
      transact-goes_on e = ground arith

      pub transact-stops :
          is_succeeded r.status ≡ false
          → let back = compensate engine completed (attempted h a w).1 in
            transact engine (a ∷ actions) records completed w ≡ (
              ok (record { records = records ++ r ∷ []; succeeded = false; compensated = back.0 }),
              back.1,
            )
      unfolding transact
      transact-stops e = ground arith

  -- The three ways that a round goes.
  pub data Round (a : Action) (w : W) : Type 0 where
    missing : handler_for engine a.kind ≡ none → Round a w
    goes_on :
        (h : ActionHandler W)
        → handler_for engine a.kind ≡ some h
        → is_succeeded (attempted h a w).0.status ≡ true
        → Round a w
    stops :
        (h : ActionHandler W)
        → handler_for engine a.kind ≡ some h
        → is_succeeded (attempted h a w).0.status ≡ false
        → Round a w

  pub round : (a : Action) (w : W) → Round a w
  round a w = elim (Option-cases (handler_for engine a.kind)) [
    | inl none_found ↦ missing none_found
    | inr (h, found) ↦ elim (Bool-cases (is_succeeded (attempted h a w).0.status)) [
      | inl done ↦ goes_on h found done
      | inr undone ↦ stops h found undone
    ]
  ]

  transact-Shape :
      (actions : List Action) (records : List ExecutionRecord) (completed : List (Completed engine))
      (w : W) {t : TransactionResult}
      → failed_record records ≡ none
      → (transact engine actions records completed w).0 ≡ ok t
      → Shape (length records + length actions) t
  transact-Shape [] records completed w clean h =
      unfold transact in inl (ground arith, ground arith, ground arith)
  transact-Shape (a ∷ actions) records completed w {t} clean h = elim (round a w) [
    | missing e ↦ absurd (ground (arith, transact-missing a actions records completed w e))
    | goes_on hd found done ↦
        let r = (attempted hd a w).0 in
        let step = transact-goes_on a actions records completed w hd found done in
        subst (λ k. Shape k t) (omega (arith, length-append records (r ∷ [])))
          (transact-Shape actions (records ++ r ∷ [])
            (completed ++ (r, (prepare engine hd a w).0) ∷ []) (attempted hd a w).1
            (failed_record-append_none records r clean done)
            (ap (λ (o : Outcome TransactionResult × W). o.0) (sym step) ∙ h))
    | stops hd found undone ↦
        let r = (attempted hd a w).0 in
        let step = transact-stops a actions records completed w hd found undone in
        inr (
          ground (arith, step),
          (records, r, ground (arith, step), clean, undone),
          ground (arith, step, length-append records (r ∷ [])),
        )
  ]

-- A transaction that returned a result was within the ceiling, and ran its loop.
pub submit_transaction-runs :
    {W : Type 0} (engine : Engine W) (actions : List Action) (w : W) {t : TransactionResult}
    → (submit_transaction engine actions w).0 ≡ ok t
    → submit_transaction engine actions w ≡ transact engine actions [] [] w
unfolding submit_transaction
submit_transaction-runs engine actions w h = ground arith

-- The result of a transaction has one of two shapes. Either every action succeeded, there is one
-- record for each, and the result says `succeeded`; or the result says that it did not succeed, the
-- last record is of an action that did not succeed, all records before it are of actions that did,
-- and there are no more records than actions.
pub submit_transaction-Shape :
    {W : Type 0} (engine : Engine W) (actions : List Action) (w : W) {t : TransactionResult}
    → (submit_transaction engine actions w).0 ≡ ok t
    → Shape (length actions) t
unfolding submit_transaction failed_record
submit_transaction-Shape engine actions w {t} h =
    subst (λ k. Shape k t) (omega arith)
      (transact-Shape engine actions [] [] w {t = t} refl (ground arith))
