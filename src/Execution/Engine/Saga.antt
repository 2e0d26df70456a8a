-- ===== src/Execution/Engine/Saga.antt =====
-- The saga of `submit_transaction`: a failed transaction puts the world back.
use mathlib.Core.List.{reverse, reverse-append}
use eden_os.Prelude.{
  Bool, true, false, none, some, List, [], ◌∷◌, ◌++◌, ◌≡◌, ◌≢◌, refl, sym, ap, ◌∙◌, arith,
  Bool-cases, inl, inr,
}
use eden_os.Effect.{Outcome, ok}
use eden_os.Enums.{ActionKind, failed}
use eden_os.Execution.Types.{
  Action, Preparation, Verdict, ExecutionRecord, TransactionResult, failed_record,
}
use eden_os.Execution.Engine.Base.{ActionHandler, Engine, handler_for, prepare, compensate_one}
use eden_os.Execution.Engine.{compensate_all, compensate, transact, submit_transaction, Completed}
use eden_os.Execution.Engine.Settled.{submit_with_undone, submit_with_unchanged, state-prepare}
use eden_os.Execution.Engine.Transaction.{
  failed_record-append, failed_record-append_none, attempted, transact-missing, transact-goes_on,
  transact-stops, submit_transaction-runs, missing, goes_on, stops, round,
}

module _ {W : Type 0} (engine : Engine W) where
  -- One failed step makes the whole compensation fail, though the later steps are still made.
  compensate_all-false :
      (l : List (Completed engine)) (w : W) → (compensate_all engine l false w).0 ≡ false
  unfolding compensate_all
  compensate_all-false [] w = refl
  compensate_all-false ((r, p) ∷ rest) w = compensate_all-false rest (compensate_one engine p w).1

  compensate_all-cons :
      (r : ExecutionRecord) (p : Preparation) (rest : List (Completed engine)) (w : W) {b : Bool}
      → (compensate_one engine p w).0 ≡ b
      → compensate_all engine ((r, p) ∷ rest) true w
        ≡ compensate_all engine rest b (compensate_one engine p w).1
  unfolding compensate_all
  compensate_all-cons r p rest w e =
      ap (λ (b : Bool). compensate_all engine rest b (compensate_one engine p w).1) e

  module _ {D : Type 0} (state : W → D) where
    -- Compensating the list, which is in the order of compensation, leads from `s` to `start`.
    abbrev Chain : List (Completed engine) → D → D → Type 0
    Chain [] start s = s ≡ start
    Chain ((r, p) ∷ rest) start s =
        (s₁ : D) × ((w : W)
          → state w ≡ s
          → (compensate_one engine p w).0 ≡ true
          → state (compensate_one engine p w).1 ≡ s₁)
        × Chain rest start s₁

    compensate_all-restores :
        (l : List (Completed engine)) (w : W) (start s : D)
        → Chain l start s
        → state w ≡ s
        → (compensate_all engine l true w).0 ≡ true
        → state (compensate_all engine l true w).1 ≡ start
    unfolding compensate_all
    compensate_all-restores [] w start s chain at good = at ∙ chain
    compensate_all-restores ((r, p) ∷ rest) w start s (s₁, back, chain) at good =
        let w' = (compensate_one engine p w).1 in
        elim (Bool-cases (compensate_one engine p w).0) [
          | inl done ↦
              let step = compensate_all-cons r p rest w done in
              ap (λ (o : Bool × W). state o.1) step
              ∙ compensate_all-restores rest w' start s₁ chain (back w at done)
                  (sym (ap (λ (o : Bool × W). o.0) step) ∙ good)
          | inr stuck ↦ cc (
            compensate_all-false rest w',
            ap (λ (o : Bool × W). o.0) (compensate_all-cons r p rest w stuck),
          )
        ]

-- The world and its handlers, seen through `state`: preparing, asking and journalling leave it
-- alone, and a handler's plan undoes what its `execute` did.
module _ {W D : Type 0} (engine : Engine W) (state : W → D)
    (by_prepare : (kind : ActionKind) (h : ActionHandler W)
      → handler_for engine kind ≡ some h
      → (a : Action) (w : W) → state (h.prepare a w).1 ≡ state w)
    (by_gate : (a : Action) (v : Verdict) (w : W) → state (engine.gate.request a v w).1 ≡ state w)
    (by_append : (r : ExecutionRecord) (w : W) → state (engine.append r w).1 ≡ state w)
    (undo : (kind : ActionKind) (h : ActionHandler W)
      → handler_for engine kind ≡ some h
      → (a : Action) (p : Preparation) (w w₁ w₂ : W) → state w₁ ≡ state w
      → state w₂ ≡ state (h.execute a p w₁).1
      → (compensate_one engine (prepare engine h a w).0 w₂).0 ≡ true
      → state (compensate_one engine (prepare engine h a w).0 w₂).1 ≡ state w) where
  compensate-restores :
      (completed : List (Completed engine)) (w : W) (start : D)
      → Chain engine state (reverse completed) start (state w)
      → (compensate engine completed w).0 ≡ true
      → state (compensate engine completed w).1 ≡ start
  unfolding compensate
  compensate-restores completed w start chain good =
      compensate_all-restores engine state (reverse completed) w start (state w) chain refl good

  -- What a successful round adds to the chain.
  Chain-snoc :
      (completed : List (Completed engine)) (r : ExecutionRecord) (p : Preparation) (start s s₁ : D)
      → ((w : W)
          → state w ≡ s
          → (compensate_one engine p w).0 ≡ true
          → state (compensate_one engine p w).1 ≡ s₁)
      → Chain engine state (reverse completed) start s₁
      → Chain engine state (reverse (completed ++ (r, p) ∷ [])) start s
  Chain-snoc completed r p start s s₁ back chain =
      rw (reverse-append completed ((r, p) ∷ [])) (s₁, back, chain)

  prepared_same :
      (kind : ActionKind) (h : ActionHandler W)
      → handler_for engine kind ≡ some h
      → (a : Action) (w : W) → state (prepare engine h a w).1 ≡ state w
  prepared_same = state-prepare engine state by_prepare by_gate by_append

  transact-restores :
      (start : D) (actions : List Action) (records : List ExecutionRecord)
      (completed : List (Completed engine)) (w : W) {t : TransactionResult}
      → failed_record records ≡ none
      → Chain engine state (reverse completed) start (state w)
      → (transact engine actions records completed w).0 ≡ ok t
      → t.succeeded ≡ false
      → t.compensated ≡ true
      → ((r : ExecutionRecord) → failed_record t.records ≡ some r → r.status ≢ failed)
      → state (transact engine actions records completed w).1 ≡ start
  transact-restores start [] records completed w clean chain h lost back sound =
      unfold transact in ground arith
  transact-restores start (a ∷ actions) records completed w {t} clean chain h lost back sound =
      elim (round engine a w) [
        | missing e ↦
            absurd (ground (arith, transact-missing engine a actions records completed w e))
        | goes_on hd found done ↦
            let (r, w₂) = attempted engine hd a w in
            let (p, w₁) = prepare engine hd a w in
            let step = transact-goes_on engine a actions records completed w hd found done in
            ap (λ (o : Outcome TransactionResult × W). state o.1) step
            ∙ transact-restores start actions (records ++ r ∷ []) (completed ++ (r, p) ∷ []) w₂
                (failed_record-append_none records r clean done)
                (Chain-snoc completed r p start (state w₂) (state w)
                  (λ w₃ at good.
                    submit_with_undone engine state by_prepare by_gate by_append undo a.kind hd
                      found a w w₁ w₃ (prepared_same a.kind hd found a w) done at good)
                  chain)
                (ap (λ (o : Outcome TransactionResult × W). o.0) (sym step) ∙ h) lost back sound
        | stops hd found undone ↦
            let (r, w₂) = attempted engine hd a w in
            let step = transact-stops engine a actions records completed w hd found undone in
            let recorded : t.records ≡ records ++ r ∷ [] = ground (arith, step) in
            let failing = ap failed_record recorded ∙ failed_record-append records r clean undone in
            let same : state w₂ ≡ state w =
              submit_with_unchanged engine state by_prepare by_gate by_append undo a.kind hd found a
                (prepare engine hd a w).1 undone (sound r failing)
              ∙ prepared_same a.kind hd found a w in
            ap (λ (o : Outcome TransactionResult × W). state o.1) step
            ∙ compensate-restores completed w₂ start (rw same chain) (ground (arith, step))
      ]

  -- A transaction that failed and reports that it was compensated has put the world back. `state` is
  -- a view of the world that preparation, the gate and the journal leave alone, and a handler's plan
  -- undoes its `execute` on it: from any world that looks as `execute` left it, running the plan of
  -- a preparation made before leads back to how that preparation found it, if each step passes. If
  -- the failing action did not itself end as `FAILED` (it was rejected, denied, skipped, or rolled
  -- back), then `state` is after the transaction as it was before.
  pub submit_transaction-restores :
      (actions : List Action) (w : W) {t : TransactionResult}
      → (submit_transaction engine actions w).0 ≡ ok t
      → t.succeeded ≡ false
      → t.compensated ≡ true
      → ((r : ExecutionRecord) → failed_record t.records ≡ some r → r.status ≢ failed)
      → state (submit_transaction engine actions w).1 ≡ state w
  unfolding failed_record
  submit_transaction-restores actions w h lost back sound =
      let runs = submit_transaction-runs engine actions w h in
      ap (λ (o : Outcome TransactionResult × W). state o.1) runs
      ∙ transact-restores (state w) actions [] [] w refl refl
          (ap (λ (o : Outcome TransactionResult × W). o.0) (sym runs) ∙ h) lost back sound
