-- ===== src/Execution/Engine/Settled.antt =====
-- What one submission of a transaction leaves behind: the part of the saga below `transact`.
use eden_os.Prelude.{ℕ, true, false, some, ◌≡◌, ◌≢◌, refl, ◌∙◌, arith, Bool-cases, inl, inr}
use eden_os.Effect.{Outcome, ok, eden, crash}
use eden_os.Enums.{ActionKind, ExecutionStatus, is_succeeded, rolled_back, failed}
use eden_os.Execution.Types.{Action, Preparation, Verdict, Permit, ExecutionResult, ExecutionRecord}
use eden_os.Errors.{Failure}
use eden_os.Execution.Permissions.{decide}
use eden_os.Execution.Engine.Base.{
  ActionHandler, Engine, handler_for, prepare, finish, compensate_one,
}
use eden_os.Execution.Engine.{fail, conclude, execute, authorise, submit_with, entry}
use eden_os.Execution.Engine.Gated.{obs-decide, obs-finish, is_performed, submit_with_inert}

rolled_back_left :
    (s : ExecutionStatus)
    → is_performed s ≡ true
    → is_succeeded s ≡ false
    → s ≢ failed
    → s ≡ rolled_back
rolled_back_left s p u f = ground arith

module _ {W D : Type 0} (engine : Engine W) (state : W → D)
    (by_prepare : (kind : ActionKind) (h : ActionHandler W)
      → handler_for engine kind ≡ some h
      → (a : Action) (w : W) → state (h.prepare a w).1 ≡ state w)
    (by_gate : (a : Action) (v : Verdict) (w : W) → state (engine.gate.request a v w).1 ≡ state w)
    (by_append : (r : ExecutionRecord) (w : W) → state (engine.append r w).1 ≡ state w) where
  state-finish : (r : ExecutionRecord) (w : W) → state (finish engine r w).1 ≡ state w
  state-finish r w = obs-finish engine state by_gate by_append r w

  state-decide :
      (a : Action) (v : Verdict) (w : W)
      → state (decide engine.config engine.gate a v w).1 ≡ state w
  state-decide a v w = obs-decide engine state by_gate by_append a v w

  pub state-prepare :
      (kind : ActionKind) (h : ActionHandler W)
      → handler_for engine kind ≡ some h
      → (a : Action) (w : W) → state (prepare engine h a w).1 ≡ state w
  unfolding prepare
  state-prepare kind h found a w = by_prepare kind h found a w

  module _ (h : ActionHandler W) (a : Action) (verdict : Verdict) (q : Permit) (p : Preparation)
      (started : ℕ) where
    -- What the record says of the world, when the handler's `execute` has left it at `v`.
    abbrev Settled : W → ExecutionRecord × W → Type 0
    Settled v out =
        (is_succeeded out.0.status ≡ true → state out.1 ≡ state v)
        × (out.0.status ≡ rolled_back
            → ((compensate_one engine p v).0 ≡ true)
              × (state out.1 ≡ state (compensate_one engine p v).1))

    Settled-fail : (f : Failure) (v : W) → Settled v (fail engine a verdict q p started f v)
    unfolding fail finish
    Settled-fail f v = (
      λ e. ground arith,
      λ e. ground (
        arith,
        by_append
            (record (entry a rolled_back verdict q started) {
              rollback_applied = true;
              error = some f;
              finished_at = some (engine.now (compensate_one engine p v).1);
            })
            (compensate_one engine p v).1,
      ),
    )

    Settled-conclude :
        (outcome : Outcome ExecutionResult) (v : W)
        → Settled v (conclude engine a verdict q p started outcome v)
    unfolding conclude finish
    Settled-conclude (ok result) v = (λ e. by_append _ v, λ e. ground arith)
    Settled-conclude (eden e) v = Settled-fail _ v
    Settled-conclude (crash t m) v = Settled-fail _ v

    Settled-execute :
        (w : W) → Settled (h.execute a p w).1 (execute engine h a verdict q p started w)
    unfolding execute
    Settled-execute w = let (outcome, v) = h.execute a p w in Settled-conclude outcome v

  module _ (h : ActionHandler W) (a : Action) (verdict : Verdict) (p : Preparation) (started : ℕ)
      (w : W) where
    abbrev asked : W
    asked = (decide engine.config engine.gate a verdict w).1

    Settled-authorise :
        Settled h a verdict
          (decide engine.config engine.gate a verdict w).0
          p
          started
          (h.execute a p asked).1
          (authorise engine h a verdict p started w)
    unfolding authorise finish
    Settled-authorise =
        let (done, back) =
          Settled-execute h a verdict (decide engine.config engine.gate a verdict w).0 p started
            asked in
        (λ e. ground (arith, done), λ e. ground (arith, back))

  module _
      (undo : (kind : ActionKind) (h : ActionHandler W)
        → handler_for engine kind ≡ some h
        → (a : Action) (p : Preparation) (w w₁ w₂ : W) → state w₁ ≡ state w
        → state w₂ ≡ state (h.execute a p w₁).1
        → (compensate_one engine (prepare engine h a w).0 w₂).0 ≡ true
        → state (compensate_one engine (prepare engine h a w).0 w₂).1 ≡ state w)
      (kind : ActionKind) (h : ActionHandler W) (found : handler_for engine kind ≡ some h)
      (a : Action) where
    -- A submission that succeeded is undone by the plan of any preparation made before it.
    pub submit_with_undone :
        (w w₁ w₂ : W)
        → state w₁ ≡ state w
        → is_succeeded (submit_with engine h a w₁).0.status ≡ true
        → state w₂ ≡ state (submit_with engine h a w₁).1
        → (compensate_one engine (prepare engine h a w).0 w₂).0 ≡ true
        → state (compensate_one engine (prepare engine h a w).0 w₂).1 ≡ state w
    unfolding submit_with
    submit_with_undone w w₁ w₂ same done at back =
        let (p, v) = prepare engine h a w₁ in
        let verdict = engine.verifier a p v in
        let settled = Settled-authorise h a verdict p (engine.now w₁) v in
        let v' = asked h a verdict p (engine.now w₁) v in
        undo kind h found a p w v' w₂
          (state-decide a verdict v ∙ state-prepare kind h found a w₁ ∙ same) (at ∙ settled.0 done)
          back

    rolled_back_unchanged :
        (w : W)
        → (submit_with engine h a w).0.status ≡ rolled_back
        → state (submit_with engine h a w).1 ≡ state w
    unfolding submit_with
    rolled_back_unchanged w e =
        let (p, v) = prepare engine h a w in
        let verdict = engine.verifier a p v in
        let settled = Settled-authorise h a verdict p (engine.now w) v in
        let v' = asked h a verdict p (engine.now w) v in
        let (back, moved) = settled.1 e in
        moved
        ∙ undo kind h found a p w v' (h.execute a p v').1
            (state-decide a verdict v ∙ state-prepare kind h found a w) refl back

    -- One that neither succeeded nor ended as `FAILED` left the world as it was.
    pub submit_with_unchanged :
        (w : W)
        → is_succeeded (submit_with engine h a w).0.status ≡ false
        → (submit_with engine h a w).0.status ≢ failed
        → state (submit_with engine h a w).1 ≡ state w
    submit_with_unchanged w unfinished sound =
        let out = submit_with engine h a w in
        elim (Bool-cases (is_performed out.0.status)) [
          | inr refused ↦
              submit_with_inert engine a w state by_gate by_append h (by_prepare kind h found a w)
                refused
          | inl reached ↦
              rolled_back_unchanged w (rolled_back_left out.0.status reached unfinished sound)
        ]
