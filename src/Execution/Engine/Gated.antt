-- ===== src/Execution/Engine/Gated.antt =====
-- No effect without authorisation: what `submit` does to the world, and what its record says.
use eden_os.Prelude.{
  ℕ, Bool, true, false, some, ◌≡◌, ◌≤◌, refl, arith, inl, inr, Option-cases, subst, ◌∙◌,
}
use eden_os.Effect.{Outcome, ok, eden, crash}
use eden_os.Enums.{ExecutionStatus, rank, succeeded, failed, rolled_back}
use eden_os.Execution.Types.{
  Action, Preparation, Verdict, blocked, risk, Permit, ExecutionResult, ExecutionRecord,
  ExecutionConfig,
}
use eden_os.Execution.Permissions.{decide}
use eden_os.Execution.Permissions.Ladder.{granted_sound}
use eden_os.Execution.Engine.Base.{ActionHandler, Engine, handler_for, prepare, finish}
use eden_os.Execution.Engine.{execute, conclude, authorise, submit_with, submit}

-- The statuses of a record whose action reached its handler's `execute`.
abbrev pub is_performed : ExecutionStatus → Bool
is_performed succeeded = true
is_performed failed = true
is_performed rolled_back = true
is_performed _ = false

-- The record of an action that was performed was authorised: its verdict has no blocking finding and
-- a risk at most the ceiling, its permit is granted, and the engine is not in a dry run.
pub record IsAuthorised (config : ExecutionConfig) (r : ExecutionRecord) : Type 0 where
  pub verdict : Verdict
  pub permit : Permit
  pub verified : r.verdict ≡ some verdict
  pub permitted : r.permit ≡ some permit
  pub unblocked : blocked verdict ≡ false
  pub granted : permit.granted ≡ true
  pub tolerable : rank (risk verdict) ≤ rank config.deny_above_risk
  pub wet : config.dry_run ≡ false

module _ {W : Type 0} (engine : Engine W) where
  module _ {D : Type 0} (obs : W → D)
      (by_gate : (a : Action) (v : Verdict) (w : W) → obs (engine.gate.request a v w).1 ≡ obs w)
      (by_append : (r : ExecutionRecord) (w : W) → obs (engine.append r w).1 ≡ obs w) where
    -- A decision leaves the world as it is, or as the gate leaves it.
    pub obs-decide :
        (action : Action) (verdict : Verdict) (w : W)
        → obs (decide engine.config engine.gate action verdict w).1 ≡ obs w
    unfolding decide
    obs-decide action verdict w = ground (arith, by_gate action verdict w)

    pub obs-finish : (r : ExecutionRecord) (w : W) → obs (finish engine r w).1 ≡ obs w
    unfolding finish
    obs-finish r w = by_append _ w

  status-finish : (r : ExecutionRecord) (w : W) → (finish engine r w).0.status ≡ r.status
  unfolding finish
  status-finish r w = refl

  module _ (handler : ActionHandler W) (action : Action) (verdict : Verdict) (p : Preparation)
      (started : ℕ) (w : W) where
    abbrev permit : Permit
    permit = (decide engine.config engine.gate action verdict w).0

    -- What `_execute` writes down, whatever the handler did.
    conclude-entry :
        (q : Permit) (outcome : Outcome ExecutionResult) (v : W)
        → let r = (conclude engine action verdict q p started outcome v).0 in
          (is_performed r.status ≡ true) × (r.verdict ≡ some verdict) × (r.permit ≡ some q)
    unfolding conclude finish
    conclude-entry q (ok result) v = ground arith
    conclude-entry q (eden e) v = ground arith
    conclude-entry q (crash t m) v = ground arith

    execute-entry :
        (q : Permit) (v : W)
        → let r = (execute engine handler action verdict q p started v).0 in
          (is_performed r.status ≡ true) × (r.verdict ≡ some verdict) × (r.permit ≡ some q)
    unfolding execute
    execute-entry q v =
        let (outcome, v') = handler.execute action p v in conclude-entry q outcome v'

    authorise-performed :
        is_performed (authorise engine handler action verdict p started w).0.status ≡ true
        → (blocked verdict ≡ false) × (permit.granted ≡ true) × (engine.config.dry_run ≡ false)
    unfolding authorise finish
    authorise-performed h = ground arith

    authorise-entry :
        let r = (authorise engine handler action verdict p started w).0 in
        (r.verdict ≡ some verdict) × (r.permit ≡ some permit)
    unfolding authorise finish
    authorise-entry =
        ground (arith, execute-entry permit (decide engine.config engine.gate action verdict w).1)

    authorise-IsAuthorised :
        is_performed (authorise engine handler action verdict p started w).0.status ≡ true
        → IsAuthorised engine.config (authorise engine handler action verdict p started w).0
    authorise-IsAuthorised h =
        let (unblocked, granted, wet) = authorise-performed h in
        let (verified, permitted) = authorise-entry in
        record {
          verdict = verdict;
          permit = permit;
          verified = verified;
          permitted = permitted;
          unblocked = unblocked;
          granted = granted;
          tolerable = (granted_sound engine.config engine.gate action verdict w granted).1;
          wet = wet;
        }

    module _ {D : Type 0} (obs : W → D)
        (by_gate : (a : Action) (v : Verdict) (w : W) → obs (engine.gate.request a v w).1 ≡ obs w)
        (by_append : (r : ExecutionRecord) (w : W) → obs (engine.append r w).1 ≡ obs w) where
      authorise_unperformed :
          is_performed (authorise engine handler action verdict p started w).0.status ≡ false
          → obs (authorise engine handler action verdict p started w).1 ≡ obs w
      unfolding authorise
      authorise_unperformed h =
          let w' = (decide engine.config engine.gate action verdict w).1 in
          let same = obs-decide obs by_gate by_append action verdict w in
          let entered = execute-entry permit w' in
          grind (arith, same, entered, obs-finish obs by_gate by_append)

-- The handler that a returned record went through.
pub submit-with :
    {W : Type 0} (engine : Engine W) (action : Action) (w : W) {r : ExecutionRecord}
    → (submit engine action w).0 ≡ ok r
    → (handler : ActionHandler W) × (handler_for engine action.kind ≡ some handler)
      × ((submit_with engine handler action w).0 ≡ r)
      × ((submit engine action w).1 ≡ (submit_with engine handler action w).1)
unfolding submit
submit-with engine action w h = elim (Option-cases (handler_for engine action.kind)) [
  | inl missing ↦ absurd (ground arith)
  | inr (handler, found) ↦ (handler, found, ground arith, ground arith)
]

-- An action that reached its handler's `execute`, whether it succeeded, failed or was rolled back,
-- was authorised: `submit` returned a record whose verdict no finding blocks and is rated at most
-- the ceiling, whose permit is granted, outside a dry run.
pub submit-IsAuthorised :
    {W : Type 0} (engine : Engine W) (action : Action) (w : W) {r : ExecutionRecord}
    → (submit engine action w).0 ≡ ok r
    → is_performed r.status ≡ true
    → IsAuthorised engine.config r
unfolding submit_with
submit-IsAuthorised engine action w {r} h performed =
    let (handler, found, e, moved) = submit-with engine action w h in
    let (p, w') = prepare engine handler action w in
    let verdict = engine.verifier action p w' in
    subst (IsAuthorised engine.config) e
      (authorise-IsAuthorised engine handler action verdict p (engine.now w) w' (rw e performed))

pub submit_with_inert :
    {W D : Type 0} (engine : Engine W) (action : Action) (w : W) (obs : W → D)
    → ((a : Action) (verdict : Verdict) (v : W) → obs (engine.gate.request a verdict v).1 ≡ obs v)
    → ((r : ExecutionRecord) (v : W) → obs (engine.append r v).1 ≡ obs v)
    → (handler : ActionHandler W) → obs (handler.prepare action w).1 ≡ obs w
    → is_performed (submit_with engine handler action w).0.status ≡ false
    → obs (submit_with engine handler action w).1 ≡ obs w
unfolding submit_with prepare
submit_with_inert engine action w obs by_gate by_append handler read_only h =
    let (p, w') = prepare engine handler action w in
    authorise_unperformed engine handler action (engine.verifier action p w') p (engine.now w) w'
      obs by_gate by_append h
    ∙ read_only

-- What was refused did nothing. Let `obs` be any view of the world that preparation by the
-- registered handler, the gate and the journal leave alone. If the record that `submit` returns is
-- of an action that was not performed (rejected, denied, or skipped in a dry run), then `obs` is as
-- it was: no handler's `execute` ran.
pub submit_inert :
    {W D : Type 0} (engine : Engine W) (action : Action) (w : W) (obs : W → D)
    → ((handler : ActionHandler W) (v : W)
        → handler_for engine action.kind ≡ some handler
        → obs (handler.prepare action v).1 ≡ obs v)
    → ((a : Action) (verdict : Verdict) (v : W) → obs (engine.gate.request a verdict v).1 ≡ obs v)
    → ((r : ExecutionRecord) (v : W) → obs (engine.append r v).1 ≡ obs v)
    → {r : ExecutionRecord} → (submit engine action w).0 ≡ ok r
    → is_performed r.status ≡ false
    → obs (submit engine action w).1 ≡ obs w
submit_inert engine action w obs by_prepare by_gate by_append {r} h unperformed =
    let (handler, found, e, moved) = submit-with engine action w h in
    rw moved (
      submit_with_inert engine action w obs by_gate by_append handler (by_prepare handler w found)
        (rw e unperformed))
