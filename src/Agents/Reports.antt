-- ===== src/Agents/Reports.antt =====
-- What `run` of src/eden/agents/base.py returns, whatever raises on the way.
use eden_os.Prelude.{
  Bool, true, false, Option, none, some, List, [], ◌∷◌, ◌&&◌, length, keep, ◌≤◌, ◌≡◌, refl, sym,
  ◌∙◌, subst, arith, inl, inr, Bool-cases, Option-cases, ℕ, eq_iff,
}
use mathlib.Core.List.{reverse}
use eden_os.Effect.{Outcome, ok, eden, crash, Outcome-cases}
use eden_os.Errors.{EdenError}
use eden_os.Enums.{is_completed}
use eden_os.Execution.Engine.Base.{Engine}
use eden_os.Execution.Engine.{rollback}
use eden_os.Agents.{
  Task, Suitability, can_handle, Plan, StepOutcome, is_reversible, Verification, AgentReport,
}
use eden_os.Agents.Context.{ActionOutcome, undo_with, undo}
use eden_os.Agents.Base.{Agent, is_empty, default_verify, judgement, validate, execute}
use eden_os.Agents.Lifecycle.{
  report, after_judgement, undoable, undo_each, compensate, after_rollback, after_verify,
  after_validate, after_plan, run_lifecycle, caught, assessed, run, verdict_status,
}
use eden_os.Agents.Steps.{Honest, Ran, all_succeeded, execute-Ran, is_satisfied-execute}

abbrev pub NoCrash : {A : Type 0} → Outcome A → Type 0
NoCrash (ok a) = Unit
NoCrash (eden e) = Unit
NoCrash (crash t m) = ⊥

-- A completed task has a plan of its own, within the ceiling, and every step of it succeeded.
pub record IsDone (max_plan_steps : ℕ) (task : Task) (r : AgentReport) : Type 0 where
  pub plan : Plan
  pub planned : r.plan ≡ some plan
  pub own : plan.task_id ≡ task.id
  pub short : length plan.steps ≤ max_plan_steps
  pub ran : Ran plan.steps r.outcomes
  pub succeeded : all_succeeded r.outcomes ≡ true

abbrev pub Reported : ℕ → Task → Outcome AgentReport → Type 0
Reported limit task (ok r) = (r.task ≡ task) × (is_completed r.status ≡ true → IsDone limit task r)
Reported limit task (eden e) = ⊥
Reported limit task (crash t m) = ⊥

-- The same, but an `EdenError` is still to be caught.
abbrev Ended : ℕ → Task → Outcome AgentReport → Type 0
Ended limit task (ok r) = Reported limit task (ok r)
Ended limit task (eden e) = Unit
Ended limit task (crash t m) = ⊥

undo_with-NoCrash :
    {W : Type 0} (execution : Option (Engine W)) (o : ActionOutcome) (w : W)
    → NoCrash (undo_with execution o w).0
unfolding rollback
undo_with-NoCrash none o w = tt
undo_with-NoCrash (some engine) o w = elim (Option-cases o.preparation.rollback) [
  | inl e ↦ rw e tt
  | inr (plan, e) ↦ rw e tt
]

validate_sound :
    (limit : ℕ) (plan : Plan) (task : Task)
    → validate limit plan task ≡ none
    → (plan.task_id ≡ task.id) × (length plan.steps ≤ limit)
unfolding validate
validate_sound limit plan task h =
    (ground (arith, eq_iff plan.task_id task.id, h), ground (arith, h))

module _ {W : Type 0} (agent : Agent W) where
  undo_each-NoCrash :
      (os : List ActionOutcome) (b : Bool) (w : W) → NoCrash (undo_each agent os b w).0
  unfolding undo_each undo
  undo_each-NoCrash [] b w = tt
  undo_each-NoCrash (o ∷ os) b w =
      let safe = undo_with-NoCrash agent.context.execution o w in
      elim (Outcome-cases (undo_with agent.context.execution o w).0) [
        | inl (u, f) ↦
            rw (f, NoCrash)
              (undo_each-NoCrash os (b && u) (undo_with agent.context.execution o w).1)
        | inr (inl (x, f)) ↦ rw (f, NoCrash) tt
        | inr (inr (t, m, f)) ↦ absurd (subst NoCrash f safe)
      ]

  compensate-NoCrash : (os : List StepOutcome) (w : W) → NoCrash (compensate agent os w).0
  unfolding compensate
  compensate-NoCrash os w = elim (Bool-cases (is_empty (keep is_reversible os))) [
    | inl e ↦ rw e tt
    | inr e ↦ rw e (undo_each-NoCrash (undoable (reverse (keep is_reversible os))) true w)
  ]

  completed_verdict : (b : Bool) → is_completed (verdict_status agent b) ≡ true → b ≡ true
  completed_verdict true h = refl
  completed_verdict false h = absurd (ground (arith, h))

  module _ (task : Task) (s : Suitability) (started : ℕ) where
    module _ (limit : ℕ) (plan : Plan) (own : plan.task_id ≡ task.id)
        (short : length plan.steps ≤ limit) (os : List StepOutcome) (ran : Ran plan.steps os)
        (v : Verification) (sound : v.satisfied ≡ true → all_succeeded os ≡ true) where
      done :
          (w : W)
          → is_completed (verdict_status agent v.satisfied) ≡ true
          → IsDone limit task (
              report agent task s
                (some plan)
                os
                (some v)
                (verdict_status agent v.satisfied)
                started
                w)
      done w h = record {
        plan = plan;
        planned = refl;
        own = own;
        short = short;
        ran = ran;
        succeeded = sound (completed_verdict v.satisfied h);
      }

      after_rollback-Ended :
          (back : Outcome Bool × W)
          → NoCrash back.0
          → Ended limit task (after_rollback agent task s started plan os v back).0
      after_rollback-Ended (ok true, w) h = (refl, λ e. absurd (ground (arith, e)))
      after_rollback-Ended (ok false, w) h = (refl, done w)
      after_rollback-Ended (eden e, w) h = tt
      after_rollback-Ended (crash t m, w) h = absurd h

      after_judgement-Ended :
          (b : Bool) (w : W)
          → Ended limit task (after_judgement agent task s started plan os v b w).0
      after_judgement-Ended true w =
          after_rollback-Ended (compensate agent os w) (compensate-NoCrash os w)
      after_judgement-Ended false w = (refl, done w)

    caught-Reported :
        (limit : ℕ) (r : Outcome AgentReport × W)
        → Ended limit task r.0
        → Reported limit task (caught agent task s started r).0
    caught-Reported limit (ok r, w) h = h
    caught-Reported limit (eden e, w) h = (refl, λ h. absurd (ground (arith, h)))
    caught-Reported limit (crash t m, w) h = h

    module _ (honest : Honest agent)
        (verifies : (plan : Plan) (os : List StepOutcome) (w : W)
          → agent.verify task plan os w ≡ default_verify agent.context task plan os w) where
      after_validate-Ended :
          (plan : Plan) (e : Option EdenError) (w : W)
          → validate agent.context.config.max_plan_steps plan task ≡ e
          → Ended agent.context.config.max_plan_steps task
              (after_validate agent task s started plan e w).0
      after_validate-Ended plan (some e) w h = tt
      after_validate-Ended plan none w h =
          let valid = validate_sound agent.context.config.max_plan_steps plan task h in
          let r = execute agent task plan.steps w in
          subst
            (λ v.
              Ended agent.context.config.max_plan_steps task
                (after_verify agent task s started plan r.0 v).0)
            (sym (verifies plan r.0 r.1))
            (after_judgement-Ended agent.context.config.max_plan_steps plan valid.0 valid.1 r.0
              (execute-Ran agent honest task plan.steps w) (judgement agent.context plan r.0)
              (λ e. sym (is_satisfied-execute agent honest task plan w) ∙ e)
              (judgement agent.context plan r.0).should_rollback r.1)

      after_plan-Ended :
          (p : Outcome Plan × W)
          → NoCrash p.0
          → Ended agent.context.config.max_plan_steps task (after_plan agent task s started p).0
      after_plan-Ended (ok plan, w) h =
          after_validate-Ended plan (validate agent.context.config.max_plan_steps plan task) w refl
      after_plan-Ended (eden e, w) h = tt
      after_plan-Ended (crash t m, w) h = absurd h

  -- `run` returns a report of its task, whatever fails on the way: if `can_handle` answers, what the
  -- agent's thoughts answer is an attempt of their step, `verify` is the default one for this task,
  -- and `plan` raises no exception but an `EdenError`. If the report says that the task was completed,
  -- then it has a plan for this task, within the ceiling, whose steps were attempted one by one, and
  -- every one of them succeeded.
  pub run-Reported :
      (task : Task) (s : Suitability) (w : W)
      → Honest agent
      → ((plan : Plan) (os : List StepOutcome) (w : W)
          → agent.verify task plan os w ≡ default_verify agent.context task plan os w)
      → agent.can_handle task w ≡ ok s
      → NoCrash (agent.plan task w).0
      → Reported agent.context.config.max_plan_steps task (run agent task w).0
  unfolding run run_lifecycle
  run-Reported task s w honest verifies answers planned =
      subst (λ o. Reported agent.context.config.max_plan_steps task (assessed agent task o w).0)
        (sym answers)
        (elim (Bool-cases (can_handle s)) [
          | inl e ↦ rw e (
              caught-Reported task s (agent.now w) agent.context.config.max_plan_steps
                (run_lifecycle agent task s (agent.now w) w)
                (after_plan-Ended task s (agent.now w) honest verifies (agent.plan task w) planned))
          | inr e ↦ rw e (refl, λ h. absurd (ground (arith, h)))
        ])
