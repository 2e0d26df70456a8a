-- ===== src/Agents/Steps.antt =====
-- What `execute` of src/eden/agents/base.py makes of the steps of a plan, and how the default
-- `verify` judges it.
use eden_os.Prelude.{
  String, Bool, true, false, Option, none, some, List, [], ◌∷◌, map, not, ◌&&◌, ◌||◌, length, keep,
  ◌≡◌, refl, ap, ◌∙◌, subst, arith, inl, inr, Bool-cases,
}
use eden_os.Effect.{Outcome, ok, eden, crash}
use eden_os.Enums.{is_succeeded}
use eden_os.Execution.Types.{Action, ExecutionRecord}
use eden_os.Agents.{Task, PlanStep, Plan, StepOutcome, step_succeeded, is_failed, is_skipped}
use eden_os.Agents.Context.{AgentContext, ActionOutcome, action_succeeded, think, act}
use eden_os.Agents.Base.{
  Agent, is_empty, thinking_prompt, thought_of, default_thought, effect_of, attempted, skipped,
  is_required, is_satisfied, run_effect, dispatched, run_step, execute,
}

-- The outcome of an attempt: that of the step, and a success or a failure.
abbrev pub Attempt : PlanStep → StepOutcome → Type 0
Attempt step o =
    (o.step ≡ step)
    × (is_failed o.status ≡ not (step_succeeded o.status))
    × (is_skipped o.status ≡ false)

-- A thought that answers is an attempt of its step.
abbrev pub Thinks : PlanStep → Outcome StepOutcome → Type 0
Thinks step (ok o) = Attempt step o
Thinks step (eden e) = Unit
Thinks step (crash t m) = Unit

abbrev pub Honest : {W : Type 0} → Agent W → Type 0
Honest agent =
    (task : Task) (step : PlanStep) (w : _) → Thinks step (agent.run_thought task step w).0

-- One type or the other, by a test.
abbrev pub Branch : Bool → Type 0 → Type 0 → Type 0
Branch true A B = A
Branch false A B = B

-- A step that acts has succeeded exactly if the engine recorded that its action did; one whose
-- action left no record has not.
abbrev pub Recorded : Option ExecutionRecord → StepOutcome → Type 0
Recorded none o = step_succeeded o.status ≡ false
Recorded (some r) o = step_succeeded o.status ≡ is_succeeded r.status

abbrev pub Acted : Option Action → StepOutcome → Type 0
Acted none o = Unit
Acted (some action) o = Recorded o.execution o

-- The steps are attempted in order up to the first required failure; the rest are skipped.
abbrev pub Ran : List PlanStep → List StepOutcome → Type 0
Ran [] [] = Unit
Ran [] (o ∷ os) = ⊥
Ran (s ∷ ss) [] = ⊥
Ran (s ∷ ss) (o ∷ os) =
    Attempt s o
    × Branch (step_succeeded o.status || s.optional) (Ran ss os) (os ≡ map skipped ss)
    × Acted s.action o

abbrev pub all_succeeded : List StepOutcome → Bool
all_succeeded [] = true
all_succeeded (o ∷ os) = step_succeeded o.status && all_succeeded os

-- The default `_run_thought` answers with an attempt of its step.
pub default_thought-Thinks :
    {W : Type 0} (context : AgentContext W) (name description : String) (task : Task)
    (step : PlanStep) (w : W)
    → Thinks step (default_thought context name description task step w).0
unfolding default_thought
default_thought-Thinks context name description task step w =
    thinks (think context step.prompt (thinking_prompt name description task) w).0
  where
    thinks : (o : Outcome String) → Thinks step (thought_of step o)
    thinks (ok text) = (refl, refl, refl)
    thinks (eden e) = tt
    thinks (crash t m) = tt

effect-Attempt :
    (step : PlanStep) (o : Outcome ActionOutcome) → Attempt step (attempted step (effect_of step o))
effect-Attempt step (ok o) = elim (Bool-cases (action_succeeded o)) [
  | inl e ↦ rw e (refl, refl, refl)
  | inr e ↦ rw e (refl, refl, refl)
]
effect-Attempt step (eden e) = (refl, refl, refl)
effect-Attempt step (crash t m) = (refl, refl, refl)

effect-Recorded :
    (step : PlanStep) (o : Outcome ActionOutcome)
    → Recorded (attempted step (effect_of step o)).execution (attempted step (effect_of step o))
effect-Recorded step (ok o) = elim (Bool-cases (action_succeeded o)) [
  | inl e ↦ rw e refl
  | inr e ↦ rw e refl
]
effect-Recorded step (eden e) = refl
effect-Recorded step (crash t m) = refl

thought-Attempt :
    (step : PlanStep) (o : Outcome StepOutcome) → Thinks step o → Attempt step (attempted step o)
thought-Attempt step (ok o) h = h
thought-Attempt step (eden e) h = (refl, refl, refl)
thought-Attempt step (crash t m) h = (refl, refl, refl)

module _ {W : Type 0} (agent : Agent W) (honest : Honest agent) where
  dispatched-Attempt :
      (task : Task) (step : PlanStep) (action : Option Action) (w : W)
      → Attempt step (attempted step (dispatched agent task step action w).0)
  unfolding run_effect
  dispatched-Attempt task step (some action) w = effect-Attempt step (act agent.context action w).0
  dispatched-Attempt task step none w =
      thought-Attempt step (agent.run_thought task step w).0 (honest task step w)

  run_step-Attempt :
      (task : Task) (step : PlanStep) (w : W) → Attempt step (run_step agent task step w).0
  unfolding run_step
  run_step-Attempt task step w = dispatched-Attempt task step step.action w

  run_step-Acted :
      (task : Task) (step : PlanStep) (w : W) → Acted step.action (run_step agent task step w).0
  unfolding run_step run_effect
  run_step-Acted task step w = acted step.action
    where
      acted :
          (action : Option Action)
          → Acted action (attempted step (dispatched agent task step action w).0)
      acted none = tt
      acted (some action) = effect-Recorded step (act agent.context action w).0

  -- The outcomes of `execute`: if what the agent's thoughts answer is an attempt of their step,
  -- then the steps are attempted one by one, each with an outcome of its own that is a success or a
  -- failure, whatever an action or a thought raises; after the first failure of a step that is not
  -- optional, the remaining steps are skipped, in their order. A step with an action that is
  -- attempted succeeds exactly if the engine's record of the action says so, and fails if there is
  -- none.
  pub execute-Ran :
      (task : Task) (steps : List PlanStep) (w : W) → Ran steps (execute agent task steps w).0
  unfolding execute
  execute-Ran task [] w = tt
  execute-Ran task (step ∷ steps) w =
      let first = run_step agent task step w in
      let a = run_step-Attempt task step w in
      let acted = run_step-Acted task step w in
      elim (Bool-cases (step_succeeded first.0.status || step.optional)) [
        | inl e ↦ rw e (a, rw e (execute-Ran task steps first.1), acted)
        | inr e ↦ rw e (a, rw e refl, acted)
      ]

clean :
    (ss : List PlanStep) (os : List StepOutcome)
    → Ran ss os
    → (is_empty (keep (λ o. is_failed o.status) os)
        && is_empty (keep (λ o. is_skipped o.status) os))
      ≡ all_succeeded os
clean [] [] r = refl
clean [] (o ∷ os) r = absurd r
clean (s ∷ ss) [] r = absurd r
clean (s ∷ ss) (o ∷ os) r = elim (Bool-cases (step_succeeded o.status)) [
  | inl e ↦
      let f : is_failed o.status ≡ false = r.0.1 ∙ ap not e in
      let rest : Ran ss os =
        subst (λ b. Branch (b || s.optional) (Ran ss os) (os ≡ map skipped ss)) e r.1 in
      rw (e, f, r.0.2) (clean ss os rest)
  | inr e ↦ let f : is_failed o.status ≡ true = r.0.1 ∙ ap not e in rw (e, f) refl
]

counted :
    (ss : List PlanStep) (os : List StepOutcome)
    → Ran ss os
    → all_succeeded os ≡ true
    → length (keep is_required os) ≡ length (keep (λ s. not s.optional) ss)
counted [] [] r h = refl
counted [] (o ∷ os) r h = absurd r
counted (s ∷ ss) [] r h = absurd r
counted (s ∷ ss) (o ∷ os) r h = elim (Bool-cases (step_succeeded o.status)) [
  | inl e ↦
      let rest : Ran ss os =
        subst (λ b. Branch (b || s.optional) (Ran ss os) (os ≡ map skipped ss)) e r.1 in
      let ih = counted ss os rest (rw e at h) in
      let q : is_required o ≡ not s.optional =
        (ap (λ t. not t.optional && not (is_skipped o.status)) r.0.0) ∙ ground (arith, r.0.2) in
      ground (arith, ih, q)
  | inr e ↦ let g : false ≡ true = rw e at h in ground (arith, g)
]

pub Ran-satisfied :
    (plan : Plan) (os : List StepOutcome)
    → Ran plan.steps os
    → is_satisfied plan os ≡ all_succeeded os
unfolding is_satisfied
Ran-satisfied plan os r = elim (Bool-cases (all_succeeded os)) [
  | inl e ↦
      let c = clean plan.steps os r in let n = counted plan.steps os r e in ground (arith, c, n, e)
  | inr e ↦ let c = clean plan.steps os r in ground (arith, c, e)
]

module _ {W : Type 0} (agent : Agent W) (honest : Honest agent) where
  -- What the default `verify` asks of a plan that `execute` ran: under the same condition, it is
  -- satisfied exactly when every step of the plan succeeded, the optional ones included.
  pub is_satisfied-execute :
      (task : Task) (plan : Plan) (w : W)
      → is_satisfied plan (execute agent task plan.steps w).0
        ≡ all_succeeded (execute agent task plan.steps w).0
  is_satisfied-execute task plan w =
      Ran-satisfied plan (execute agent task plan.steps w).0
        (execute-Ran agent honest task plan.steps w)
