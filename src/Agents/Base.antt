-- ===== src/Agents/Base.antt =====
-- src/eden/agents/base.py: the agent, its default methods and the run of a plan's
-- steps.
use eden_os.Prelude.{
  ℕ, String, Bool, true, false, Option, none, some, List, [], ◌∷◌, ◌++◌, map, not, ◌&&◌, ◌||◌, ltb,
  ◌==◌, length, keep, if◌then◌else◌, str_eq,
}
use eden_os.Prelude.Text.{◌⧺◌, join}
use eden_os.Errors.{EdenError, Failure, to_dict, invalid_plan_error}
use eden_os.Effect.{Outcome, ok, eden, crash, Eff}
use eden_os.Enums.{StepStatus}
use eden_os.Execution.Types.{Action, ExecutionResult}
use eden_os.Agents.{
  one, Task, Suitability, PlanStep, Plan, StepOutcome, step_succeeded, is_failed, is_skipped,
  Observation, step_failed, never_attempted, Verification,
}
use eden_os.Agents.Context.{AgentContext, ActionOutcome, action_succeeded, think, act}

-- `BaseAgent`, with the methods that an agent defines or overrides. `can_handle` may read the world.
pub record Agent (W : Type 0) : Type 0 where
  pub name : String
  pub description : String
  pub context : AgentContext W
  pub now : W → ℕ
  pub can_handle : Task → W → Outcome Suitability
  pub plan : Task → Eff W Plan
  pub run_thought : Task → PlanStep → Eff W StepOutcome
  pub verify : Task → Plan → List StepOutcome → Eff W Verification

abbrev pub is_empty {ℓ} : {A : Type ℓ} → List A → Bool
is_empty [] = true
is_empty (x ∷ xs) = false

-- The constraints line of `_thinking_prompt`, and nothing without constraints.
abbrev pub constrained : List String → List String
constrained [] = []
constrained (c ∷ cs) = ("Constraints: " ⧺ join "; " (c ∷ cs)) ∷ []

-- `_thinking_prompt`
unfoldable pub thinking_prompt : (name description : String) → Task → String
thinking_prompt name description task = join "\n" (
    ("You are " ⧺ name ⧺ ", a component of the EDEN system. " ⧺ description)
    ∷ ("You are working on this goal: " ⧺ task.goal)
    ∷ constrained task.constraints)

abbrev pub thought_of : PlanStep → Outcome String → Outcome StepOutcome
thought_of step (ok text) = ok (record {
  step = step;
  status = StepStatus.succeeded;
  output = text;
  execution = none;
  preparation = none;
  error = none;
})
thought_of step (eden e) = eden e
thought_of step (crash t m) = crash t m

-- `_run_thought`, which an agent may override
unfoldable pub default_thought :
    {W : Type 0}
    → AgentContext W
    → (name description : String) → Task
    → PlanStep
    → Eff W StepOutcome
default_thought context name description task step w =
    let (text, w') = think context step.prompt (thinking_prompt name description task) w in
    (thought_of step text, w')

abbrev pub output_of : Option ExecutionResult → String
output_of none = ""
output_of (some r) = r.output

abbrev pub effect_of : PlanStep → Outcome ActionOutcome → Outcome StepOutcome
effect_of step (ok o) = ok (record {
  step = step;
  status = if action_succeeded o then StepStatus.succeeded else StepStatus.failed;
  output = output_of o.execution.result;
  execution = some o.execution;
  preparation = some o.preparation;
  error = o.execution.error;
})
effect_of step (eden e) = eden e
effect_of step (crash t m) = crash t m

abbrev pub failed_step : PlanStep → Failure → StepOutcome
failed_step step failure = record {
  step = step;
  status = StepStatus.failed;
  output = "";
  execution = none;
  preparation = none;
  error = some failure;
}

-- The `except` branches of `_run_step`; another exception has no code.
abbrev pub attempted : PlanStep → Outcome StepOutcome → StepOutcome
attempted step (ok o) = o
attempted step (eden e) = failed_step step (to_dict e)
attempted step (crash t m) =
    failed_step step (record { code = ""; type = t; message = m; retryable = none })

abbrev pub skipped : PlanStep → StepOutcome
skipped step = record {
  step = step;
  status = StepStatus.skipped;
  output = "";
  execution = none;
  preparation = none;
  error = none;
}

abbrev pub is_required : StepOutcome → Bool
is_required o = not o.step.optional && not (is_skipped o.status)

-- `verify`, which an agent may override: `satisfied`
unfoldable pub is_satisfied : Plan → List StepOutcome → Bool
is_satisfied plan outcomes =
    is_empty (keep (λ o. is_failed o.status) outcomes)
    && is_empty (keep (λ o. is_skipped o.status) outcomes)
    && length (keep is_required outcomes) == length (keep (λ s. not s.optional) plan.steps)

abbrev pub never : List StepOutcome → List Observation
never [] = []
never (o ∷ os) = never_attempted (length (o ∷ os)) ∷ []

abbrev pub judgement : {W : Type 0} → AgentContext W → Plan → List StepOutcome → Verification
judgement context plan outcomes = record {
  satisfied = is_satisfied plan outcomes;
  confidence = if is_satisfied plan outcomes then one else 0;
  findings =
      map (λ o. step_failed o.step.description) (keep (λ o. is_failed o.status) outcomes)
      ++ never (keep (λ o. is_skipped o.status) outcomes);
  should_rollback =
      not (is_satisfied plan outcomes) && context.config.rollback_on_verification_failure;
}

-- `verify`
abbrev pub default_verify :
    {W : Type 0} → AgentContext W → Task → Plan → List StepOutcome → Eff W Verification
default_verify context task plan outcomes w = (ok (judgement context plan outcomes), w)

abbrev pub invalid_plan : String → Option EdenError
invalid_plan m = some (record { class = invalid_plan_error; message = m })

-- `_validate`
unfoldable pub validate : (max_plan_steps : ℕ) → Plan → Task → Option EdenError
validate max_plan_steps plan task =
    if not (str_eq plan.task_id task.id)
    then invalid_plan "Plan does not belong to this task."
    else if is_empty plan.steps
    then invalid_plan "Plan contains no steps."
    else if ltb max_plan_steps (length plan.steps)
    then invalid_plan "Plan exceeds the configured step ceiling."
    else none

module _ {W : Type 0} (agent : Agent W) where
  -- `_run_effect`
  unfoldable pub run_effect : PlanStep → Action → Eff W StepOutcome
  run_effect step action w =
      let (outcome, w') = act agent.context action w in (effect_of step outcome, w')

  abbrev pub dispatched : Task → PlanStep → Option Action → Eff W StepOutcome
  dispatched task step (some action) w = run_effect step action w
  dispatched task step none w = agent.run_thought task step w

  -- `_run_step`
  unfoldable pub run_step : Task → PlanStep → W → StepOutcome × W
  run_step task step w =
      let (outcome, w') = dispatched task step step.action w in (attempted step outcome, w')

  -- `execute`
  unfoldable pub execute : Task → List PlanStep → W → List StepOutcome × W
  unfolding run_step
  execute task [] w = ([], w)
  execute task (step ∷ steps) w =
      let (outcome, w₁) = run_step task step w in
      let (rest, w₂) = execute task steps w₁ in
      if step_succeeded outcome.status || step.optional
      then (outcome ∷ rest, w₂)
      else (outcome ∷ map skipped steps, w₁)
