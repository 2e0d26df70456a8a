-- ===== src/Automation.antt =====
-- src/eden/automation/scheduler.py: rules that pair a trigger with work, and the scheduler that runs
-- them. The due rules of a tick are run one after another, in their order, as happens when the
-- runners do not wait for each other; a rule owns its trigger.
pub mod Triggers
pub mod Rules
pub mod History
pub mod Contained
pub mod Delayed
pub mod Signals
mod Examples
use eden_os.Prelude.{
  ℕ, String, Bool, true, false, Option, none, some, List, [], ◌∷◌, ◌++◌, ◌-◌, ◌+◌, map, keep,
  length, drop, is_some, not, ◌&&◌, ◌||◌, if◌then◌else◌, str_eq, zero, suc,
}
use eden_os.Prelude.Dict
use eden_os.Prelude.Dict.{Dict, values}
use eden_os.Prelude.Text.{◌⧺◌, is_blank}
use eden_os.Errors.{
  EdenError, Failure, to_dict, invalid_rule_error, rule_not_found_error, automation_error,
}
use eden_os.Effect.{Outcome, ok, eden, crash, Eff}
use eden_os.Execution.Types.{Action}
use eden_os.Automation.Rules.{
  Rule, invalid_rule, AutomationRun, AutomationStatus, succeeded, failed, skipped, RunError,
  eden_failure, other_failure,
}
use eden_os.Automation.Triggers.{fires, consumed, listens, signalled}

-- What the scheduler is given: the clock, identifiers and the two runners. A runner that is not done
-- within `run_timeout_seconds` gives no outcome.
pub record Runners (W T : Type 0) : Type 0 where
  pub goal : T → String
  pub task_runner : Option (T → W → Option (Outcome (Unit {0})) × W)
  pub action_runner : Option (Action → W → Option (Outcome (Unit {0})) × W)
  pub monotonic : W → ℕ
  pub second_of_day : W → ℕ
  pub utc_now : W → ℕ
  pub elapsed_ms : W → W → ℕ
  pub new_id : W → String
  pub history_limit : ℕ

pub record Scheduler (T : Type 0) : Type 0 where
  pub rules : Dict (Rule T)
  pub last_fired : Dict ℕ
  pub history : List AutomationRun

abbrev pub not_registered : EdenError
not_registered = record {
  class = rule_not_found_error;
  message = "No rule is registered under this name.";
}

abbrev overran : EdenError
overran = record { class = automation_error; message = "Automation run exceeded its time budget." }

module _ {T : Type 0} where
  -- `register`
  unfoldable pub register : Rule T → Bool → Scheduler T → Outcome (Unit {0}) × Scheduler T
  register r replace s =
      if Dict.has r.name s.rules && not replace
      then (eden (invalid_rule "A rule with this name is already registered."), s)
      else (ok tt, record s { rules = Dict.put r.name r s.rules })

  -- `unregister`
  unfoldable pub unregister : String → Scheduler T → Outcome (Unit {0}) × Scheduler T
  unregister name s =
      if Dict.has name s.rules
      then (
        ok tt,
        record s { rules = Dict.remove name s.rules; last_fired = Dict.remove name s.last_fired },
      )
      else (eden not_registered, s)

  -- `signal`: the loop over the rules, which arms those that listen and counts them.
  unfoldable pub arm : String → Dict (Rule T) → ℕ × Dict (Rule T)
  arm name [] = (0, [])
  arm name ((k, r) ∷ rules) =
      let (armed, rest) = arm name rules in
      if listens name r.trigger
      then (suc armed, (k, record r { trigger = signalled r.trigger }) ∷ rest)
      else (armed, (k, r) ∷ rest)

  unfoldable pub signal : String → Scheduler T → ℕ × Scheduler T
  unfolding arm
  signal name s = let (armed, rules) = arm name s.rules in (armed, record s { rules = rules })

  -- Whether `tick` finds a rule due.
  unfoldable pub is_due : ℕ → ℕ → Dict ℕ → Rule T → Bool
  is_due now second last_fired r =
      r.enabled && fires r.trigger now second (Dict.get r.name last_fired)

  -- The rule after `tick` asked its trigger, which uses up a signal.
  abbrev pub asked : Rule T → Rule T
  asked r = if r.enabled then record r { trigger = consumed r.trigger } else r

  unfoldable pub ask : Dict (Rule T) → Dict (Rule T)
  ask [] = []
  ask ((k, r) ∷ rules) = (k, asked r) ∷ ask rules

  -- The rules that a tick at this time runs.
  unfoldable pub due : ℕ → ℕ → Scheduler T → List (Rule T)
  due now second s = keep (is_due now second s.last_fired) (values s.rules)

  -- `_record`
  unfoldable pub remember : ℕ → AutomationRun → Scheduler T → Scheduler T
  remember limit run s =
      let all = s.history ++ run ∷ [] in record s { history = drop (length all - limit) all }

module _ {W T : Type 0} (runners : Runners W T) where
  abbrev pub State : Type 0
  State = Scheduler T × W

  -- `_with_budget`, and what `_dispatch` reports after it.
  abbrev pub budgeted : Option (Outcome (Unit {0})) → String → Outcome (Option String)
  budgeted none detail = eden overran
  budgeted (some (ok x)) detail = ok (some detail)
  budgeted (some (eden e)) detail = eden e
  budgeted (some (crash t m)) detail = if str_eq t "TimeoutError" then eden overran else crash t m

  abbrev dispatch_task :
      T → Option (T → W → Option (Outcome (Unit {0})) × W) → Eff W (Option String)
  dispatch_task t none w = (ok none, w)
  dispatch_task t (some runner) w =
      let (r, w') = runner t w in (budgeted r ("Dispatched task: " ⧺ runners.goal t), w')

  abbrev dispatch_action :
      Action → Option (Action → W → Option (Outcome (Unit {0})) × W) → Eff W (Option String)
  dispatch_action a none w = (ok none, w)
  dispatch_action a (some runner) w =
      let (r, w') = runner a w in (budgeted r ("Submitted action: " ⧺ a.summary), w')

  -- `_dispatch`
  abbrev dispatch_payload : Option T → Option Action → Eff W (Option String)
  dispatch_payload (some t) action w = dispatch_task t runners.task_runner w
  dispatch_payload none (some a) w = dispatch_action a runners.action_runner w
  dispatch_payload none none w = (ok none, w)

  unfoldable pub dispatch : Rule T → Eff W (Option String)
  dispatch r w = dispatch_payload r.task r.action w

  -- The status, the detail and the error of a run.
  abbrev pub reported : Outcome (Option String) → AutomationStatus × (String × Option RunError)
  reported (ok (some detail)) = (succeeded, (detail, none))
  reported (ok none) = (skipped, ("No runner is configured for this rule's payload.", none))
  reported (eden e) = (failed, (e.message, some (eden_failure (to_dict e))))
  reported (crash t m) = (failed, (t ⧺ ": " ⧺ m, some (other_failure t m)))

  -- `run`, with the rule found.
  unfoldable pub run_rule : Rule T → String → State → AutomationRun × State
  unfolding dispatch remember
  run_rule r name (s, w) =
      let (outcome, w') = dispatch r w in
      let (status, (detail, error)) = reported outcome in
      let run : AutomationRun = record {
        id = runners.new_id w;
        rule = name;
        status = status;
        detail = detail;
        started_at = runners.utc_now w;
        duration_ms = runners.elapsed_ms w w';
        error = error;
      } in
      (run, (remember runners.history_limit run s, w'))

  -- `run`
  unfoldable pub run : String → Eff State AutomationRun
  unfolding run_rule
  run name (s, w) = elim (Dict.get name s.rules) [
    | none ↦ (eden not_registered, (s, w))
    | some r ↦ let (made, state) = run_rule r name (s, w) in (ok made, state)
  ]

  -- `_guarded_run`
  unfoldable pub guarded_run : ℕ → Rule T → Eff State AutomationRun
  unfolding run
  guarded_run now r (s, w) =
      run r.name (record s { last_fired = Dict.put r.name now s.last_fired }, w)

  abbrev gathered :
      Outcome AutomationRun → Outcome (List AutomationRun) → Outcome (List AutomationRun)
  gathered (ok made) (ok rest) = ok (made ∷ rest)
  gathered (ok made) (eden e) = eden e
  gathered (ok made) (crash t m) = crash t m
  gathered (eden e) rest = eden e
  gathered (crash t m) rest = crash t m

  -- The `gather` of `tick`.
  unfoldable pub run_all : ℕ → List (Rule T) → Eff State (List AutomationRun)
  unfolding guarded_run
  run_all now [] state = (ok [], state)
  run_all now (r ∷ rs) state =
      let (made, state₁) = guarded_run now r state in
      let (rest, state₂) = run_all now rs state₁ in (gathered made rest, state₂)

  -- `tick`
  unfoldable pub tick : Eff State (List AutomationRun)
  unfolding run_all
  tick (s, w) =
      run_all (runners.monotonic w) (due (runners.monotonic w) (runners.second_of_day w) s)
        (record s { rules = ask s.rules }, w)
