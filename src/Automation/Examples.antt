-- ===== src/Automation/Examples.antt =====
-- The properties of the scheduler at concrete inputs.
use eden_os.Prelude.{
  ℕ, String, true, false, none, some, List, [], ◌∷◌, ◌≡◌, ◌≤◌, refl, All, map, ◌+◌, length,
}
use eden_os.Effect.{ok, crash}
use eden_os.Automation.Rules.{Rule, AutomationRun}
use eden_os.Automation.Triggers.{Trigger, interval, event, manual}
use eden_os.Automation.{Runners, Scheduler, due, ask, tick}
use eden_os.Automation.History.{
  Call, registration, signalling, running, ticking, moving, calls, new_scheduler, history_bounded,
}
use eden_os.Automation.Contained.{names_of, tick_contained}
use eden_os.Automation.Delayed.{Delays}

-- The world is the time; the runner of tasks always raises.
abbrev runners : Runners ℕ String
runners = record {
  goal = λ t. t;
  task_runner = some (λ t w. (some (crash "Boom" t), w));
  action_runner = none;
  monotonic = λ w. w;
  second_of_day = λ w. w;
  utc_now = λ w. w;
  elapsed_ms = λ w w'. 0;
  new_id = λ w. "run-1";
  history_limit = 2;
}

abbrev rule : String → Trigger → Rule String
rule name trigger = record {
  name = name;
  trigger = trigger;
  task = some "work";
  action = none;
  enabled = true;
  description = "";
}

abbrev story : List (Call ℕ String)
story =
    registration (rule "a" (interval 10 true)) false
    ∷ registration (rule "b" (event "e" false)) false
    ∷ signalling "e"
    ∷ moving (λ w. w + 5)
    ∷ ticking
    ∷ moving (λ w. w + 5)
    ∷ running "a"
    ∷ []

history_bounded_example :
    length (calls runners story (new_scheduler, 0)).0.history ≤ runners.history_limit
history_bounded_example = history_bounded runners story 0

tick_contained_example :
    let (s, v) = calls runners story (new_scheduler, 0) in
    (made : List AutomationRun) × ((tick runners (s, v)).0 ≡ ok made)
    × (names_of runners made
        ≡ map (λ (r : Rule String). r.name) (due (runners.monotonic v) (runners.second_of_day v) s))
    × ((tick runners (s, v)).1.0.rules ≡ ask s.rules)
tick_contained_example = tick_contained runners story 0

abbrev waiting : List (Call ℕ String)
waiting =
    registration (rule "a" (interval 10 false)) false
    ∷ ticking
    ∷ moving (λ w. w + 500)
    ∷ ticking
    ∷ running "a"
    ∷ []

waiting-Delays : All (Delays runners "a") waiting
waiting-Delays = (refl, (tt, (tt, (tt, (tt, tt)))))

abbrev listening : Scheduler String
listening = record {
  rules = ("b", rule "b" (event "e" false)) ∷ ("m", rule "m" manual) ∷ [];
  last_fired = [];
  history = [];
}
