-- ===== src/Automation/Triggers.antt =====
-- The triggers of src/eden/automation/scheduler.py. Times are whole seconds: those of the monotonic
-- clock, and for the daily trigger the second of the day in UTC.
use eden_os.Prelude.{
  ℕ, String, Bool, true, false, Option, none, some, ◌+◌, ◌*◌, leb, ltb, ◌==◌, ◌&&◌, not,
  if◌then◌else◌, str_eq,
}
use eden_os.Prelude.Text.{is_blank}
use eden_os.Errors.{EdenError, invalid_rule_error}
use eden_os.Effect.{Outcome, ok, eden}

pub data Trigger : Type 0 where
  -- `IntervalTrigger`: the seconds, and `fire_immediately`
  interval : ℕ → Bool → Trigger
  -- `DailyTrigger`: the hour and the minute
  daily : ℕ → ℕ → Trigger
  -- `EventTrigger`: the event, and whether it is pending
  event : String → Bool → Trigger
  manual : Trigger

abbrev invalid : String → EdenError
invalid message = record { class = invalid_rule_error; message = message }

-- `IntervalTrigger.__init__`
unfoldable pub interval_trigger : ℕ → Bool → Outcome Trigger
interval_trigger seconds at_once =
    if seconds == 0
    then eden (invalid "Interval must be positive.")
    else ok (interval seconds at_once)

-- `DailyTrigger.__init__`
unfoldable pub daily_trigger : ℕ → ℕ → Outcome Trigger
daily_trigger hour minute =
    if not (leb hour 23)
    then eden (invalid "Hour must be 0-23.")
    else if not (ltb minute 60)
    then eden (invalid "Minute must be 0-59.")
    else ok (daily hour minute)

-- `EventTrigger.__init__`
unfoldable pub event_trigger : String → Outcome Trigger
event_trigger name =
    if is_blank name then eden (invalid "Event name must not be empty.") else ok (event name false)

-- Whether the time since the last firing is at least `seconds`; `never` if there was none.
abbrev since : Bool → ℕ → ℕ → Option ℕ → Bool
since never seconds now none = never
since never seconds now (some t) = leb (t + seconds) now

-- `should_fire`: whether the trigger fires, and the trigger after it was asked.
unfoldable pub fires : Trigger → ℕ → ℕ → Option ℕ → Bool
fires (interval seconds at_once) now second last = since at_once seconds now last
fires (daily hour minute) now second last =
    leb ((hour * 60 + minute) * 60) second && since true 86400 now last
fires (event name pending) now second last = pending
fires manual now second last = false

unfoldable pub consumed : Trigger → Trigger
consumed (event name pending) = event name false
consumed (interval seconds at_once) = interval seconds at_once
consumed (daily hour minute) = daily hour minute
consumed manual = manual

-- What `signal` looks for, and `EventTrigger.signal`.
unfoldable pub listens : String → Trigger → Bool
listens name (event own pending) = str_eq own name
listens name _ = false

unfoldable pub signalled : Trigger → Trigger
signalled (event name pending) = event name true
signalled (interval seconds at_once) = interval seconds at_once
signalled (daily hour minute) = daily hour minute
signalled manual = manual
