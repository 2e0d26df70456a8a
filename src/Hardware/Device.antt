-- ===== src/Hardware/Device.antt =====
-- src/eden/hardware/device.py: what every driver shares, over the four hooks that a driver
-- implements. A value is a natural number, as in the parameters of an action; a hook that exceeds
-- its budget raises the error of its timeout; the rate limiter delays a command and nothing else.
pub mod Guarded
pub mod States
use eden_os.Prelude.{
  ℕ, suc, String, Bool, true, false, not, ◌&&◌, Option, none, some, List, [], ◌∷◌, leb,
  if◌then◌else◌, str_eq,
}
use eden_os.Prelude.Text.{◌⧺◌, contains, is_blank}
use eden_os.Errors.{
  EdenError, class_name, device_unavailable_error, device_command_error, device_safety_error,
  validation_error,
}
use eden_os.Effect.{Outcome, ok, eden, crash, Eff}
use eden_os.Enums.{DeviceState, disconnected, connecting, ready, busy, faulted, is_ready}

-- `DeviceConfig`, as far as a device reads it.
pub record DeviceConfig : Type 0 where
  pub name : String
  pub channels : List String
  pub limits : List (String × (ℕ × ℕ))
  pub connect_on_start : Bool

-- The loop of `limit_for`
abbrev pub first_limit : (channel : String) → List (String × (ℕ × ℕ)) → Option (ℕ × ℕ)
first_limit channel [] = none
first_limit channel ((name, bounds) ∷ rest) =
    let later = first_limit channel rest in if str_eq name channel then some bounds else later

-- `Reading`
pub record Reading : Type 0 where
  pub device : String
  pub channel : String
  pub value : ℕ

-- `DeviceCommand`
pub record DeviceCommand : Type 0 where
  pub device : String
  pub channel : String
  pub value : ℕ

-- `DeviceCommand.__post_init__`
unfoldable pub make_command : DeviceCommand → Outcome DeviceCommand
make_command c =
    if is_blank c.device
    then eden (record { class = validation_error; message = "Device command must name a device." })
    else if is_blank c.channel
    then eden (record { class = validation_error; message = "Device command must name a channel." })
    else ok c

-- The hooks of a driver, and the wait of its rate limiter.
pub record Driver (W : Type 0) : Type 0 where
  pub connects : Eff W (Unit {0})
  pub closes : Eff W (Unit {0})
  pub read_channel : String → Eff W ℕ
  pub write_channel : String → ℕ → Eff W ℕ
  pub acquire : W → W

-- `BaseDevice`
pub record Device : Type 0 where
  pub config : DeviceConfig
  pub state : DeviceState
  pub last_error : String
  pub commands_sent : ℕ

abbrev pub new_device : DeviceConfig → Device
new_device config = record {
  config = config;
  state = disconnected;
  last_error = "";
  commands_sent = 0;
}

-- `type(exc).__name__`
abbrev pub error_type {ℓ} : {A : Type ℓ} → Outcome A → String
error_type (ok a) = ""
error_type (eden e) = class_name e.class
error_type (crash t m) = t

-- `_fault`
abbrev pub fault : String → Device → Device
fault error d = record d { state = faulted; last_error = error }

abbrev pub refused : EdenError
refused = record { class = device_unavailable_error; message = "Device is not ready." }

abbrev pub no_channel : EdenError
no_channel = record {
  class = device_command_error;
  message = "Device does not expose this channel.";
}

abbrev pub unsafe : EdenError
unsafe = record {
  class = device_safety_error;
  message = "Command value is outside the configured safe range.";
}

-- `_require_channel`; a device without declared channels accepts any.
abbrev pub exposes : List String → (channel : String) → Bool
exposes [] channel = true
exposes (c ∷ cs) channel = contains (c ∷ cs) channel

abbrev pub between : Option (ℕ × ℕ) → ℕ → Bool
between none value = true
between (some (lowest, highest)) value = leb lowest value && leb value highest

-- `_require_within_limits`
abbrev pub within_limits : DeviceConfig → (channel : String) → ℕ → Bool
within_limits config channel value = between (first_limit channel config.limits) value

module _ {W : Type 0} (driver : Driver W) where
  abbrev pub connected : Outcome (Unit {0}) → Device → Outcome (Unit {0}) × Device
  connected (ok u) d = (ok tt, record d { state = ready; last_error = "" })
  connected (eden e) d = (eden e, fault (class_name e.class) d)
  connected (crash t m) d = (crash t m, fault t d)

  abbrev pub opened : Device → W → Outcome (Unit {0}) × Device × W
  opened d w =
      let (o, w') = driver.connects w in
      let (o', d') = connected o (record d { state = connecting }) in (o', d', w')

  abbrev pub connect_from : DeviceState → Device → W → Outcome (Unit {0}) × Device × W
  connect_from ready d w = (ok tt, d, w)
  connect_from busy d w = (ok tt, d, w)
  connect_from disconnected d w = opened d w
  connect_from connecting d w = opened d w
  connect_from faulted d w = opened d w

  -- `connect`
  unfoldable pub connect : Device → W → Outcome (Unit {0}) × Device × W
  connect d w = connect_from d.state d w

  abbrev pub disconnect_from : DeviceState → Device → W → Device × W
  disconnect_from disconnected d w = (d, w)
  disconnect_from _ d w = (record d { state = disconnected }, (driver.closes w).1)

  -- `disconnect`
  unfoldable pub disconnect : Device → W → Device × W
  disconnect d w = disconnect_from d.state d w

  abbrev pub observed : (channel : String) → Outcome ℕ → Device → Outcome Reading × Device
  observed channel (ok v) d =
      (ok (record { device = d.config.name; channel = channel; value = v }), d)
  observed channel (eden e) d = (eden e, fault (class_name e.class) d)
  observed channel (crash t m) d = (crash t m, fault t d)

  -- `read`
  unfoldable pub read : (channel : String) → Device → W → Outcome Reading × Device × W
  read channel d w =
      let (o, w') = driver.read_channel channel w in
      let (o', d') = observed channel o d in
      if not (is_ready d.state)
      then (eden refused, d, w)
      else if not (exposes d.config.channels channel)
      then (eden no_channel, d, w)
      else (o', d', w')

  -- What `send` makes of the outcome of its hook: its state before is restored, or it faults.
  abbrev pub sent :
      (channel : String) (previous : DeviceState) → Outcome ℕ → Device → Outcome Reading × Device
  sent channel previous (ok v) d = (
    ok (record { device = d.config.name; channel = channel; value = v }),
    record d { state = previous; commands_sent = suc d.commands_sent },
  )
  sent channel previous (eden e) d = (eden e, fault (class_name e.class) d)
  sent channel previous (crash t m) d = (crash t m, fault t d)

  -- `send`: the state is BUSY while the hook runs.
  unfoldable pub send : DeviceCommand → Device → W → Outcome Reading × Device × W
  send c d w =
      let (o, w') = driver.write_channel c.channel c.value (driver.acquire w) in
      let (o', d') = sent c.channel d.state o (record d { state = busy }) in
      if not (is_ready d.state)
      then (eden refused, d, w)
      else if not (exposes d.config.channels c.channel)
      then (eden no_channel, d, w)
      else if not (within_limits d.config c.channel c.value)
      then (eden unsafe, d, w)
      else (o', d', w')
