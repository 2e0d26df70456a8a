-- ===== src/Hardware/Handler.antt =====
-- `DeviceCommandHandler` of src/eden/hardware/manager.py: the way from an action to a device.
pub mod Restores
use eden_os.Prelude.{
  ℕ, String, Bool, true, false, ◌||◌, Option, none, some, List, [], ◌∷◌, if◌then◌else◌,
}
use eden_os.Prelude.Dict
use eden_os.Prelude.Dict.{Dict}
use eden_os.Prelude.Text.{◌⧺◌}
use eden_os.Errors.{EdenError, code, is_a, hardware_error, validation_error, device_safety_error}
use eden_os.Effect.{Outcome, ok, eden, crash, Eff}
use eden_os.Enums.{device_command}
use eden_os.Execution.Types.{
  Value, str, int, flag, Action, make_action, Preparation, ExecutionResult,
}
use eden_os.Execution.Engine.Base.{ActionHandler}
use eden_os.Execution.Handlers.Base.{text_parameter}
use eden_os.Hardware.Device.{DeviceCommand, make_command, Driver, Reading}
use eden_os.Hardware.Fleet
use eden_os.Hardware.Fleet.{Fleet}

-- What the handler takes from the host: fresh identifiers, the clock, and `str(value)`.
pub record Host (W : Type 0) : Type 0 where
  pub new_id : W → String
  pub utc_now : W → ℕ
  pub show : ℕ → String

abbrev pub numberless : EdenError
numberless = record { class = validation_error; message = "Device command value must be a number." }

abbrev pub actuation_off : EdenError
actuation_off = record {
  class = device_safety_error;
  message = "Hardware is in read-only mode; no command may be sent.";
}

abbrev pub number_of : Option Value → Option ℕ
number_of (some (int n)) = some n
number_of _ = none

abbrev pub addressed : Outcome String → Outcome String → ℕ → Outcome DeviceCommand
addressed (ok device) (ok channel) value =
    make_command (record { device = device; channel = channel; value = value })
addressed (ok device) (eden e) value = eden e
addressed (ok device) (crash t m) value = crash t m
addressed (eden e) channel value = eden e
addressed (crash t m) channel value = crash t m

abbrev pub numbered : Option ℕ → Action → Outcome DeviceCommand
numbered none a = eden numberless
numbered (some n) a = addressed (text_parameter a "device") (text_parameter a "channel") n

-- `_command_from`
unfoldable pub command_from : Action → Outcome DeviceCommand
command_from a = numbered (number_of (Dict.get "value" a.parameters)) a

module _ {W : Type 0} (drivers : String → Driver W) (host : Host W) where
  -- The action that puts the value back.
  abbrev pub undo_step : Action → DeviceCommand → (current : ℕ) → W → Outcome Action
  undo_step a c current w = make_action (host.new_id w) (record {
    kind = device_command;
    summary = "Restore " ⧺ c.device ⧺ "." ⧺ c.channel ⧺ " to " ⧺ host.show current ⧺ ".";
    parameters =
        ("device", str c.device) ∷ ("channel", str c.channel) ∷ ("value", int current) ∷ [];
    id = "";
    actor = a.actor;
    namespace = a.namespace;
    created_at = host.utc_now w;
    metadata = ("rollback_for", str a.id) ∷ [];
  })

  abbrev pub planned : DeviceCommand → (current : ℕ) → Outcome Action → Outcome Preparation
  planned c current (ok step) = ok (record {
    rollback = some (record {
      steps = step ∷ [];
      description = "Return " ⧺ c.device ⧺ "." ⧺ c.channel ⧺ " to " ⧺ host.show current ⧺ ".";
    });
    notes =
        ("device", str c.device)
        ∷ ("channel", str c.channel)
        ∷ ("previous_value", int current)
        ∷ ("existed", flag true)
        ∷ [];
  })
  planned c current (eden e) = eden e
  planned c current (crash t m) = crash t m

  -- `except (HardwareError, ValidationError)`: the channel could not be read back.
  abbrev pub unread : DeviceCommand → EdenError → Outcome Preparation
  unread c e =
      if is_a e.class hardware_error || is_a e.class validation_error
      then ok (record {
        rollback = none;
        notes =
            ("device", str c.device)
            ∷ ("channel", str c.channel)
            ∷ ("reason", str ("the channel could not be read back (" ⧺ code e.class ⧺ ")"))
            ∷ [];
      })
      else eden e

  abbrev pub prepared_from : Action → DeviceCommand → Outcome Reading → W → Outcome Preparation
  prepared_from a c (ok r) w = planned c r.value (undo_step a c r.value w)
  prepared_from a c (eden e) w = unread c e
  prepared_from a c (crash t m) w = crash t m

  abbrev pub prepare_command : Action → Outcome DeviceCommand → Eff (Fleet × W) Preparation
  prepare_command a (ok c) s =
      let (o, s') = Fleet.read drivers c.device c.channel s in (prepared_from a c o s'.1, s')
  prepare_command a (eden e) s = (eden e, s)
  prepare_command a (crash t m) s = (crash t m, s)

  -- `prepare`
  unfoldable pub prepare : Action → Eff (Fleet × W) Preparation
  prepare a s = prepare_command a (command_from a) s

  abbrev pub reported : DeviceCommand → Outcome Reading → Outcome ExecutionResult
  reported c (ok r) = ok (record {
    succeeded = true;
    output = c.device ⧺ "." ⧺ c.channel ⧺ " = " ⧺ host.show r.value;
    detail = ("device", str r.device) ∷ ("channel", str r.channel) ∷ ("value", int r.value) ∷ [];
  })
  reported c (eden e) = eden e
  reported c (crash t m) = crash t m

  abbrev pub execute_command : Outcome DeviceCommand → Eff (Fleet × W) ExecutionResult
  execute_command (ok c) s =
      let (o, s') = Fleet.send drivers c s in
      if s.0.read_only then (eden actuation_off, s) else (reported c o, s')
  execute_command (eden e) s = (eden e, s)
  execute_command (crash t m) s = (crash t m, s)

  -- `execute`
  unfoldable pub execute : Action → Preparation → Eff (Fleet × W) ExecutionResult
  execute a preparation s = execute_command (command_from a) s

  unfoldable pub device_command_handler : ActionHandler (Fleet × W)
  unfolding prepare execute
  device_command_handler = record { kind = device_command; prepare = prepare; execute = execute }
