-- ===== src/Hardware/Fleet.antt =====
-- `DeviceManager` of src/eden/hardware/manager.py. The drivers are given by the names of their
-- devices; the fleet and the world are threaded together.
pub mod Startup
use eden_os.Prelude.{
  ℕ, String, Bool, true, false, not, Option, none, some, List, [], ◌∷◌, if◌then◌else◌, str_eq,
}
use eden_os.Prelude.Dict
use eden_os.Prelude.Dict.{Dict}
use eden_os.Errors.{EdenError, is_a, hardware_error, device_not_found_error}
use eden_os.Effect.{Outcome, ok, eden, crash, Eff}
use eden_os.Hardware.Device.{DeviceConfig, Device, Driver, DeviceCommand, Reading}
use eden_os.Hardware.Device

pub record Fleet : Type 0 where
  -- `HardwareConfig.devices`
  pub declared : List DeviceConfig
  pub devices : Dict Device
  pub read_only : Bool
  pub started : Bool

-- The loop of `HardwareConfig.device`
abbrev pub declaration : (name : String) → List DeviceConfig → Option DeviceConfig
declaration name [] = none
declaration name (c ∷ cs) =
    let later = declaration name cs in if str_eq c.name name then some c else later

-- `declared is not None and not declared.connect_on_start`
abbrev pub held_back : Option DeviceConfig → Bool
held_back none = false
held_back (some c) = not c.connect_on_start

-- `declared.channels if declared else ()`
abbrev pub channels_of : Option DeviceConfig → List String
channels_of none = []
channels_of (some c) = c.channels

abbrev pub unknown_device : EdenError
unknown_device = record {
  class = device_not_found_error;
  message = "No device is registered under this name.";
}

-- Whether `except HardwareError` catches what was raised, or nothing was raised.
unfoldable pub tolerated {ℓ} : {A : Type ℓ} → Outcome A → Bool
tolerated (ok a) = true
tolerated (eden e) = is_a e.class hardware_error
tolerated (crash t m) = false

-- One pass of the loop of `start`, given the rest of the loop from what the pass leaves.
abbrev pub joined :
    {W : Type 0} (name : String)
    → Device
    → Outcome (Unit {0})
    → (rest : Dict Device) → W
    → Outcome (Unit {0}) × Dict Device × W
    → Outcome (Unit {0}) × Dict Device × W
joined name d o rest w (o', rest', w') =
    if tolerated o then (o', (name, d) ∷ rest', w') else (o, (name, d) ∷ rest, w)

module _ {W : Type 0} (drivers : String → Driver W) where
  -- An operation on the device under a name.
  abbrev pub on_device :
      {A : Type 0}
      → String
      → (Driver W → Device → W → Outcome A × Device × W)
      → Option Device
      → Eff (Fleet × W) A
  on_device name operation none (fleet, w) = (eden unknown_device, (fleet, w))
  on_device name operation (some d) (fleet, w) =
      let (o, d', w') = operation (drivers name) d w in
      (o, (record fleet { devices = Dict.put name d' fleet.devices }, w'))

  -- `read`
  unfoldable pub read : (device channel : String) → Eff (Fleet × W) Reading
  read device channel s =
      on_device device (λ driver. Device.read driver channel) (Dict.get device s.0.devices) s

  -- `device(name).send(command)`, as the handler calls it
  unfoldable pub send : DeviceCommand → Eff (Fleet × W) Reading
  send c s = on_device c.device (λ driver. Device.send driver c) (Dict.get c.device s.0.devices) s

  -- The loop of `read_all`, which omits a channel that fails with a `HardwareError`.
  unfoldable pub read_each :
      (device : String) → (channels : List String) → Eff (Fleet × W) (List Reading)
  unfolding read
  read_each device [] s = (ok [], s)
  read_each device (c ∷ cs) s =
      let (o, s') = read device c s in kept o (tolerated o) (read_each device cs s') s'
    where
      kept :
          Outcome Reading
          → Bool
          → Outcome (List Reading) × (Fleet × W)
          → Fleet × W
          → Outcome (List Reading) × (Fleet × W)
      kept (ok r) caught (ok rs, s) now = (ok (r ∷ rs), s)
      kept (ok r) caught (eden e, s) now = (eden e, s)
      kept (ok r) caught (crash t m, s) now = (crash t m, s)
      kept (eden e) true rest now = rest
      kept (eden e) false rest now = (eden e, now)
      kept (crash t m) caught rest now = (crash t m, now)

  abbrev swept : (device : String) → Option Device → Eff (Fleet × W) (List Reading)
  swept device none s = (eden unknown_device, s)
  swept device (some d) s = read_each device (channels_of (declaration device s.0.declared)) s

  -- `read_all`
  unfoldable pub read_all : (device : String) → Eff (Fleet × W) (List Reading)
  unfolding read_each
  read_all device s = swept device (Dict.get device s.0.devices) s

  -- The loop of `start`
  unfoldable pub connect_all :
      List DeviceConfig → Dict Device → W → Outcome (Unit {0}) × Dict Device × W
  connect_all declared [] w = (ok tt, [], w)
  connect_all declared ((name, d) ∷ rest) w =
      let skipped = joined name d (ok tt) rest w (connect_all declared rest w) in
      let (o, d', w') = Device.connect (drivers name) d w in
      let tried = joined name d' o rest w' (connect_all declared rest w') in
      if held_back (declaration d.config.name declared) then skipped else tried

  -- `start`
  unfoldable pub start : Eff (Fleet × W) (Unit {0})
  unfolding connect_all
  start (fleet, w) =
      let (o, devices, w') = connect_all fleet.declared fleet.devices w in
      if fleet.started
      then (ok tt, (fleet, w))
      else (o, (record fleet { devices = devices; started = true }, w'))

  disconnect_all : Dict Device → W → Dict Device × W
  disconnect_all [] w = ([], w)
  disconnect_all ((name, d) ∷ rest) w =
      let (d', w') = Device.disconnect (drivers name) d w in
      let (rest', w'') = disconnect_all rest w' in ((name, d') ∷ rest', w'')

  -- `stop`
  unfoldable pub stop : Fleet × W → Fleet × W
  unfolding disconnect_all
  stop (fleet, w) =
      let (devices, w') = disconnect_all fleet.devices w in
      if not fleet.started
      then (fleet, w)
      else (record fleet { devices = devices; started = false }, w')
