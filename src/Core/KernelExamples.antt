-- ===== src/Core/KernelExamples.antt =====
-- The properties of the kernel with the device manager as its hardware, and five subsystems that
-- keep a flag.
use eden_os.Prelude.{
  ℕ, String, Bool, true, false, not, none, [], ◌∷◌, ◌≡◌, refl, str_eq, if◌then◌else◌,
}
use eden_os.Effect.{ok, crash, Eff}
use eden_os.Hardware.Device.{DeviceConfig, Driver, new_device}
use eden_os.Hardware.Device
use eden_os.Hardware.Fleet.{Fleet}
use eden_os.Hardware.Fleet as Manager
use eden_os.Core.Kernel.{
  Component, Part, gateway, memory, hardware, execution, agents, automation, Enabled, Kernel, start,
  parts,
}

-- The fleet with the world of its drivers, and the flags of the other subsystems.
abbrev World : Type 0
World = (Fleet × ℕ) × (String → Bool)

abbrev running : String → World → Bool
running n w = if str_eq "hardware" n then w.0.0.started else w.1 n

abbrev set : String → Bool → (String → Bool) → String → Bool
set name b flags n = if str_eq name n then b else flags n

-- `if self._started: return` and `if not self._started: return`, as the subsystems have them
abbrev plain : String → Component World
plain name = record {
  component_name = name;
  start = λ w. (ok tt, if w.1 name then w else (w.0, set name true w.1));
  stop = λ w. (ok tt, if not (w.1 name) then w else (w.0, set name false w.1));
}

abbrev manager : (String → Driver ℕ) → Component World
manager drivers = record {
  component_name = "hardware";
  start = λ w. let (o, s) = Manager.start drivers w.0 in (o, (s, w.1));
  stop = λ w. (ok tt, (Manager.stop drivers w.0, w.1));
}

module _ (drivers : String → Driver ℕ) where
  abbrev component : Part → Component World
  component gateway = plain "ai-gateway"
  component memory = plain "memory"
  component hardware = manager drivers
  component execution = plain "execution"
  component agents = plain "agents"
  component automation = plain "automation"

  abbrev resolve : Part → Eff World (Component World)
  resolve p w = (ok (component p), w)

abbrev servo : String → Driver ℕ
servo name = record {
  connects = λ w. (ok tt, w);
  closes = λ w. (ok tt, w);
  read_channel = λ channel w. (ok w, w);
  write_channel = λ channel v w. (ok v, v);
  acquire = λ w. w;
}

-- A driver that fails with an error that the device manager does not catch.
abbrev broken : String → Driver ℕ
broken name = record (servo name) { connects = λ w. (crash "OSError" "no device", w) }

abbrev config : DeviceConfig
config = record { name = "arm"; channels = []; limits = []; connect_on_start = true }

abbrev world : World
world = (
  (
    record {
      declared = config ∷ [];
      devices = ("arm", new_device config) ∷ [];
      read_only = false;
      started = false;
    },
    0,
  ),
  λ n. str_eq "memory" n,
)

abbrev everything : Enabled
everything = record {
  memory = true;
  hardware = true;
  execution = true;
  agents = true;
  automation = true;
}

abbrev kernel : Kernel World
kernel = record { components = []; transport = none; started = false }

-- The third subsystem fails: the two before it are stopped again, also the one that ran before.
aborted :
    let w = (start (resolve broken) everything kernel world).2 in
    (w.1 "ai-gateway" ≡ false) × (w.1 "memory" ≡ false)
unfolding start parts Manager.start Manager.connect_all Device.connect Manager.tolerated
aborted = (refl, refl)

abbrev body : Eff World ℕ
body w = (ok 7, w)
