-- ===== src/Hardware/Examples.antt =====
-- The properties of the hardware at a rig with one servo: the world is the angle of the servo.
use eden_os.Prelude.{
  ℕ, ◌≤◌, String, true, false, none, List, [], ◌∷◌, ◌≡◌, refl, inl, inr, arith, All, eq_iff,
}
use eden_os.Prelude.Dict
use eden_os.Prelude.Text.{contains, is_blank}
use eden_os.Errors.{is_a, transport_error, device_command_error}
use eden_os.Effect.{ok, eden}
use eden_os.Enums.{ready, device_command}
use eden_os.Execution.Types.{Action, str, int, make_action, Preparation}
use eden_os.Execution.Handlers.Base.{text_parameter}
use eden_os.Hardware.Device.{DeviceConfig, Device, Driver, DeviceCommand, new_device, make_command}
use eden_os.Hardware.Device.Guarded.{
  Call, connect, disconnect, read, send, after, run, IsKept, run-Kept,
}
use eden_os.Hardware.Device.States.{Edge, IsSettled, answers, after-Edge}
use eden_os.Hardware.Fleet.{Fleet, start, tolerated}
use eden_os.Hardware.Fleet.Startup.{Tried, start-Tried}
use eden_os.Hardware.Handler.{Host, command_from, execute, prepare, planned}
use eden_os.Hardware.Handler.Restores.{IsObedient, rollback_restores}

abbrev servo : Driver ℕ
servo = record {
  connects = λ w. (ok tt, w);
  closes = λ w. (ok tt, w);
  read_channel = λ channel w. (ok w, w);
  write_channel = λ channel v w. (ok v, v);
  acquire = λ w. w;
}

abbrev config : DeviceConfig
config = record {
  name = "arm";
  channels = "servo" ∷ [];
  limits = ("servo", (0, 90)) ∷ [];
  connect_on_start = true;
}

abbrev arm : Device
arm = record (new_device config) { state = ready }

abbrev turn : ℕ → DeviceCommand
turn v = record { device = "arm"; channel = "servo"; value = v }

-- The angle never leaves the limits.
abbrev InRange : ℕ → Type 0
InRange w = w ≤ 90

servo-IsKept : IsKept servo config InRange
unfolding contains
servo-IsKept = record {
  connects = λ w p. p;
  closes = λ w p. p;
  reads = λ channel w p. p;
  waits = λ w p. p;
  writes = λ channel v w allowed p. ground (arith, eq_iff "servo" channel);
}

abbrev session : List Call
session = connect ∷ send (turn 45) ∷ send (turn 200) ∷ read "servo" ∷ disconnect ∷ []

run-Kept_example : (run servo session (new_device config, 10)).1 ≤ 90
run-Kept_example =
    run-Kept servo config InRange servo-IsKept session (new_device config, 10) refl (omega arith)

after-Edge_example :
    Edge
      (send (turn 45))
      (answers servo (send (turn 45)) (arm, 10))
      (arm, 10)
      (after servo (send (turn 45)) (arm, 10))
    × IsSettled (after servo (send (turn 45)) (arm, 10)).0.state
after-Edge_example = after-Edge servo (send (turn 45)) (arm, 10) (inr (inl refl))

abbrev drivers : String → Driver ℕ
drivers name = servo

-- A driver whose connection is refused by the transport, or by the device itself.
abbrev unplugged : String → Driver ℕ
unplugged name = record servo {
  connects = λ w. (eden (record { class = transport_error; message = "refused" }), w);
}

abbrev silent : String → Driver ℕ
silent name = record servo {
  connects = λ w. (eden (record { class = device_command_error; message = "no answer" }), w);
}

abbrev fleet : Fleet
fleet = record {
  declared = config ∷ record config { name = "leg" } ∷ [];
  devices = ("arm", new_device config) ∷ ("leg", new_device (record config { name = "leg" })) ∷ [];
  read_only = false;
  started = false;
}

start-Tried_example :
    ((start silent (fleet, 10)).0 ≡ ok tt)
    × All (Tried silent fleet.declared) (start silent (fleet, 10)).1.0.devices
unfolding tolerated is_a
start-Tried_example = start-Tried silent (λ name w. refl) fleet 10 refl (inl refl, (inl refl, tt))

abbrev host : Host ℕ
host = record { new_id = λ w. "act-2"; utc_now = λ w. 7; show = λ n. "n" }

abbrev action : ℕ → Action
action v = record {
  kind = device_command;
  summary = "turn";
  parameters = ("device", str "arm") ∷ ("channel", str "servo") ∷ ("value", int v) ∷ [];
  id = "act-1";
  actor = "me";
  namespace = "lab";
  created_at = 5;
  metadata = [];
}

abbrev undo : ℕ → Action
undo v = record (action v) {
  summary = "Restore arm.servo to n.";
  id = "act-2";
  created_at = 7;
  metadata = ("rollback_for", str "act-1") ∷ [];
}

abbrev running : Fleet
running = record fleet { devices = ("arm", arm) ∷ []; started = true }

abbrev nothing : Preparation
nothing = record { rollback = none; notes = [] }

abbrev angle : String → String → ℕ → ℕ
angle name channel w = w

servo-IsObedient : (name : String) → IsObedient drivers angle name
servo-IsObedient name = record {
  reads = λ channel w. refl;
  writes = λ channel v w. refl;
  sets = λ channel v w. refl;
}

rollback_restores_example :
    let done = execute drivers host (action 45) nothing (running, 10) in
    let back = execute drivers host (undo 10) nothing done.1 in
    ((prepare drivers host (action 45) (running, 10)).0
      ≡ planned drivers host (turn 45) 10 (ok (undo 10)))
    × (done.1.1 ≡ 45)
    × (back.1.1 ≡ 10)
unfolding command_from make_command make_action text_parameter Dict.get contains is_blank
rollback_restores_example =
    rollback_restores drivers angle host (action 45) nothing nothing (turn 45) arm running 10
      (undo 10) (servo-IsObedient "arm") refl refl refl (refl, refl, refl) refl refl refl
