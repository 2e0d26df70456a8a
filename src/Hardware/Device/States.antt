-- ===== src/Hardware/Device/States.antt =====
-- How the state of a device changes.
use eden_os.Prelude.{
  ℕ, String, Bool, true, false, List, [], ◌∷◌, ◌≡◌, refl, ap, ◌∙◌, ◌⊎◌, inl, inr, arith, Bool-cases,
  All,
}
use eden_os.Effect.{Outcome, ok, eden, crash, returns}
use eden_os.Enums.{DeviceState, disconnected, connecting, ready, busy, faulted, is_ready}
use eden_os.Hardware.Device
use eden_os.Hardware.Device.{
  DeviceCommand, Driver, Device, Reading, exposes, within_limits, connected, connect_from,
  disconnect_from, observed, sent, fault, opened,
}
use eden_os.Hardware.Device.Guarded.{Call, connect, disconnect, read, send, after, run}

abbrev pub is_request : Call → Bool
is_request connect = false
is_request disconnect = false
is_request (read channel) = true
is_request (send c) = true

-- The edges of the state machine: from a device and a world, by a call that returns or raises, to
-- the device and the world after it.
pub data Edge {W : Type 0} : Call → (returned : Bool) → Device × W → Device × W → Type 0 where
  opens :
      {s t : Device × W}
      → (s.0.state ≡ disconnected) ⊎ (s.0.state ≡ faulted)
      → t.0.state ≡ ready
      → t.0.last_error ≡ ""
      → Edge connect true s t
  already_open : {s : Device × W} → s.0.state ≡ ready → Edge connect true s s
  fails_to_open :
      {s t : Device × W}
      → (s.0.state ≡ disconnected) ⊎ (s.0.state ≡ faulted)
      → t.0.state ≡ faulted
      → Edge connect false s t
  closes : {s t : Device × W} → t.0.state ≡ disconnected → Edge disconnect true s t
  serves :
      {c : Call} {s t : Device × W}
      → is_request c ≡ true
      → s.0.state ≡ ready
      → t.0.state ≡ ready
      → Edge c true s t
  -- the hook of the driver was not reached
  refuses : {c : Call} {s : Device × W} → is_request c ≡ true → Edge c false s s
  breaks :
      {c : Call} {s t : Device × W}
      → is_request c ≡ true
      → s.0.state ≡ ready
      → t.0.state ≡ faulted
      → Edge c false s t

-- Between two calls a device is disconnected, ready or faulted.
abbrev pub IsSettled : DeviceState → Type 0
IsSettled s = (s ≡ disconnected) ⊎ ((s ≡ ready) ⊎ (s ≡ faulted))

module _ {W : Type 0} (driver : Driver W) where
  -- Whether a call returns; to disconnect never raises.
  abbrev pub answers : Call → Device × W → Bool
  answers connect (d, w) = returns (Device.connect driver d w).0
  answers disconnect s = true
  answers (read channel) (d, w) = returns (Device.read driver channel d w).0
  answers (send c) (d, w) = returns (Device.send driver c d w).0

  opened-Edge :
      (d : Device) (w v : W) (o : Outcome (Unit {0}))
      → (d.state ≡ disconnected) ⊎ (d.state ≡ faulted)
      → let r = connected driver o (record d { state = connecting }) in
        Edge connect (returns r.0) (d, w) (r.1, v) × IsSettled r.1.state
  opened-Edge d w v (ok u) h = (opens h refl refl, inr (inl refl))
  opened-Edge d w v (eden e) h = (fails_to_open h refl, inr (inr refl))
  opened-Edge d w v (crash t m) h = (fails_to_open h refl, inr (inr refl))

  connect-Edge :
      (s : DeviceState) (d : Device) (w : W)
      → d.state ≡ s
      → IsSettled s
      → let r = connect_from driver s d w in
        Edge connect (returns r.0) (d, w) (r.1, r.2) × IsSettled r.1.state
  connect-Edge disconnected d w e h =
      opened-Edge d w (driver.connects w).1 (driver.connects w).0 (inl e)
  connect-Edge faulted d w e h = opened-Edge d w (driver.connects w).1 (driver.connects w).0 (inr e)
  connect-Edge ready d w e h = (already_open e, inr (inl e))
  connect-Edge connecting d w e h = absurd (ground arith)
  connect-Edge busy d w e h = absurd (ground arith)

  disconnect-closes :
      (s : DeviceState) (d : Device) (w : W)
      → d.state ≡ s
      → (disconnect_from driver s d w).0.state ≡ disconnected
  disconnect-closes disconnected d w e = e
  disconnect-closes connecting d w e = refl
  disconnect-closes ready d w e = refl
  disconnect-closes busy d w e = refl
  disconnect-closes faulted d w e = refl

  is_ready_only : (s : DeviceState) → is_ready s ≡ true → s ≡ ready
  is_ready_only s h = ground arith

  -- A request of a settled device takes it along an edge to a settled device.
  abbrev Served : Call → Device × W → Outcome Reading × Device × W → Type 0
  Served c s (o, d, w) = Edge c (returns o) s (d, w) × IsSettled d.state

  read-hook :
      (channel : String) (d : Device) (w v : W) (o : Outcome ℕ)
      → d.state ≡ ready
      → let r = observed driver channel o d in Served (read channel) (d, w) (r.0, r.1, v)
  read-hook channel d w v (ok x) h = (serves refl h h, inr (inl h))
  read-hook channel d w v (eden e) h = (breaks refl h refl, inr (inr refl))
  read-hook channel d w v (crash t m) h = (breaks refl h refl, inr (inr refl))

  read-Served :
      (channel : String) (d : Device) (w : W)
      → IsSettled d.state
      → Served (read channel) (d, w) (Device.read driver channel d w)
  unfolding Device.read
  read-Served channel d w h = elim (Bool-cases (is_ready d.state)) [
    | inr e ↦ rw e (refuses refl, h)
    | inl e ↦ elim (Bool-cases (exposes d.config.channels channel)) [
      | inr f ↦ rw (e, f) (refuses refl, h)
      | inl f ↦
          let (o, v) = driver.read_channel channel w in
          rw (e, f) (read-hook channel d w v o (is_ready_only d.state e))
    ]
  ]

  send-hook :
      (c : DeviceCommand) (d : Device) (w v : W) (o : Outcome ℕ)
      → d.state ≡ ready
      → let r = sent driver c.channel d.state o (record d { state = busy }) in
        Served (send c) (d, w) (r.0, r.1, v)
  send-hook c d w v (ok x) h = (serves refl h h, inr (inl h))
  send-hook c d w v (eden e) h = (breaks refl h refl, inr (inr refl))
  send-hook c d w v (crash t m) h = (breaks refl h refl, inr (inr refl))

  send-Served :
      (c : DeviceCommand) (d : Device) (w : W)
      → IsSettled d.state
      → Served (send c) (d, w) (Device.send driver c d w)
  unfolding Device.send
  send-Served c d w h = elim (Bool-cases (is_ready d.state)) [
    | inr e ↦ rw e (refuses refl, h)
    | inl e ↦ elim (Bool-cases (exposes d.config.channels c.channel)) [
      | inr f ↦ rw (e, f) (refuses refl, h)
      | inl f ↦ elim (Bool-cases (within_limits d.config c.channel c.value)) [
        | inr g ↦ rw (e, f, g) (refuses refl, h)
        | inl g ↦
            let (o, v) = driver.write_channel c.channel c.value (driver.acquire w) in
            rw (e, f, g) (send-hook c d w v o (is_ready_only d.state e))
      ]
    ]
  ]

  -- Each call takes a device that is disconnected, ready or faulted along the edge that the call
  -- and its outcome prescribe, and leaves it disconnected, ready or faulted. To connect, where it
  -- is not ready yet, makes it ready and clears its error if it returns, and faulted if it raises;
  -- to disconnect leaves it disconnected; a read or a command that returns found it ready and
  -- leaves it so; one that raises either changes nothing at all or takes it from ready to faulted.
  pub after-Edge :
      (c : Call) (s : Device × W)
      → IsSettled s.0.state
      → Edge c (answers c s) s (after driver c s) × IsSettled (after driver c s).0.state
  unfolding after Device.connect Device.disconnect
  after-Edge connect (d, w) h = connect-Edge d.state d w refl h
  after-Edge disconnect (d, w) h = let e = disconnect-closes d.state d w refl in (closes e, inl e)
  after-Edge (read channel) (d, w) h = read-Served channel d w h
  after-Edge (send c) (d, w) h = send-Served c d w h

  unready_request :
      (c : Call) (s : Device × W)
      → is_request c ≡ true
      → is_ready s.0.state ≡ false
      → after driver c s ≡ s
  unfolding after Device.read Device.send
  unready_request connect s r h = cc
  unready_request disconnect s r h = cc
  unready_request (read channel) (d, w) r h = rw h refl
  unready_request (send c) (d, w) r h = rw h refl

  -- A device that is not ready, a faulted one among them, is inert: any reads and commands, until
  -- it is connected again, change neither the device nor the world.
  pub unready_inert :
      (cs : List Call) (s : Device × W)
      → All (λ c. is_request c ≡ true) cs
      → is_ready s.0.state ≡ false
      → run driver cs s ≡ s
  unfolding run
  unready_inert [] s r h = refl
  unready_inert (c ∷ cs) s r h =
      ap (run driver cs) (unready_request c s r.0 h) ∙ unready_inert cs s r.1 h
