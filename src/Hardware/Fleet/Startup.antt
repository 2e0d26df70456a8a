-- ===== src/Hardware/Fleet/Startup.antt =====
-- What starting the fleet does when a device does not answer.
use eden_os.Prelude.{
  List, Bool, String, true, false, [], ◌∷◌, ◌≡◌, refl, sym, ap, subst, ◌∙◌, ◌⊎◌, inl, inr, arith,
  if◌then◌else◌, Bool-cases, All,
}
use eden_os.Prelude.Dict.{Dict}
use eden_os.Errors.{EdenError, is_a, hardware_error, class_name}
use eden_os.Effect.{Outcome, ok, eden, crash}
use eden_os.Enums.{DeviceState, disconnected, connecting, ready, busy, faulted}
use eden_os.Hardware.Device.{DeviceConfig, Device, Driver, connect_from, connected, opened, fault}
use eden_os.Hardware.Device
use eden_os.Hardware.Fleet.{Fleet, declaration, held_back, tolerated, joined, connect_all, start}

module _ {W : Type 0} (drivers : String → Driver W) where
  -- Whether the declaration of a device keeps it from being connected at the start.
  abbrev pub is_held : List DeviceConfig → Device → Bool
  is_held declared d = held_back (declaration d.config.name declared)

  -- A device that has answered or is faulted, unless its declaration holds it back.
  abbrev pub Tried : List DeviceConfig → String × Device → Type 0
  Tried declared e = (is_held declared e.1 ≡ true) ⊎ ((e.1.state ≡ ready) ⊎ (e.1.state ≡ faulted))

  abbrev pub IsIdle : String × Device → Type 0
  IsIdle e = (e.1.state ≡ disconnected) ⊎ (e.1.state ≡ faulted)

  -- The drivers raise nothing but `HardwareError` when they connect.
  abbrev pub IsPolite : Type 0
  IsPolite = (name : String) (w : W) → tolerated ((drivers name).connects w).0 ≡ true

  abbrev Answered : Outcome (Unit {0}) × Device × W → Type 0
  Answered r = (tolerated r.0 ≡ true) × ((r.1.state ≡ ready) ⊎ (r.1.state ≡ faulted))

  connected-Answered :
      (driver : Driver W) (o : Outcome (Unit {0})) (d : Device) (w : W)
      → tolerated o ≡ true
      → Answered ((connected driver o d).0, (connected driver o d).1, w)
  connected-Answered driver (ok u) d w h = (unfold tolerated in refl, inl refl)
  connected-Answered driver (eden e) d w h = (h, inr refl)
  connected-Answered driver (crash t m) d w h = (h, inr refl)

  connect-Answered :
      IsPolite
      → (name : String) (s : DeviceState) (d : Device) (w : W) → (s ≡ disconnected) ⊎ (s ≡ faulted)
      → Answered (connect_from (drivers name) s d w)
  connect-Answered polite name disconnected d w h =
      connected-Answered (drivers name) ((drivers name).connects w).0
        (record d { state = connecting }) ((drivers name).connects w).1 (polite name w)
  connect-Answered polite name faulted d w h =
      connected-Answered (drivers name) ((drivers name).connects w).0
        (record d { state = connecting }) ((drivers name).connects w).1 (polite name w)
  connect-Answered polite name ready d w h = absurd (ground arith)
  connect-Answered polite name connecting d w h = absurd (ground arith)
  connect-Answered polite name busy d w h = absurd (ground arith)

  connect_all-skip :
      (declared : List DeviceConfig) (name : String) (d : Device) (rest : Dict Device) (w : W)
      → is_held declared d ≡ true
      → let r = connect_all drivers declared rest w in
        connect_all drivers declared ((name, d) ∷ rest) w ≡ (r.0, (name, d) ∷ r.1, r.2)
  unfolding connect_all tolerated
  connect_all-skip declared name d rest w e =
      let c = Device.connect (drivers name) d w in
      ap
        (λ b.
          if b
          then joined name d (ok tt) rest w (connect_all drivers declared rest w)
          else joined name c.1 c.0 rest c.2 (connect_all drivers declared rest c.2))
        e

  connect_all-try :
      (declared : List DeviceConfig) (name : String) (d : Device) (rest : Dict Device) (w : W)
      → is_held declared d ≡ false
      → let c = Device.connect (drivers name) d w in
        connect_all drivers declared ((name, d) ∷ rest) w
        ≡ joined name c.1 c.0 rest c.2 (connect_all drivers declared rest c.2)
  unfolding connect_all
  connect_all-try declared name d rest w e =
      let c = Device.connect (drivers name) d w in
      ap
        (λ b.
          if b
          then joined name d (ok tt) rest w (connect_all drivers declared rest w)
          else joined name c.1 c.0 rest c.2 (connect_all drivers declared rest c.2))
        e

  abbrev Done : List DeviceConfig → Outcome (Unit {0}) × Dict Device × W → Type 0
  Done declared r = (r.0 ≡ ok tt) × All (Tried declared) r.1

  joined-Done :
      (declared : List DeviceConfig) (name : String) (d : Device) (o : Outcome (Unit {0}))
      (rest : Dict Device) (w : W) (r : Outcome (Unit {0}) × Dict Device × W)
      → tolerated o ≡ true
      → Tried declared (name, d)
      → Done declared r
      → Done declared (joined name d o rest w r)
  joined-Done declared name d o rest w r e h done = rw e (done.0, (h, done.1))

  connect_all-Tried :
      IsPolite
      → (declared : List DeviceConfig) (devices : Dict Device) (w : W) → All IsIdle devices
      → Done declared (connect_all drivers declared devices w)
  unfolding Device.connect
  connect_all-Tried polite declared [] w h = unfold connect_all in (refl, tt)
  connect_all-Tried polite declared ((name, d) ∷ rest) w h =
      elim (Bool-cases (is_held declared d)) [
        | inl e ↦
            let done = connect_all-Tried polite declared rest w h.1 in
            subst (Done declared) (sym (connect_all-skip declared name d rest w e))
              (done.0, (inl e, done.1))
        | inr e ↦
            let r = connect_from (drivers name) d.state d w in
            let (caught, state) = connect-Answered polite name d.state d w h.0 in
            subst (Done declared) (sym (connect_all-try declared name d rest w e)) (
              joined-Done declared name r.1 r.0 rest r.2 (connect_all drivers declared rest r.2)
                caught (inr state) (connect_all-Tried polite declared rest r.2 h.1))
      ]

  start-connects :
      (fleet : Fleet) (w : W)
      → fleet.started ≡ false
      → let r = connect_all drivers fleet.declared fleet.devices w in
        start drivers (fleet, w) ≡ (r.0, (record fleet { devices = r.1; started = true }, r.2))
  unfolding start
  start-connects fleet w h =
      let r = connect_all drivers fleet.declared fleet.devices w in
      ap
        (λ b.
          if b
          then (ok tt, (fleet, w))
          else (r.0, (record fleet { devices = r.1; started = true }, r.2)))
        h

  connect-idle :
      (driver : Driver W) (d : Device) (w : W)
      → (d.state ≡ disconnected) ⊎ (d.state ≡ faulted)
      → Device.connect driver d w ≡ opened driver d w
  unfolding Device.connect
  connect-idle driver d w (inl h) = ap (λ s. connect_from driver s d w) h
  connect-idle driver d w (inr h) = ap (λ s. connect_from driver s d w) h

  -- One broken device does not stop the fleet. If the drivers raise nothing but `HardwareError`
  -- when they connect, and the fleet has not started and its devices are idle, then `start` returns
  -- and every device is ready or faulted, but for those whose declaration says that they are not to
  -- be connected at the start.
  pub start-Tried :
      IsPolite
      → (fleet : Fleet) (w : W) → fleet.started ≡ false
      → All IsIdle fleet.devices
      → ((start drivers (fleet, w)).0 ≡ ok tt)
        × All (Tried fleet.declared) (start drivers (fleet, w)).1.0.devices
  start-Tried polite fleet w h idle =
      subst (λ x. (x.0 ≡ ok tt) × All (Tried fleet.declared) x.1.0.devices)
        (sym (start-connects fleet w h))
        (connect_all-Tried polite fleet.declared fleet.devices w idle)

  -- An error that is no `HardwareError`, as `TransportError` is, aborts the start. If the first
  -- device is not held back by its declaration, is idle, and its driver raises such an error, then `start` raises it;
  -- the device is faulted, no other device is connected, and the fleet counts as started.
  pub start-aborts :
      (fleet : Fleet) (name : String) (d : Device) (rest : Dict Device) (w : W) (e : EdenError)
      → fleet.started ≡ false
      → fleet.devices ≡ (name, d) ∷ rest
      → is_held fleet.declared d ≡ false
      → IsIdle (name, d)
      → ((drivers name).connects w).0 ≡ eden e
      → is_a e.class hardware_error ≡ false
      → let r = start drivers (fleet, w) in
        (r.0 ≡ eden e)
        × (r.1.0.devices ≡ (name, fault (class_name e.class) d) ∷ rest)
        × (r.1.0.started ≡ true)
  unfolding tolerated
  start-aborts fleet name d rest w e h head on idle raised foreign =
      let driver = drivers name in
      let v = (driver.connects w).1 in
      let gone = fault (class_name e.class) d in
      let failed : Device.connect driver d w ≡ (eden e, gone, v) =
        connect-idle driver d w idle
        ∙ ap
            (λ o.
              let (o', d') = connected driver o (record d { state = connecting }) in (o', d', v))
            raised in
      let loop : connect_all drivers fleet.declared fleet.devices w
          ≡ (eden e, (name, gone) ∷ rest, v) =
        ap (λ ds. connect_all drivers fleet.declared ds w) head
        ∙ connect_all-try fleet.declared name d rest w on
        ∙ ap (λ c. joined name c.1 c.0 rest c.2 (connect_all drivers fleet.declared rest c.2))
            failed
        ∙ ap
            (λ b.
              if b
              then (
                (connect_all drivers fleet.declared rest v).0,
                (name, gone) ∷ (connect_all drivers fleet.declared rest v).1,
                (connect_all drivers fleet.declared rest v).2,
              )
              else (eden e, (name, gone) ∷ rest, v))
            foreign in
      subst (λ x. (x.0 ≡ eden e) × (x.1.0.devices ≡ (name, gone) ∷ rest) × (x.1.0.started ≡ true))
        (sym (start-connects fleet w h)) (ap (λ r. r.0) loop, ap (λ r. r.1) loop, refl)
