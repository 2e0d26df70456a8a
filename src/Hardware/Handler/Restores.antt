-- ===== src/Hardware/Handler/Restores.antt =====
-- A device command and its rollback.
use eden_os.Prelude.{
  ℕ, suc, String, true, false, some, [], ◌∷◌, ◌≡◌, refl, sym, ap, subst, ◌∙◌, arith, if◌then◌else◌,
  eq_iff,
}
use eden_os.Prelude.Dict
use eden_os.Prelude.Dict.{Dict, get-put}
use eden_os.Effect.{Outcome, ok, eden}
use eden_os.Enums.{busy, is_ready}
use eden_os.Execution.Types.{Value, str, int, Action, make_action, Preparation}
use eden_os.Execution.Handlers.Base.{text_parameter}
use eden_os.Hardware.Device
use eden_os.Hardware.Device.{
  DeviceCommand, make_command, Driver, Device, Reading, exposes, within_limits, sent, observed,
  unsafe,
}
use eden_os.Hardware.Fleet
use eden_os.Hardware.Fleet.{Fleet, on_device}
use eden_os.Hardware.Handler.{
  Host, command_from, undo_step, execute, execute_command, prepare, prepare_command, prepared_from,
  planned, reported, actuation_off,
}

module _ {W : Type 0} (drivers : String → Driver W) (value : String → String → W → ℕ) where
  -- A device that does as it is told: a read reports the value of the channel and changes nothing,
  -- and a write sets the value and reports it; to wait changes no value.
  pub record IsObedient (name : String) : Type 0 where
    pub reads :
        (channel : String) (w : W)
        → (drivers name).read_channel channel w ≡ (ok (value name channel w), w)
    pub writes :
        (channel : String) (v : ℕ) (w : W) → ((drivers name).write_channel channel v w).0 ≡ ok v
    pub sets :
        (channel : String) (v : ℕ) (w : W)
        → value name channel ((drivers name).write_channel channel v w).1 ≡ v

  -- The step of the rollback plan is the command for the value that was read.
  command_from-undo_step :
      (host : Host W) (a : Action) (c : DeviceCommand) (current : ℕ) (w : W) (step : Action)
      → make_command c ≡ ok c
      → undo_step drivers host a c current w ≡ ok step
      → command_from step ≡ ok (record c { value = current })
  unfolding command_from make_command text_parameter Dict.get
  command_from-undo_step host a c current w step valid e =
      let params : Dict Value =
        ("device", str c.device) ∷ ("channel", str c.channel) ∷ ("value", int current) ∷ [] in
      let same : step.parameters ≡ params = unfold make_action in ground arith in
      let whole : step ≡ record step { parameters = params } =
        ap (λ p. record step { parameters = p }) same in
      let made : make_command (record c { value = current }) ≡ ok (record c { value = current }) =
        ground arith in
      subst (λ b. command_from b ≡ ok (record c { value = current })) (sym whole) made

  -- A command that a ready device accepts sets the value, and leaves the device ready.
  send-sets :
      (name : String) (c : DeviceCommand) (d : Device) (w : W)
      → IsObedient name
      → is_ready d.state ≡ true
      → exposes d.config.channels c.channel ≡ true
      → within_limits d.config c.channel c.value ≡ true
      → let r = Device.send (drivers name) c d w in
        (r.0 ≡ ok (record { device = d.config.name; channel = c.channel; value = c.value }))
        × (r.1 ≡ record d { commands_sent = suc d.commands_sent })
        × (value name c.channel r.2 ≡ c.value)
  unfolding Device.send
  send-sets name c d w obedient r x l =
      let driver = drivers name in
      let v = driver.acquire w in
      let w' = (driver.write_channel c.channel c.value v).1 in
      let passes : Device.send driver c d w ≡ (
        (sent driver c.channel d.state (driver.write_channel c.channel c.value v).0
            (record d { state = busy })).0,
        (sent driver c.channel d.state (driver.write_channel c.channel c.value v).0
            (record d { state = busy })).1,
        w',
      ) =
        rw (r, x, l) refl in
      let done =
        passes
        ∙ ap
            (λ o. (
              (sent driver c.channel d.state o (record d { state = busy })).0,
              (sent driver c.channel d.state o (record d { state = busy })).1,
              w',
            ))
            (obedient.writes c.channel c.value v) in
      (
        ap (λ t. t.0) done,
        ap (λ t. t.1) done,
        ap (λ t. value name c.channel t.2) done ∙ obedient.sets c.channel c.value v,
      )

  -- The device under a name is ready and exposes a channel.
  abbrev pub Serves : Fleet → (name channel : String) → Device → Type 0
  Serves fleet name channel d =
      (Dict.get name fleet.devices ≡ some d)
      × (is_ready d.state ≡ true)
      × (exposes d.config.channels channel ≡ true)

  stored :
      (name : String) (d : Device) (fleet : Fleet)
      → Dict.get name (Dict.put name d fleet.devices) ≡ some d
  stored name d fleet = ground (arith, get-put name name d fleet.devices, eq_iff name name)

  module _ (host : Host W) where
    execute-send :
        (a : Action) (p : Preparation) (c : DeviceCommand) (d : Device) (fleet : Fleet) (w : W)
        → command_from a ≡ ok c
        → fleet.read_only ≡ false
        → Dict.get c.device fleet.devices ≡ some d
        → let t = Device.send (drivers c.device) c d w in
          execute drivers host a p (fleet, w) ≡ (
            reported drivers host c t.0,
            (record fleet { devices = Dict.put c.device t.1 fleet.devices }, t.2),
          )
    unfolding execute Fleet.send
    execute-send a p c d fleet w is able at =
        let operation : Driver W → Device → W → Outcome Reading × Device × W =
          λ driver. Device.send driver c in
        let found = Dict.get c.device fleet.devices in
        let t = on_device drivers c.device operation found (fleet, w) in
        ap (λ o. execute_command drivers host o (fleet, w)) is
        ∙ ap
            (λ b.
              if b then (eden actuation_off, (fleet, w)) else (reported drivers host c t.0, t.1))
            able
        ∙ ap
            (λ o.
              let t = on_device drivers c.device operation o (fleet, w) in
              (reported drivers host c t.0, t.1))
            at

    execute-sets :
        (a : Action) (p : Preparation) (c : DeviceCommand) (d : Device) (fleet : Fleet) (w : W)
        → IsObedient c.device
        → command_from a ≡ ok c
        → fleet.read_only ≡ false
        → Serves fleet c.device c.channel d
        → within_limits d.config c.channel c.value ≡ true
        → let r = execute drivers host a p (fleet, w) in
          (value c.device c.channel r.1.1 ≡ c.value)
          × (r.1.0.read_only ≡ false)
          × Serves r.1.0 c.device c.channel (record d { commands_sent = suc d.commands_sent })
    execute-sets a p c d fleet w obedient is able serves l =
        let t = Device.send (drivers c.device) c d w in
        let (answer, next, set) = send-sets c.device c d w obedient serves.1 serves.2 l in
        let here = execute-send a p c d fleet w is able serves.0 in
        let kept =
          ap (λ x. Dict.get c.device x.1.0.devices) here
          ∙ stored c.device t.1 fleet
          ∙ ap some next in
        (
          ap (λ x. value c.device c.channel x.1.1) here ∙ set,
          ap (λ x. x.1.0.read_only) here ∙ able,
          (kept, serves.1, serves.2),
        )

    read-observes :
        (c : DeviceCommand) (d : Device) (w : W)
        → IsObedient c.device
        → is_ready d.state ≡ true
        → exposes d.config.channels c.channel ≡ true
        → Device.read (drivers c.device) c.channel d w ≡ (
          ok (record {
            device = d.config.name;
            channel = c.channel;
            value = value c.device c.channel w;
          }),
          d,
          w,
        )
    unfolding Device.read
    read-observes c d w obedient r x =
        rw (r, x)
          (ap
            (λ t. (
              (observed (drivers c.device) c.channel t.0 d).0,
              (observed (drivers c.device) c.channel t.0 d).1,
              t.1,
            ))
            (obedient.reads c.channel w))

    prepare_plans :
        (a : Action) (c : DeviceCommand) (d : Device) (fleet : Fleet) (w : W) (step : Action)
        → IsObedient c.device
        → command_from a ≡ ok c
        → Serves fleet c.device c.channel d
        → undo_step drivers host a c (value c.device c.channel w) w ≡ ok step
        → (prepare drivers host a (fleet, w)).0
          ≡ planned drivers host c (value c.device c.channel w) (ok step)
    unfolding prepare Fleet.read
    prepare_plans a c d fleet w step obedient is serves step_is =
        let operation : Driver W → Device → W → Outcome Reading × Device × W =
          λ driver. Device.read driver c.channel in
        let current = value c.device c.channel w in
        ap (λ o. (prepare_command drivers host a o (fleet, w)).0) is
        ∙ ap
            (λ o.
              let t = on_device drivers c.device operation o (fleet, w) in
              prepared_from drivers host a c t.0 t.1.1)
            serves.0
        ∙ ap (λ t. prepared_from drivers host a c t.0 t.2)
            (read-observes c d w obedient serves.1 serves.2)
        ∙ ap (planned drivers host c current) step_is

    -- A device command that is rolled back leaves the channel as it was. If the device does as it
    -- is told, is ready, exposes the channel, and actuation is allowed, then an action for a value
    -- within the limits sets the channel to it; and the step of the plan that `prepare` makes, where
    -- the value from before is within the limits too, sets the channel back to that value.
    pub rollback_restores :
        (a : Action) (p q : Preparation) (c : DeviceCommand) (d : Device) (fleet : Fleet) (w : W)
        (step : Action)
        → IsObedient c.device
        → command_from a ≡ ok c
        → make_command c ≡ ok c
        → fleet.read_only ≡ false
        → Serves fleet c.device c.channel d
        → within_limits d.config c.channel c.value ≡ true
        → within_limits d.config c.channel (value c.device c.channel w) ≡ true
        → undo_step drivers host a c (value c.device c.channel w) w ≡ ok step
        → let done = execute drivers host a p (fleet, w) in
          let back = execute drivers host step q done.1 in
          ((prepare drivers host a (fleet, w)).0
            ≡ planned drivers host c (value c.device c.channel w) (ok step))
          × (value c.device c.channel done.1.1 ≡ c.value)
          × (value c.device c.channel back.1.1 ≡ value c.device c.channel w)
    rollback_restores a p q c d fleet w step obedient is valid able serves l before step_is =
        let current = value c.device c.channel w in
        let (set, still, serves') = execute-sets a p c d fleet w obedient is able serves l in
        let r = execute drivers host a p (fleet, w) in
        let undo = command_from-undo_step host a c current w step valid step_is in
        let (restored, able', rest) =
          execute-sets step q (record c { value = current })
            (record d { commands_sent = suc d.commands_sent }) r.1.0 r.1.1 obedient undo still
            serves' before in
        (prepare_plans a c d fleet w step obedient is serves step_is, set, restored)

    refused_send :
        (c : DeviceCommand) (d : Device) (w : W)
        → is_ready d.state ≡ true
        → exposes d.config.channels c.channel ≡ true
        → within_limits d.config c.channel c.value ≡ false
        → Device.send (drivers c.device) c d w ≡ (eden unsafe, d, w)
    unfolding Device.send
    refused_send c d w r x l = rw (r, x, l) refl

    -- A value from before that is outside the limits cannot be restored. In the same case, but with
    -- that value outside the limits of the channel, the step of the rollback raises
    -- `DeviceSafetyError` and the channel keeps the value that was commanded.
    pub rollback_refused :
        (a : Action) (p q : Preparation) (c : DeviceCommand) (d : Device) (fleet : Fleet) (w : W)
        (step : Action)
        → IsObedient c.device
        → command_from a ≡ ok c
        → make_command c ≡ ok c
        → fleet.read_only ≡ false
        → Serves fleet c.device c.channel d
        → within_limits d.config c.channel c.value ≡ true
        → within_limits d.config c.channel (value c.device c.channel w) ≡ false
        → undo_step drivers host a c (value c.device c.channel w) w ≡ ok step
        → let done = execute drivers host a p (fleet, w) in
          let back = execute drivers host step q done.1 in
          (back.0 ≡ eden unsafe) × (value c.device c.channel back.1.1 ≡ c.value)
    rollback_refused a p q c d fleet w step obedient is valid able serves l before step_is =
        let current = value c.device c.channel w in
        let d' = record d { commands_sent = suc d.commands_sent } in
        let c' = record c { value = current } in
        let (set, still, serves') = execute-sets a p c d fleet w obedient is able serves l in
        let r = execute drivers host a p (fleet, w) in
        let undo = command_from-undo_step host a c current w step valid step_is in
        let here = execute-send step q c' d' r.1.0 r.1.1 undo still serves'.0 in
        let no = refused_send c' d' r.1.1 serves'.1 serves'.2 before in
        (
          ap (λ x. x.0) here ∙ ap (λ t. reported drivers host c' t.0) no,
          ap (λ x. value c.device c.channel x.1.1) here
              ∙ ap (λ t. value c.device c.channel t.2) no
              ∙ set,
        )
