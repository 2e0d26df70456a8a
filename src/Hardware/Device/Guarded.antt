-- ===== src/Hardware/Device/Guarded.antt =====
-- What is ever written to a device.
use eden_os.Prelude.{ℕ, String, true, List, [], ◌∷◌, ◌≡◌, subst, ◌∙◌, inl, inr, arith, Bool-cases}
use eden_os.Enums.{DeviceState, disconnected, connecting, ready, busy, faulted, is_ready}
use eden_os.Hardware.Device.{
  DeviceConfig, DeviceCommand, Driver, Device, exposes, within_limits, connect_from,
  disconnect_from,
}
use eden_os.Hardware.Device

pub data Call : Type 0 where
  connect disconnect : Call
  read : (channel : String) → Call
  send : DeviceCommand → Call

-- A channel that the device exposes, and a value within its limits.
abbrev pub Allowed : DeviceConfig → (channel : String) → ℕ → Type 0
Allowed config channel value =
    (exposes config.channels channel ≡ true) × (within_limits config channel value ≡ true)

module _ {W : Type 0} (driver : Driver W) where
  unfoldable pub after : Call → Device × W → Device × W
  after connect (d, w) = let (o, d', w') = Device.connect driver d w in (d', w')
  after disconnect (d, w) = Device.disconnect driver d w
  after (read channel) (d, w) = let (o, d', w') = Device.read driver channel d w in (d', w')
  after (send c) (d, w) = let (o, d', w') = Device.send driver c d w in (d', w')

  unfoldable pub run : List Call → Device × W → Device × W
  run [] s = s
  run (c ∷ cs) s = run cs (after c s)

  after-config : (c : Call) (s : Device × W) → (after c s).0.config ≡ s.0.config
  unfolding after Device.connect Device.disconnect Device.read Device.send
  after-config connect (d, w) = ground arith
  after-config disconnect (d, w) = ground arith
  after-config (read channel) (d, w) = ground arith
  after-config (send c) (d, w) = ground arith

  module _ (config : DeviceConfig) (P : W → Type 0) where
    -- What is kept by all that a driver does, but for writes that are not allowed.
    pub record IsKept : Type 0 where
      pub connects : (w : W) → P w → P (driver.connects w).1
      pub closes : (w : W) → P w → P (driver.closes w).1
      pub reads : (channel : String) (w : W) → P w → P (driver.read_channel channel w).1
      pub waits : (w : W) → P w → P (driver.acquire w)
      pub writes :
          (channel : String) (value : ℕ) (w : W)
          → Allowed config channel value
          → P w
          → P (driver.write_channel channel value w).1

    connect-Kept :
        IsKept → (st : DeviceState) (d : Device) (w : W) → P w → P (connect_from driver st d w).2
    connect-Kept k ready d w p = p
    connect-Kept k busy d w p = p
    connect-Kept k disconnected d w p = k.connects w p
    connect-Kept k connecting d w p = k.connects w p
    connect-Kept k faulted d w p = k.connects w p

    disconnect-Kept :
        IsKept → (st : DeviceState) (d : Device) (w : W) → P w → P (disconnect_from driver st d w).1
    disconnect-Kept k disconnected d w p = p
    disconnect-Kept k connecting d w p = k.closes w p
    disconnect-Kept k ready d w p = k.closes w p
    disconnect-Kept k busy d w p = k.closes w p
    disconnect-Kept k faulted d w p = k.closes w p

    read-Kept :
        IsKept
        → (channel : String) (d : Device) (w : W) → P w
        → P (Device.read driver channel d w).2
    unfolding Device.read
    read-Kept k channel d w p = elim (Bool-cases (is_ready d.state)) [
      | inr e ↦ rw e p
      | inl e ↦ elim (Bool-cases (exposes d.config.channels channel)) [
        | inr f ↦ rw (e, f) p
        | inl f ↦ rw (e, f) (k.reads channel w p)
      ]
    ]

    send-Kept :
        IsKept
        → (c : DeviceCommand) (d : Device) (w : W) → d.config ≡ config
        → P w
        → P (Device.send driver c d w).2
    unfolding Device.send
    send-Kept k c d w same p = elim (Bool-cases (is_ready d.state)) [
      | inr e ↦ rw e p
      | inl e ↦ elim (Bool-cases (exposes d.config.channels c.channel)) [
        | inr f ↦ rw (e, f) p
        | inl f ↦ elim (Bool-cases (within_limits d.config c.channel c.value)) [
          | inr g ↦ rw (e, f, g) p
          | inl g ↦
              let allowed : Allowed config c.channel c.value =
                subst (λ x. Allowed x c.channel c.value) same (f, g) in
              rw (e, f, g) (k.writes c.channel c.value (driver.acquire w) allowed (k.waits w p))
        ]
      ]
    ]

    after-Kept :
        IsKept → (c : Call) (s : Device × W) → s.0.config ≡ config → P s.1 → P (after c s).1
    unfolding after Device.connect Device.disconnect
    after-Kept k connect (d, w) e p = connect-Kept k d.state d w p
    after-Kept k disconnect (d, w) e p = disconnect-Kept k d.state d w p
    after-Kept k (read channel) (d, w) e p = read-Kept k channel d w p
    after-Kept k (send c) (d, w) e p = send-Kept k c d w e p

    -- Nothing is written to a device but what its configuration allows. Whatever calls are made of
    -- it, in any order and with any failures of the driver, each property of the world that the
    -- driver's connections, reads and waits keep, and its writes to exposed channels of values
    -- within their limits, still holds after them.
    pub run-Kept :
        IsKept → (cs : List Call) (s : Device × W) → s.0.config ≡ config → P s.1 → P (run cs s).1
    unfolding run
    run-Kept k [] s e p = p
    run-Kept k (c ∷ cs) s e p =
        run-Kept k cs (after c s) (after-config c s ∙ e) (after-Kept k c s e p)
