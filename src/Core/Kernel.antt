-- ===== src/Core/Kernel.antt =====
-- src/eden/core/kernel.py: the start and the stop of the subsystems. `resolve` is the container's
-- resolution of a subsystem, once `_register_bindings` has run; logging and the directories that
-- `start` prepares before are left out.
pub mod Lifecycle
pub mod Released
use eden_os.Prelude.{
  String, Bool, true, false, not, Option, none, some, List, [], ◌∷◌, ◌++◌, if◌then◌else◌,
}
use eden_os.Errors.{EdenError, lifecycle_error}
use eden_os.Effect.{Outcome, ok, eden, crash, Eff}

-- `Lifecycle`
pub record Component (W : Type 0) : Type 0 where
  pub component_name : String
  pub start : Eff W (Unit {0})
  pub stop : Eff W (Unit {0})

pub data Part : Type 0 where
  gateway memory hardware execution agents automation : Part

-- The `enabled` flags of the configuration.
pub record Enabled : Type 0 where
  pub memory : Bool
  pub hardware : Bool
  pub execution : Bool
  pub agents : Bool
  pub automation : Bool

abbrev pub when : Bool → Part → List Part
when true p = p ∷ []
when false p = []

-- The order in which `start` resolves the subsystems.
unfoldable pub parts : Enabled → List Part
parts e =
    gateway
    ∷ (when e.memory memory
        ++ when e.hardware hardware
        ++ when e.execution execution
        ++ when e.agents agents
        ++ when e.automation automation)

pub record Kernel (W : Type 0) : Type 0 where
  pub components : List (Component W)
  -- `transport.aclose`, if there is a transport
  pub transport : Option (Eff W (Unit {0}))
  pub started : Bool

abbrev pub failed_to_start : EdenError
failed_to_start = record { class = lifecycle_error; message = "EDEN failed to start." }

abbrev pub not_started : EdenError
not_started = record { class = lifecycle_error; message = "The kernel has not been started." }

abbrev pub disabled : String → EdenError
disabled message = record { class = lifecycle_error; message = message }

-- An accessor of a subsystem: `_require_started`, the flag, and the resolution.
abbrev pub access :
    {W : Type 0}
    → (started enabled : Bool) (message : String) → Eff W (Component W)
    → Eff W (Component W)
access started enabled message resolved w =
    if not started
    then (eden not_started, w)
    else if not enabled
    then (eden (disabled message), w)
    else resolved w

module _ {W : Type 0} where
  -- `_stop_components`
  unfoldable pub stop_components : List (Component W) → W → W
  stop_components [] w = w
  stop_components (c ∷ cs) w = stop_components cs (c.stop w).1

  abbrev pub reversed : List (Component W) → List (Component W)
  reversed [] = []
  reversed (c ∷ cs) = reversed cs ++ c ∷ []

  abbrev pub joined :
      Outcome (Component W)
      → W
      → Outcome (Unit {0}) × List (Component W) × W
      → Outcome (Unit {0}) × List (Component W) × W
  joined (ok c) w (o, cs, w') = (o, c ∷ cs, w')
  joined (eden e) w rest = (eden e, [], w)
  joined (crash t m) w rest = (crash t m, [], w)

  -- The resolutions of `start`: those that came before a failing one stay in `_components`.
  unfoldable pub resolve_parts :
      (Part → Eff W (Component W)) → List Part → W → Outcome (Unit {0}) × List (Component W) × W
  resolve_parts resolve [] w = (ok tt, [], w)
  resolve_parts resolve (p ∷ ps) w =
      let (o, w') = resolve p w in joined o w' (resolve_parts resolve ps w')

  -- The loop of `start`. What has started is kept with the latest first.
  unfoldable pub start_each :
      (started : List (Component W)) → List (Component W) → W → Bool × List (Component W) × W
  start_each started [] w = (true, started, w)
  start_each started (c ∷ cs) w = elim (c.start w).0 [
    | ok u ↦ start_each (c ∷ started) cs (c.start w).1
    | eden e ↦ (false, started, (c.start w).1)
    | crash t m ↦ (false, started, (c.start w).1)
  ]

  -- What `start` makes of the loop: all have started, or those that have are stopped again.
  abbrev pub settled : Kernel W → Bool × List (Component W) × W → Outcome (Unit {0}) × Kernel W × W
  settled kernel (true, started, w) = (ok tt, record kernel { started = true }, w)
  settled kernel (false, started, w) = (eden failed_to_start, kernel, stop_components started w)

  abbrev pub launched :
      Kernel W → Outcome (Unit {0}) × List (Component W) × W → Outcome (Unit {0}) × Kernel W × W
  launched kernel (ok u, components, w) =
      settled (record kernel { components = components }) (start_each [] components w)
  launched kernel (eden e, components, w) = (eden e, record kernel { components = components }, w)
  launched kernel (crash t m, components, w) =
      (crash t m, record kernel { components = components }, w)

  -- `start`
  unfoldable pub start :
      (Part → Eff W (Component W)) → Enabled → Kernel W → W → Outcome (Unit {0}) × Kernel W × W
  unfolding resolve_parts start_each stop_components
  start resolve enabled kernel w =
      if kernel.started
      then (ok tt, kernel, w)
      else launched kernel (resolve_parts resolve (parts enabled) w)

  abbrev pub closed : Option (Eff W (Unit {0})) → W → W
  closed none w = w
  closed (some aclose) w = (aclose w).1

  -- `stop`
  unfoldable pub stop : Kernel W → W → Kernel W × W
  unfolding stop_components
  stop kernel w = if not kernel.started then (kernel, w) else (
    record kernel { started = false },
    closed kernel.transport (stop_components (reversed kernel.components) w),
  )

  abbrev pub in_session :
      {A : Type 0} → Eff W A → Outcome (Unit {0}) × Kernel W × W → Outcome A × Kernel W × W
  in_session body (ok u, kernel, w) =
      let (result, w') = body w in let (kernel', w'') = stop kernel w' in (result, kernel', w'')
  in_session body (eden e, kernel, w) = (eden e, kernel, w)
  in_session body (crash t m, kernel, w) = (crash t m, kernel, w)

  -- `session`, and `__aenter__` with `__aexit__`: the body, and then `stop` however it ended.
  unfoldable pub session :
      {A : Type 0} (resolve : Part → Eff W (Component W)) (enabled : Enabled) (kernel : Kernel W)
      → Eff W A
      → W
      → Outcome A × Kernel W × W
  unfolding start stop
  session resolve enabled kernel body w = in_session body (start resolve enabled kernel w)
