-- ===== src/Core/Kernel/Released.antt =====
-- What a start and a session leave running.
use eden_os.Prelude.{String, Bool, true, false, Option, List, ◌≡◌, ◌⊎◌, if◌then◌else◌, All, length}
use eden_os.Effect.{Outcome, ok, eden, crash, Eff, returns}
use eden_os.Core.Kernel.{Component, Part, Kernel}
use eden_os.Core.Kernel.Lifecycle.{named, IsLifecycle, IsQuiet, Runs, Undone}

module _ {W : Type 0} (running : String → W → Bool) where
  -- Nothing that runs has changed.
  abbrev pub Alike : (before after : W) → Type 0
  Alike before after = (n : String) → running n after ≡ running n before

  -- A kernel that has started: one component for each enabled part, and they run beside what ran
  -- before.
  pub record Up {A : Type 0} (ps : List Part) (transport : Option (Eff W (Unit {0}))) (before : W)
      (r : Outcome A × Kernel W × W) : Type 0 where
    pub answered : returns r.0 ≡ true
    pub started : r.1.started ≡ true
    pub kept : r.1.transport ≡ transport
    pub proper : All (IsLifecycle running) r.1.components
    pub whole : length r.1.components ≡ length ps
    pub runs : Runs running before r.1.components r.2

  -- A start that has failed: before any component was started, or by one that raised.
  pub record Aborted {A : Type 0} (before : W) (r : Outcome A × Kernel W × W) : Type 0 where
    pub raised : returns r.0 ≡ false
    pub idle : r.1.started ≡ false
    pub leaves : Alike before r.2 ⊎ Undone running before r.1.components r.2

  -- A session that has ended: its components do not run, and of the others what ran before does.
  pub record Cleared {A : Type 0} (ps : List Part) (before : W) (r : Outcome A × Kernel W × W)
      : Type 0 where
    pub idle : r.1.started ≡ false
    pub whole : length r.1.components ≡ length ps
    pub leaves :
        (n : String) → running n r.2 ≡ (if named r.1.components n then false else running n before)

  module _ (resolve : Part → Eff W (Component W)) (quiet : IsQuiet running resolve) where
    -- What the resolutions come to: nothing has started, and there is a component for each part
    -- unless one raised.
    abbrev Resolved : List Part → W → Outcome (Unit {0}) × List (Component W) × W → Type 0
    Resolved ps w (ok u, cs, v) = Alike w v × All (IsLifecycle running) cs × (length cs ≡ length ps)
    Resolved ps w (eden e, cs, v) = Alike w v × All (IsLifecycle running) cs
    Resolved ps w (crash t m, cs, v) = Alike w v × All (IsLifecycle running) cs
