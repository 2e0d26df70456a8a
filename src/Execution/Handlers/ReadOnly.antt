-- ===== src/Execution/Handlers/ReadOnly.antt =====
-- The handlers of src/eden/execution/handlers.py prepare without touching the world.
use eden_os.Prelude.{String, Bool, true, false, Option, none, some, ◌≡◌, refl, arith}
use eden_os.Effect.{Outcome, ok, eden, crash}
use eden_os.Execution.Types.{Action, ExecutionConfig, make_action}
use eden_os.Execution.Verification.Scope.{Parts}
use eden_os.Execution.Engine.Base.{ActionHandler}
use eden_os.Execution.Handlers.Base.{Machine, text_parameter, after}
use eden_os.Execution.Handlers.{
  path_of, prepare_write, prepare_delete, file_write_handler, file_delete_handler, prepare_write_at,
  prepare_delete_at,
}
use eden_os.Execution.Handlers.Command.{shell_command_handler, prepare_command}

module _ {W : Type 0} (machine : Machine W) (config : ExecutionConfig) where
  after-world :
      {A B : Type 0} (o : Outcome A) (next : A → W → Outcome B × W) (w : W)
      → ((x : A) → (next x w).1 ≡ w)
      → (after o next w).1 ≡ w
  after-world (ok x) next w h = h x
  after-world (eden e) next w h = refl
  after-world (crash t m) next w h = refl

  prepare_write_at-world :
      (a : Action) (path : Parts) (there : Bool) (text : Option String) (w : W)
      → (prepare_write_at machine config a path there text w).1 ≡ w
  unfolding make_action
  prepare_write_at-world a path false text w = ground arith
  prepare_write_at-world a path true none w = refl
  prepare_write_at-world a path true (some previous) w = ground arith

  prepare_delete_at-world :
      (a : Action) (path : Parts) (there dir : Bool) (text : Option String) (w : W)
      → (prepare_delete_at machine config a path there dir text w).1 ≡ w
  unfolding make_action
  prepare_delete_at-world a path false dir text w = refl
  prepare_delete_at-world a path true true text w = refl
  prepare_delete_at-world a path true false none w = refl
  prepare_delete_at-world a path true false (some previous) w = ground arith

  -- The handlers prepare without touching the world.
  abbrev pub ReadOnly : ActionHandler W → Type 0
  ReadOnly h = (a : Action) (w : W) → (h.prepare a w).1 ≡ w

  pub file_write_handler-ReadOnly : ReadOnly (file_write_handler machine config)
  unfolding file_write_handler prepare_write
  file_write_handler-ReadOnly a w =
      after-world (text_parameter a "path") _ w
        (λ raw. prepare_write_at-world a (path_of machine config raw) _ _ w)

  pub file_delete_handler-ReadOnly : ReadOnly (file_delete_handler machine config)
  unfolding file_delete_handler prepare_delete
  file_delete_handler-ReadOnly a w =
      after-world (text_parameter a "path") _ w
        (λ raw. prepare_delete_at-world a (path_of machine config raw) _ _ _ w)

  pub shell_command_handler-ReadOnly : ReadOnly (shell_command_handler machine)
  unfolding shell_command_handler prepare_command
  shell_command_handler-ReadOnly a w =
      after-world (text_parameter a "command") _ w (λ command. refl)
