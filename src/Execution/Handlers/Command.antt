-- ===== src/Execution/Handlers/Command.antt =====
-- `ShellCommandHandler` of src/eden/execution/handlers.py.
use eden_os.Prelude.{String, true, false, Option, none, some, List, [], ◌∷◌}
use eden_os.Prelude.Dict
use eden_os.Effect.{Outcome, ok, eden, Eff}
use eden_os.Enums.{shell_command}
use eden_os.Execution.Types.{str, int, Action, Preparation, ExecutionResult}
use eden_os.Execution.Engine.Base.{ActionHandler}
use eden_os.Execution.Handlers.Base.{
  Machine, Process, unstarted, timed_out, ended, text_parameter, string_sequence, failure, after,
}

module _ {W : Type 0} (machine : Machine W) where
  abbrev outcome_of : String → Process → Outcome ExecutionResult
  outcome_of command unstarted = eden (failure "Command could not be started.")
  outcome_of command timed_out =
      eden (failure "Command exceeded its time budget and was terminated.")
  outcome_of command (ended false out err) = eden (failure "Command exited with a non-zero status.")
  outcome_of command (ended true out err) = ok (record {
    succeeded = true;
    output = out;
    detail = ("command", str command) ∷ ("exit_code", int 0) ∷ ("stderr", str err) ∷ [];
  })

  abbrev run_found : String → List String → Option String → Eff W ExecutionResult
  run_found command arguments none w =
      (eden (failure "Command was not found on the executable path."), w)
  run_found command arguments (some executable) w =
      let (process, w') = machine.spawn executable arguments w in (outcome_of command process, w')

  -- `ShellCommandHandler`
  unfoldable pub prepare_command : Action → Eff W Preparation
  prepare_command a w =
      after (text_parameter a "command")
        (λ command v. (
          ok (record {
            rollback = none;
            notes =
                ("command", str command)
                ∷ (
                  "reason",
                  str "the effects of an arbitrary program cannot be described in advance",
                )
                ∷ [];
          }),
          v,
        ))
        w

  unfoldable pub execute_command : Action → Preparation → Eff W ExecutionResult
  execute_command a p w =
      after (text_parameter a "command")
        (λ command v.
          after (string_sequence (Dict.get "arguments" a.parameters))
            (λ arguments u. run_found command arguments (machine.which command u) u) v)
        w

  unfoldable pub shell_command_handler : ActionHandler W
  shell_command_handler = record {
    kind = shell_command;
    prepare = prepare_command;
    execute = execute_command;
  }
