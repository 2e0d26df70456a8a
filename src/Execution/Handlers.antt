-- ===== src/Execution/Handlers.antt =====
-- src/eden/execution/handlers.py: what the shipped handlers prepare and do. The machine supplies
-- the file system, the processes, the clock and fresh identifiers.
pub mod Newlines
pub mod Base
pub mod Command
pub mod Plans
pub mod Undo
pub mod ReadOnly
pub mod Restores
use Prim.Native.String.{len}
use eden_os.Prelude.{ℕ, String, Bool, true, false, Option, none, some, List, [], ◌∷◌, if◌then◌else◌}
use eden_os.Prelude.Dict.{Dict}
use eden_os.Prelude.Text.{◌⧺◌}
use eden_os.Effect.{Outcome, ok, eden, Eff}
use eden_os.Enums.{ActionKind, noop, file_write, file_delete, shell_command, kind_value}
use eden_os.Execution.Types.{
  Value, str, flag, int, Action, make_action, Preparation, ExecutionResult, ExecutionConfig,
}
use eden_os.Execution.Verification.Scope.{Parts}
use eden_os.Execution.Verification.Rules.{full_path}
use eden_os.Execution.Engine.Base.{ActionHandler}
use eden_os.Execution.Handlers.Base.{
  Machine, text_parameter, failure, after, characters, exists, read_text_or_none,
}
use eden_os.Execution.Handlers.Command.{shell_command_handler}

module _ {W : Type 0} (machine : Machine W) (config : ExecutionConfig) where
  abbrev pub posix : Parts → String
  posix path = machine.host.as_posix path

  -- The path that `resolve_path` makes of a text.
  abbrev pub path_of : String → Parts
  path_of raw = machine.host.realpath (full_path machine.host config raw)

  -- An action that a rollback plan holds.
  abbrev undo_step : Action → ActionKind → String → Dict Value → W → Outcome Action
  undo_step a kind summary parameters w = make_action (machine.new_id w) (record {
    kind = kind;
    summary = summary;
    parameters = parameters;
    id = "";
    actor = a.actor;
    namespace = a.namespace;
    created_at = machine.utc_now w;
    metadata = ("rollback_for", str a.id) ∷ [];
  })

  abbrev restore_step : Action → Parts → String → String → W → Outcome Action
  restore_step a path summary previous w =
      undo_step a file_write summary (("path", str (posix path)) ∷ ("content", str previous) ∷ []) w

  abbrev pub planned : String → Dict Value → Action → W → Outcome Preparation × W
  planned description notes step w = (
    ok (record {
      rollback = some (record { steps = step ∷ []; description = description });
      notes = notes;
    }),
    w,
  )

  abbrev shown : ℕ → String
  shown n = machine.host.show (int n)

  -- `NoOpHandler`
  abbrev pub no_op_handler : ActionHandler W
  no_op_handler = record {
    kind = noop;
    prepare = λ a w. (
      ok (record {
        rollback = some (record { steps = []; description = "No effect to undo." });
        notes = ("summary", str a.summary) ∷ [];
      }),
      w,
    );
    execute = λ a p w. (ok (record { succeeded = true; output = a.summary; detail = [] }), w);
  }

  -- `FileWriteHandler.prepare`, with the path resolved: whether it exists, and its text if it has one.
  abbrev pub prepare_write_at : Action → Parts → Bool → Option String → Eff W Preparation
  prepare_write_at a path false text w =
      after
        (undo_step a file_delete ("Delete " ⧺ posix path ⧺ " created by rollback of " ⧺ a.id ⧺ ".")
          (("path", str (posix path)) ∷ []) w)
        (planned ("Delete the newly created file " ⧺ posix path ⧺ ".")
          (("existed", flag false) ∷ ("path", str (posix path)) ∷ []))
        w
  prepare_write_at a path true none w = (
    ok (record {
      rollback = none;
      notes =
          ("existed", flag true)
          ∷ ("path", str (posix path))
          ∷ ("reason", str "existing file is not valid UTF-8 text")
          ∷ [];
    }),
    w,
  )
  prepare_write_at a path true (some previous) w =
      after (restore_step a path ("Restore previous contents of " ⧺ posix path ⧺ ".") previous w)
        (planned
          ("Restore the previous "
            ⧺ shown (characters previous)
            ⧺ " characters of "
            ⧺ posix path
            ⧺ ".")
          (("existed", flag true)
            ∷ ("path", str (posix path))
            ∷ ("previous_length", int (characters previous))
            ∷ []))
        w

  -- `FileDeleteHandler.prepare`, with the path resolved: whether it exists, whether it is a
  -- directory, and its text if it has one.
  abbrev pub prepare_delete_at : Action → Parts → Bool → Bool → Option String → Eff W Preparation
  prepare_delete_at a path false dir text w = (
    ok (record {
      rollback = some (record { steps = []; description = "Nothing to delete; nothing to undo." });
      notes = ("existed", flag false) ∷ ("path", str (posix path)) ∷ [];
    }),
    w,
  )
  prepare_delete_at a path true true text w = (
    ok (record {
      rollback = none;
      notes = ("path", str (posix path)) ∷ ("reason", str "target is a directory") ∷ [];
    }),
    w,
  )
  prepare_delete_at a path true false none w = (
    ok (record {
      rollback = none;
      notes = ("path", str (posix path)) ∷ ("reason", str "file is not valid UTF-8 text") ∷ [];
    }),
    w,
  )
  prepare_delete_at a path true false (some previous) w =
      after (restore_step a path ("Restore deleted file " ⧺ posix path ⧺ ".") previous w)
        (planned ("Recreate " ⧺ posix path ⧺ " with its previous contents.") (
          ("existed", flag true)
          ∷ ("path", str (posix path))
          ∷ ("previous_length", int (characters previous))
          ∷ []))
        w

  abbrev pub wrote : Parts → String → Bool × W → Outcome ExecutionResult × W
  wrote path content (false, w) = (eden (failure "Could not write the file."), w)
  wrote path content (true, w) = (
    ok (record {
      succeeded = true;
      output = "Wrote " ⧺ shown (characters content) ⧺ " characters to " ⧺ posix path ⧺ ".";
      detail = ("path", str (posix path)) ∷ ("bytes", int (len content)) ∷ [];
    }),
    w,
  )

  abbrev pub deleted : Parts → Bool → Bool × W → Outcome ExecutionResult × W
  deleted path existed (false, w) = (eden (failure "Could not delete the file."), w)
  deleted path existed (true, w) = (
    ok (record {
      succeeded = true;
      output = if existed then "Deleted " ⧺ posix path ⧺ "." else posix path ⧺ " did not exist.";
      detail = ("path", str (posix path)) ∷ ("existed", flag existed) ∷ [];
    }),
    w,
  )

  -- `FileWriteHandler`
  unfoldable pub prepare_write : Action → Eff W Preparation
  prepare_write a w =
      after (text_parameter a "path")
        (λ raw v.
          prepare_write_at a (path_of raw) (exists machine (path_of raw) v)
            (read_text_or_none machine (path_of raw) v) v)
        w

  unfoldable pub execute_write : Action → Preparation → Eff W ExecutionResult
  execute_write a p w =
      after (text_parameter a "path")
        (λ raw v.
          after (text_parameter a "content")
            (λ content u. wrote (path_of raw) content (machine.write_text (path_of raw) content u))
            v)
        w

  unfoldable pub file_write_handler : ActionHandler W
  file_write_handler = record {
    kind = file_write;
    prepare = prepare_write;
    execute = execute_write;
  }

  -- `FileDeleteHandler`
  unfoldable pub prepare_delete : Action → Eff W Preparation
  prepare_delete a w =
      after (text_parameter a "path")
        (λ raw v.
          prepare_delete_at a (path_of raw) (exists machine (path_of raw) v)
            (machine.is_dir (path_of raw) v) (read_text_or_none machine (path_of raw) v) v)
        w

  unfoldable pub execute_delete : Action → Preparation → Eff W ExecutionResult
  execute_delete a p w =
      after (text_parameter a "path")
        (λ raw v.
          deleted (path_of raw) (exists machine (path_of raw) v) (machine.unlink (path_of raw) v))
        w

  unfoldable pub file_delete_handler : ActionHandler W
  file_delete_handler = record {
    kind = file_delete;
    prepare = prepare_delete;
    execute = execute_delete;
  }

  -- `default_handlers`, as the registry of the engine holds them.
  abbrev pub default_handlers : Dict (ActionHandler W)
  default_handlers =
      (kind_value noop, no_op_handler)
      ∷ (kind_value file_write, file_write_handler)
      ∷ (kind_value file_delete, file_delete_handler)
      ∷ (kind_value shell_command, shell_command_handler machine)
      ∷ []
