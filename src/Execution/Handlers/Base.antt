-- ===== src/Execution/Handlers/Base.antt =====
-- What the handlers of src/eden/execution/handlers.py share: the machine that they act on, the
-- parameters that they read, and the files that they look at.
use eden_os.Prelude.{ℕ, suc, String, Bool, true, Option, none, some, List, []}
use eden_os.Prelude.Dict
use eden_os.Errors.{EdenError, validation_error, action_execution_error}
use eden_os.Effect.{Outcome, ok, eden, crash}
use eden_os.Execution.Types.{Value, str, strs, Action}
use eden_os.Execution.Verification.Scope.{Parts}
use eden_os.Execution.Verification.Rules.{Host}
use eden_os.Execution.Handlers.Newlines.{normal}

-- What a path holds, as a file: nothing (it is absent, or a directory), text in UTF-8, or bytes that
-- are not, which a number identifies.
pub data File : Type 0 where
  nothing : File
  text_file : String → File
  binary : ℕ → File

-- What a process came to: it did not start, it ran out of time, or it ended, with whether its exit
-- code is zero and its decoded and truncated output and errors.
pub data Process : Type 0 where
  unstarted timed_out : Process
  ended : Bool → String → String → Process

pub record Machine (W : Type 0) : Type 0 where
  pub host : Host
  pub file : Parts → W → File
  pub is_dir : Parts → W → Bool
  -- `_write_text`, and `path.unlink(missing_ok=True)`: false if they raise `OSError`
  pub write_text : Parts → String → W → Bool × W
  pub unlink : Parts → W → Bool × W
  -- `shutil.which`, and the subprocess in the workspace
  pub which : String → W → Option String
  pub spawn : String → List String → W → Process × W
  pub new_id : W → String
  pub utc_now : W → ℕ

abbrev invalid : String → EdenError
invalid message = record { class = validation_error; message = message }

abbrev pub failure : String → EdenError
failure message = record { class = action_execution_error; message = message }

-- `text_parameter`
abbrev as_text : Option Value → Outcome String
as_text none = eden (invalid "Action is missing a required parameter.")
as_text (some (str s)) = ok s
as_text (some v) = eden (invalid "Action parameter must be a string.")

unfoldable pub text_parameter : Action → String → Outcome String
text_parameter a name = as_text (Dict.get name a.parameters)

-- `_string_sequence`, of `parameters.get("arguments", ())`
abbrev pub string_sequence : Option Value → Outcome (List String)
string_sequence none = ok []
string_sequence (some (strs items)) = ok items
string_sequence (some (str s)) =
    eden (invalid "Command arguments must be a list, not a single string.")
string_sequence (some v) = eden (invalid "Command arguments must be a list.")

-- `len(text)`: the number of characters.
unfoldable pub characters : String → ℕ
characters String.[] = 0
characters (String.◌∷◌ c s) = suc (characters s)

-- The rest of a coroutine, after a step that may raise and has no effect.
abbrev pub after {ℓ} :
    {W A : Type 0} {B : Type ℓ} → Outcome A → (A → W → Outcome B × W) → W → Outcome B × W
after (ok a) next w = next a w
after (eden e) next w = (eden e, w)
after (crash t m) next w = (crash t m, w)

module _ {W : Type 0} (machine : Machine W) where
  -- `path.exists()`
  abbrev present : File → Bool → Bool
  present nothing dir = dir
  present (text_file s) dir = true
  present (binary b) dir = true

  unfoldable pub exists : Parts → W → Bool
  exists path w = present (machine.file path w) (machine.is_dir path w)

  -- `_read_text_or_none`
  abbrev pub decoded : File → Option String
  decoded nothing = none
  decoded (text_file s) = some (normal s)
  decoded (binary b) = none

  unfoldable pub read_text_or_none : Parts → W → Option String
  read_text_or_none path w = decoded (machine.file path w)
