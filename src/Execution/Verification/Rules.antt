-- ===== src/Execution/Verification/Rules.antt =====
-- The rules of src/eden/execution/verification.py. The host supplies what the source takes from
-- `os.path`, `pathlib` and `fnmatch`.
use Prim.Native.String.{len, slice}
use text.Mathlib.Text.{starts_with}
use eden_os.Prelude.{
  ℕ, String, Bool, true, false, Option, none, some, List, [], ◌∷◌, ◌++◌, ◌&&◌, ◌||◌, not, ltb, ◌==◌,
  str_eq, if◌then◌else◌,
}
use eden_os.Prelude.Dict
use eden_os.Prelude.Text.{◌⧺◌, is_blank, contains, strip, has_any, only}
use eden_os.Effect.{Outcome, ok}
use eden_os.Enums.{
  ActionKind, file_write, file_delete, shell_command, kind_value, RiskLevel, low, moderate, high,
  critical,
}
use eden_os.Execution.Types.{
  Value, str, flag, int, strs, Action, Finding, Preparation, reversible, ExecutionConfig,
}
use eden_os.Execution.Verification.Scope.{Parts, is_within}

pub record Host : Type 0 where
  -- `Path(raw).is_absolute()`
  pub is_absolute : String → Bool
  -- `root / raw`
  pub join_path : String → String → String
  -- the parts of `os.path.realpath(path.expanduser())`
  pub realpath : String → Parts
  pub as_posix : Parts → String
  -- `path.name`, and `PurePosixPath(pattern).name`
  pub name : Parts → String
  pub pattern_name : String → String
  pub fnmatch : String → String → Bool
  -- `str(value)`
  pub show : Value → String

-- `Verifier`
pub record Verifier : Type 0 where
  pub name : String
  pub verify : Action → Preparation → Outcome (List Finding)

abbrev one : String → String → RiskLevel → Bool → List Finding
one c m r b = record { code = c; message = m; risk = r; blocking = b } ∷ []

-- `_REQUIRED_PARAMETERS.get(kind, ())`
abbrev required : ActionKind → List String
required file_write = "path" ∷ "content" ∷ []
required file_delete = "path" ∷ []
required shell_command = "command" ∷ []
required _ = []

abbrev is_file_action : ActionKind → Bool
is_file_action file_write = true
is_file_action file_delete = true
is_file_action _ = false

-- `bool(value)`
abbrev truthy : Value → Bool
truthy (str s) = not (str_eq s "")
truthy (flag b) = b
truthy (int n) = not (n == 0)
truthy (strs []) = false
truthy (strs (t ∷ ts)) = true

-- `notes.get("existed", False)`, as a condition.
abbrev pub existed : Preparation → Bool
existed p = elim (Dict.get "existed" p.notes) [ none ↦ false | some v ↦ truthy v ]

-- A parameter that is a string: `isinstance(parameters.get(name), str)`.
abbrev only_text : Option Value → Option String
only_text (some (str s)) = some s
only_text _ = none

unfoldable pub text_of : String → Action → Option String
text_of name a = only_text (Dict.get name a.parameters)

-- `SchemaVerifier.verify`, for one parameter.
abbrev schema_one : Action → String → Option Value → List Finding
schema_one a name none =
    one "schema.missing_parameter"
      ("Action of kind '" ⧺ kind_value a.kind ⧺ "' requires '" ⧺ name ⧺ "'.") high true
schema_one a name (some (str s)) = []
schema_one a name (some v) =
    if not (str_eq name "arguments")
    then one "schema.invalid_parameter" ("Parameter '" ⧺ name ⧺ "' must be a string.") high true
    else []

unfoldable pub schema_findings : Action → List String → List Finding
schema_findings a [] = []
schema_findings a (name ∷ names) =
    schema_one a name (Dict.get name a.parameters) ++ schema_findings a names

-- The code points of `;&|<>$` and of the backquote, the line ends and the backslash.
abbrev pub metacharacters : List ℕ
metacharacters = 59 ∷ 38 ∷ 124 ∷ 60 ∷ 62 ∷ 36 ∷ 96 ∷ 10 ∷ 13 ∷ 92 ∷ []

abbrev allowlisted : List String → String → List Finding
allowlisted [] command =
    one "command.no_allowlist"
      ("No commands are allowlisted. Add the executable to "
        ⧺ "execution.allowed_commands to permit it.")
      high true
allowlisted (n ∷ names) command =
    if not (contains (n ∷ names) command)
    then one "command.not_allowlisted" ("'" ⧺ command ⧺ "' is not in execution.allowed_commands.")
        high true
    else one "command.execution" ("Runs the external program '" ⧺ command ⧺ "'.") moderate false

abbrev suspicious : String → List Finding
suspicious command =
    if has_any metacharacters command
    then one "command.metacharacters"
        ("Command contains shell metacharacters. EDEN never invokes a "
          ⧺ "shell, so these cannot do what they appear to; the command "
          ⧺ "is refused because it is not what it claims to be.")
        critical true
    else []

module _ (host : Host) (config : ExecutionConfig) where
  abbrev pub full_path : String → String
  full_path raw = if host.is_absolute raw then raw else host.join_path config.workspace_root raw

  -- `_target_path`
  abbrev target_of : Option String → Option Parts
  target_of none = none
  target_of (some raw) = if is_blank raw then none else some (host.realpath (full_path raw))

  unfoldable pub target_path : Action → Option Parts
  target_path a = target_of (text_of "path" a)

  -- `_matches_glob`
  unfoldable pub matches_glob : Parts → String → Bool
  matches_glob path pattern =
      if host.fnmatch (host.as_posix path) pattern
      then true
      else if starts_with pattern "**/"
          && host.fnmatch (host.as_posix path) (slice pattern 3 (len pattern))
      then true
      else if str_eq (host.pattern_name pattern) "" || only b'*' (host.pattern_name pattern)
      then false
      else host.fnmatch (host.name path) (host.pattern_name pattern)

  unfoldable pub schema : Action → Preparation → Outcome (List Finding)
  schema a p = ok (schema_findings a (required a.kind))

  abbrev outside : Parts → List Finding
  outside target =
      if not (is_within target (host.realpath config.workspace_root))
      then one "path.outside_workspace"
          ("Target resolves to "
            ⧺ host.as_posix target
            ⧺ ", which is outside the workspace "
            ⧺ host.as_posix (host.realpath config.workspace_root)
            ⧺ ".")
          critical true
      else []

  -- `WorkspaceScopeVerifier.verify`
  unfoldable pub workspace_scope : Action → Preparation → Outcome (List Finding)
  workspace_scope a p =
      if not (is_file_action a.kind)
      then ok []
      else elim (target_path a) [ none ↦ ok [] | some target ↦ ok (outside target) ]

  -- The loop of `SensitivePathVerifier.verify` over the patterns.
  unfoldable pub first_match : Parts → List String → List Finding
  first_match target [] = []
  first_match target (pattern ∷ patterns) =
      if matches_glob target pattern
      then one "path.sensitive"
          ("Target matches the protected pattern '" ⧺ pattern
            ⧺ "'. Files matching it may hold credentials.")
          critical true
      else first_match target patterns

  unfoldable pub sensitive_path : Action → Preparation → Outcome (List Finding)
  sensitive_path a p = if not (is_file_action a.kind) then ok [] else elim (target_path a) [
    | none ↦ ok []
    | some target ↦ ok (first_match target config.denied_path_globs)
  ]

  -- `CommandAllowlistVerifier.verify`
  unfoldable pub command_allowlist : Action → Preparation → Outcome (List Finding)
  command_allowlist a p = elim a.kind [
    | shell_command ↦ elim (text_of "command" a) [
      | none ↦ ok []
      | some raw ↦ ok (suspicious (strip raw) ++ allowlisted config.allowed_commands (strip raw))
    ]
    | _ ↦ ok []
  ]

  abbrev oversized : ℕ → List Finding
  oversized size =
      if ltb config.max_payload_bytes size
      then one "payload.too_large"
          ("Payload of "
            ⧺ host.show (int size)
            ⧺ " bytes exceeds the configured limit of "
            ⧺ host.show (int config.max_payload_bytes)
            ⧺ ".")
          high true
      else []

  -- `PayloadSizeVerifier.verify`: `len` counts the bytes of the UTF-8 form.
  unfoldable pub payload_size : Action → Preparation → Outcome (List Finding)
  payload_size a p = elim (text_of "content" a) [
    | none ↦ ok []
    | some content ↦ ok (oversized (len content))
  ]

  -- `notes.get("reason", …)`, as it prints.
  abbrev reason : Preparation → String
  reason p = elim (Dict.get "reason" p.notes) [
    | none ↦ "no rollback plan was produced"
    | some v ↦ host.show v
  ]

  -- `ReversibilityVerifier.verify`
  unfoldable pub reversibility : Action → Preparation → Outcome (List Finding)
  reversibility a p =
      if reversible p
      then ok []
      else ok (
          one "rollback.unavailable" ("This action cannot be undone: " ⧺ reason p ⧺ ".") high
            config.require_reversible)

  abbrev destroyed : ActionKind → Bool → List Finding
  destroyed file_delete true = one "effect.delete" "Deletes an existing file." moderate false
  destroyed file_write true = one "effect.overwrite" "Overwrites an existing file." moderate false
  destroyed file_write false = one "effect.create" "Creates a new file." low false
  destroyed _ _ = []

  -- `DestructiveActionVerifier.verify`
  unfoldable pub destructive : Action → Preparation → Outcome (List Finding)
  destructive a p = ok (destroyed a.kind (existed p))
