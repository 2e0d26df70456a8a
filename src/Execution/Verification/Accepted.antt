-- ===== src/Execution/Verification/Accepted.antt =====
-- What is known of an action that the shipped rules of `default_verifier` do not block.
use Prim.Native.String.{len}
use eden_os.Prelude.{
  String, true, false, Option, none, some, List, [], ◌∷◌, ◌≡◌, ◌≤◌, refl, arith, any, any-append,
  ◌⊎◌, inl, inr, is_some, Bool-cases,
}
use eden_os.Prelude.Text.{is_blank, contains, strip, has_any}
use eden_os.Enums.{file_write, file_delete, shell_command}
use eden_os.Execution.Types.{Action, Finding, Preparation, reversible, blocked, ExecutionConfig}
use eden_os.Execution.Verification.Scope.{Parts, is_within}
use eden_os.Execution.Verification.Rules.{
  Host, schema, schema_findings, workspace_scope, sensitive_path, command_allowlist, payload_size,
  reversibility, text_of, target_path, full_path, matches_glob, first_match, metacharacters,
}
use eden_os.Execution.Verification.{verify, default_verifier}
use eden_os.Execution.Verification.Aggregate.{rule_stops, blocked-verify}

abbrev pub resolved : Host → ExecutionConfig → String → Parts
resolved host config raw = host.realpath (full_path host config raw)

module _ (host : Host) (config : ExecutionConfig) (a : Action) (p : Preparation) where
  abbrev Accepts : Type 0
  Accepts = blocked (verify (default_verifier host config) a p) ≡ false

  record Passes : Type 0 where
    by_schema : rule_stops (schema host config a p) ≡ false
    by_scope : rule_stops (workspace_scope host config a p) ≡ false
    by_sensitive : rule_stops (sensitive_path host config a p) ≡ false
    by_allowlist : rule_stops (command_allowlist host config a p) ≡ false
    by_size : rule_stops (payload_size host config a p) ≡ false
    by_reversibility : rule_stops (reversibility host config a p) ≡ false

  passes : Accepts → Passes
  passes h =
      let e = blocked-verify (default_verifier host config) a p in
      unfold default_verifier in ground (arith, e)

  -- The schema rule leaves only strings in the required parameters.
  schema_write :
      a.kind ≡ file_write
      → rule_stops (schema host config a p) ≡ false
      → (is_some (text_of "path" a) ≡ true) × (is_some (text_of "content" a) ≡ true)
  unfolding schema schema_findings text_of
  schema_write k h = ground arith

  schema_delete :
      a.kind ≡ file_delete
      → rule_stops (schema host config a p) ≡ false
      → is_some (text_of "path" a) ≡ true
  unfolding schema schema_findings text_of
  schema_delete k h = ground arith

  schema_command :
      a.kind ≡ shell_command
      → rule_stops (schema host config a p) ≡ false
      → is_some (text_of "command" a) ≡ true
  unfolding schema schema_findings text_of
  schema_command k h = ground arith

  first_match-stops :
      (target : List String) (patterns : List String)
      → any (λ f. f.blocking) (first_match host config target patterns)
        ≡ any (matches_glob host config target) patterns
  unfolding first_match
  first_match-stops target [] = refl
  first_match-stops target (pattern ∷ patterns) = ground (arith, first_match-stops target patterns)

  module _ (raw : String) (at_path : text_of "path" a ≡ some raw)
      (named : is_blank raw ≡ false) where
    scope_within :
        (a.kind ≡ file_write) ⊎ (a.kind ≡ file_delete)
        → rule_stops (workspace_scope host config a p) ≡ false
        → is_within (resolved host config raw) (host.realpath config.workspace_root) ≡ true
    unfolding workspace_scope target_path
    scope_within k h = ground arith

    sensitive_clear :
        (a.kind ≡ file_write) ⊎ (a.kind ≡ file_delete)
        → rule_stops (sensitive_path host config a p) ≡ false
        → any (matches_glob host config (resolved host config raw)) config.denied_path_globs ≡ false
    unfolding sensitive_path target_path
    sensitive_clear k h =
        ground (arith, first_match-stops (resolved host config raw) config.denied_path_globs)

  size_bounded :
      (content : String)
      → text_of "content" a ≡ some content
      → rule_stops (payload_size host config a p) ≡ false
      → len content ≤ config.max_payload_bytes
  unfolding payload_size
  size_bounded content e h = ground arith

  command_named :
      (raw : String)
      → a.kind ≡ shell_command
      → text_of "command" a ≡ some raw
      → rule_stops (command_allowlist host config a p) ≡ false
      → (contains config.allowed_commands (strip raw) ≡ true)
        × (has_any metacharacters (strip raw) ≡ false)
  unfolding command_allowlist
  command_named raw k e h = ground (arith, any-append (λ (f : Finding). f.blocking))

  undoable :
      rule_stops (reversibility host config a p) ≡ false
      → (reversible p ≡ true) ⊎ (config.require_reversible ≡ false)
  unfolding reversibility
  undoable h = ground arith

value_of : {A : Type 0} (o : Option A) → is_some o ≡ true → (v : A) × (o ≡ some v)
value_of none h = cc
value_of (some v) h = (v, refl)

-- The target of the path `raw` is at or below the workspace and matches no protected pattern.
pub record IsConfined (host : Host) (config : ExecutionConfig) (raw : String) : Type 0 where
  pub within : is_within (resolved host config raw) (host.realpath config.workspace_root) ≡ true
  pub unprotected :
      any (matches_glob host config (resolved host config raw)) config.denied_path_globs ≡ false

confined :
    (host : Host) (config : ExecutionConfig) (a : Action) (p : Preparation) (raw : String)
    → text_of "path" a ≡ some raw
    → (a.kind ≡ file_write) ⊎ (a.kind ≡ file_delete)
    → rule_stops (workspace_scope host config a p) ≡ false
    → rule_stops (sensitive_path host config a p) ≡ false
    → (is_blank raw ≡ true) ⊎ IsConfined host config raw
confined host config a p raw at_path k by_scope by_sensitive = elim (Bool-cases (is_blank raw)) [
  | inl blank ↦ inl blank
  | inr named ↦ inr (record {
    within = scope_within host config a p raw at_path named k by_scope;
    unprotected = sensitive_clear host config a p raw at_path named k by_sensitive;
  })
]

-- A file write that the shipped rules do not block has a text for its path and for its content; the
-- content is at most `max_payload_bytes` long; unless the path is blank, the resolved target lies
-- in the workspace and matches no protected pattern; and it can be undone, unless
-- `require_reversible` is off.
pub accepted_write :
    (host : Host) (config : ExecutionConfig) (a : Action) (p : Preparation)
    → a.kind ≡ file_write
    → blocked (verify (default_verifier host config) a p) ≡ false
    → (raw : String) × (content : String) × (text_of "path" a ≡ some raw)
      × (text_of "content" a ≡ some content)
      × (len content ≤ config.max_payload_bytes)
      × ((is_blank raw ≡ true) ⊎ IsConfined host config raw)
      × ((reversible p ≡ true) ⊎ (config.require_reversible ≡ false))
accepted_write host config a p k h =
    let ps = passes host config a p h in
    let (has_path, has_content) = schema_write host config a p k ps.by_schema in
    let (raw, at_path) = value_of (text_of "path" a) has_path in
    let (content, at_content) = value_of (text_of "content" a) has_content in
    (
      raw,
      content,
      at_path,
      at_content,
      size_bounded host config a p content at_content ps.by_size,
      confined host config a p raw at_path (inl k) ps.by_scope ps.by_sensitive,
      undoable host config a p ps.by_reversibility,
    )

-- A file delete that the shipped rules do not block has a text for its path; unless that is blank,
-- the resolved target lies in the workspace and matches no protected pattern; and it can be undone,
-- unless `require_reversible` is off.
pub accepted_delete :
    (host : Host) (config : ExecutionConfig) (a : Action) (p : Preparation)
    → a.kind ≡ file_delete
    → blocked (verify (default_verifier host config) a p) ≡ false
    → (raw : String) × (text_of "path" a ≡ some raw)
      × ((is_blank raw ≡ true) ⊎ IsConfined host config raw)
      × ((reversible p ≡ true) ⊎ (config.require_reversible ≡ false))
accepted_delete host config a p k h =
    let ps = passes host config a p h in
    let (raw, at_path) =
      value_of (text_of "path" a) (schema_delete host config a p k ps.by_schema) in
    (
      raw,
      at_path,
      confined host config a p raw at_path (inr k) ps.by_scope ps.by_sensitive,
      undoable host config a p ps.by_reversibility,
    )

-- A shell command that the shipped rules do not block has a text for its command which, stripped of
-- white space, is one of `allowed_commands` and holds no shell metacharacter.
pub accepted_command :
    (host : Host) (config : ExecutionConfig) (a : Action) (p : Preparation)
    → a.kind ≡ shell_command
    → blocked (verify (default_verifier host config) a p) ≡ false
    → (raw : String) × (text_of "command" a ≡ some raw)
      × (contains config.allowed_commands (strip raw) ≡ true)
      × (has_any metacharacters (strip raw) ≡ false)
accepted_command host config a p k h =
    let ps = passes host config a p h in
    let (raw, at_command) =
      value_of (text_of "command" a) (schema_command host config a p k ps.by_schema) in
    let (named, plain) = command_named host config a p raw k at_command ps.by_allowlist in
    (raw, at_command, named, plain)
