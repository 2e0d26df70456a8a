-- ===== src/Execution/Verification.antt =====
-- `CompositeVerifier` and `default_verifier` of src/eden/execution/verification.py: what an action
-- could do, and how bad that would be.
pub mod Scope
pub mod Rules
pub mod Aggregate
pub mod Accepted
use eden_os.Prelude.{String, true, List, [], ◌∷◌, ◌++◌, if◌then◌else◌}
use eden_os.Prelude.Text.{◌⧺◌}
use eden_os.Errors.{validation_error, is_a, class_name}
use eden_os.Effect.{Outcome, ok, eden, crash}
use eden_os.Enums.{RiskLevel, high, critical}
use eden_os.Execution.Types.{Action, Finding, Preparation, reversible, Verdict, ExecutionConfig}
use eden_os.Execution.Verification.Rules.{
  Host, Verifier, schema, workspace_scope, sensitive_path, command_allowlist, payload_size,
  reversibility, destructive,
}

-- The finding of a rule that raised something other than a `ValidationError`.
abbrev rule_failed : String → String → Finding
rule_failed name type = record {
  code = "verification.rule_failed";
  message =
      "Verification rule '" ⧺ name ⧺ "' failed to complete (" ⧺ type ⧺ "); the action is refused.";
  risk = critical;
  blocking = true;
}

abbrev invalid_action : String → Finding
invalid_action message = record {
  code = "verification.invalid_action";
  message = message;
  risk = high;
  blocking = true;
}

-- The `try` of the loop of `CompositeVerifier.verify`.
abbrev findings_of : String → Outcome (List Finding) → List Finding
findings_of name (ok findings) = findings
findings_of name (eden e) =
    if is_a e.class validation_error
    then invalid_action e.message ∷ []
    else rule_failed name (class_name e.class) ∷ []
findings_of name (crash type message) = rule_failed name type ∷ []

unfoldable pub collect : List Verifier → Action → Preparation → List Finding
collect [] action preparation = []
collect (v ∷ vs) action preparation =
    findings_of v.name (v.verify action preparation) ++ collect vs action preparation

-- `CompositeVerifier.verify`
unfoldable pub verify : List Verifier → Action → Preparation → Verdict
verify verifiers action preparation = record {
  action_id = action.id;
  findings = collect verifiers action preparation;
  reversible = reversible preparation;
}

-- `default_verifier`
unfoldable pub default_verifier : Host → ExecutionConfig → List Verifier
default_verifier host config =
    record { name = "schema"; verify = schema host config }
    ∷ record { name = "workspace_scope"; verify = workspace_scope host config }
    ∷ record { name = "sensitive_path"; verify = sensitive_path host config }
    ∷ record { name = "command_allowlist"; verify = command_allowlist host config }
    ∷ record { name = "payload_size"; verify = payload_size host config }
    ∷ record { name = "reversibility"; verify = reversibility host config }
    ∷ record { name = "destructive"; verify = destructive host config }
    ∷ []
