-- ===== src/Execution/PolicyExamples.antt =====
-- The properties of permission and verification at concrete inputs.
use Prim.Native.String.{len, String}
use eden_os.Prelude.{true, false, some, ◌≡◌, ◌≤◌, ◌<◌, ◌⊎◌, refl, List, [], ◌∷◌, arith, any}
use eden_os.Prelude.Dict
use eden_os.Prelude.Text.{is_blank, contains, strip, has_any, only}
use eden_os.Enums.{file_write, file_delete, shell_command, rank, automatic, confirm, critical}
use eden_os.Execution.Samples.{desk, config, host, action, set_to}
use eden_os.Execution.Types.{
  str, Action, Preparation, Verdict, blocked, risk, reversible, blocking_findings,
}
use eden_os.Execution.Permissions.{decide, denying_gate, always_approve_gate}
use eden_os.Execution.Permissions.Ladder.{granted_sound}
use eden_os.Execution.Verification.{verify, default_verifier, collect}
use eden_os.Execution.Verification.Scope.{is_within}
use eden_os.Execution.Verification.Rules.{
  schema, schema_findings, workspace_scope, sensitive_path, command_allowlist, payload_size,
  reversibility, destructive, text_of, target_path, matches_glob, first_match,
}
use eden_os.Execution.Verification.Aggregate.{rule_stops, blocked-verify}
use eden_os.Execution.Verification.Accepted.{IsConfined, accepted_write}

program : Unit {0}
unfolding decide verify default_verifier collect blocked risk blocking_findings schema
    schema_findings workspace_scope sensitive_path command_allowlist payload_size reversibility
    destructive text_of target_path matches_glob first_match Dict.get is_within is_blank contains
    strip has_any only
program = tt

abbrev calm : Verdict
calm = record { action_id = "act-1"; findings = []; reversible = true }

abbrev loud : Verdict
loud = record {
  action_id = "act-1";
  findings = record { code = "c"; message = "m"; risk = critical; blocking = false } ∷ [];
  reversible = true;
}

abbrev stuck : Verdict
stuck = record { action_id = "act-1"; findings = []; reversible = false }

calm_granted : (decide config denying_gate (set_to 1) calm desk).0.granted ≡ true
unfolding program
calm_granted = refl

granted_sound_example :
    (blocked calm ≡ false)
    × (rank (risk calm) ≤ rank config.deny_above_risk)
    × (((decide config denying_gate (set_to 1) calm desk).0.mode ≡ automatic)
          × (calm.reversible ≡ true)
          × (rank (risk calm) ≤ rank config.auto_approve_max_risk)
          × ((decide config denying_gate (set_to 1) calm desk).1 ≡ desk)
        ⊎ ((decide config denying_gate (set_to 1) calm desk).0.mode ≡ confirm)
          × (false ≡ true)
          × ((decide config denying_gate (set_to 1) calm desk).0.approver ≡ "denying-gate"))
granted_sound_example = granted_sound config denying_gate (set_to 1) calm desk calm_granted

loud_risk : rank config.deny_above_risk < rank (risk loud)
unfolding program
loud_risk = omega arith

stuck_granted : (decide config (always_approve_gate "a") (set_to 1) stuck desk).0.granted ≡ true
unfolding program
stuck_granted = refl

abbrev inside : List String
inside = "/" ∷ "w" ∷ "a" ∷ []

abbrev prep : Preparation
prep = record { rollback = some (record { steps = []; description = "" }); notes = [] }

abbrev to_write : Action
to_write = action file_write (("path", str "/w") ∷ ("content", str "hi") ∷ [])

abbrev to_delete : Action
to_delete = action file_delete (("path", str "/w") ∷ [])

abbrev to_run : Action
to_run = action shell_command (("command", str " git") ∷ [])

blocked-verify_example :
    blocked (verify (default_verifier host config) to_write prep)
    ≡ any (λ v. rule_stops (v.verify to_write prep)) (default_verifier host config)
blocked-verify_example = blocked-verify (default_verifier host config) to_write prep

write_passes : blocked (verify (default_verifier host config) to_write prep) ≡ false
unfolding program
write_passes = refl

accepted_write_example :
    (raw : String) × (content : String) × (text_of "path" to_write ≡ some raw)
    × (text_of "content" to_write ≡ some content)
    × (len content ≤ config.max_payload_bytes)
    × ((is_blank raw ≡ true) ⊎ IsConfined host config raw)
    × ((reversible prep ≡ true) ⊎ (config.require_reversible ≡ false))
accepted_write_example = accepted_write host config to_write prep refl write_passes

delete_passes : blocked (verify (default_verifier host config) to_delete prep) ≡ false
unfolding program
delete_passes = refl

run_passes : blocked (verify (default_verifier host config) to_run prep) ≡ false
unfolding program
run_passes = refl
