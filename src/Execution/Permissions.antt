-- ===== src/Execution/Permissions.antt =====
-- src/eden/execution/permissions.py: whether a verified action may proceed.
pub mod Ladder
use eden_os.Prelude.{Bool, true, false, String, map, leb, ltb, ◌&&◌, not, if◌then◌else◌}
use eden_os.Prelude.Text.{◌⧺◌, join}
use eden_os.Effect.{Outcome, ok, eden, crash, Eff}
use eden_os.Enums.{PermissionMode, automatic, confirm, deny, is_deny, RiskLevel, rank, risk_name}
use eden_os.Execution.Types.{
  Action, Verdict, risk, blocked, blocking_findings, Permit, ExecutionConfig,
}

abbrev pub automatic_approver : String
automatic_approver = "policy"

-- `ApprovalGate`. By its contract a gate never raises.
pub record ApprovalGate (W : Type 0) : Type 0 where
  pub approver : String
  pub request : Action → Verdict → W → Bool × W

-- `CallbackGate.request`: a callback that raises refuses.
abbrev answer : Outcome Bool → Bool
answer (ok b) = b
answer (eden e) = false
answer (crash t m) = false

-- `PolicyEngine._refuse`
abbrev refuse : Action → PermissionMode → String → Permit
refuse action mode reason = record {
  action_id = action.id;
  granted = false;
  mode = mode;
  reason = reason;
  approver = "";
}

-- `PolicyEngine._qualifies_for_automatic`
unfoldable pub qualifies_for_automatic : ExecutionConfig → Verdict → Bool
qualifies_for_automatic config verdict =
    if not verdict.reversible
    then false
    else if is_deny config.default_mode
    then false
    else leb (rank (risk verdict)) (rank config.auto_approve_max_risk)

abbrev exceeds : ExecutionConfig → Verdict → String
exceeds config verdict =
    "Risk "
    ⧺ risk_name (risk verdict)
    ⧺ " exceeds the configured ceiling "
    ⧺ risk_name config.deny_above_risk
    ⧺ "."

abbrev auto_reason : ExecutionConfig → Verdict → String
auto_reason config verdict =
    "Reversible and rated "
    ⧺ risk_name (risk verdict)
    ⧺ ", at or below the automatic threshold "
    ⧺ risk_name config.auto_approve_max_risk
    ⧺ "."

module _ {W : Type 0} where
  abbrev pub denying_gate : ApprovalGate W
  denying_gate = record { approver = "denying-gate"; request = λ action verdict w. (false, w) }

  abbrev pub always_approve_gate : String → ApprovalGate W
  always_approve_gate name = record { approver = name; request = λ action verdict w. (true, w) }

  abbrev pub callback_gate : (Action → Verdict → Eff W Bool) → String → ApprovalGate W
  callback_gate callback name = record {
    approver = name;
    request = λ action verdict w. let (r, w') = callback action verdict w in (answer r, w');
  }

  -- The permit of a gate's answer.
  abbrev confirmed : ApprovalGate W → Action → Bool → Permit
  confirmed gate action approved = record {
    action_id = action.id;
    granted = approved;
    mode = confirm;
    reason =
        if approved
        then "Approved by the configured gate."
        else "The configured gate refused approval.";
    approver = if approved then gate.approver else "";
  }

  -- `PolicyEngine.decide`
  unfoldable pub decide : ExecutionConfig → ApprovalGate W → Action → Verdict → W → Permit × W
  unfolding qualifies_for_automatic
  decide config gate action verdict w =
      if blocked verdict
      then (refuse action deny (join "; " (map (λ f. f.message) (blocking_findings verdict))), w)
      else if ltb (rank config.deny_above_risk) (rank (risk verdict))
      then (refuse action deny (exceeds config verdict), w)
      else if qualifies_for_automatic config verdict
      then (
        record {
          action_id = action.id;
          granted = true;
          mode = automatic;
          reason = auto_reason config verdict;
          approver = automatic_approver;
        },
        w,
      )
      else if is_deny config.default_mode
      then (refuse action deny "Default policy denies unmatched actions.", w)
      else let (approved, w') = gate.request action verdict w in
        (confirmed gate action approved, w')

-- `risk_at_most`
unfoldable pub risk_at_most : RiskLevel → RiskLevel → Bool
risk_at_most level ceiling = leb (rank level) (rank ceiling)
