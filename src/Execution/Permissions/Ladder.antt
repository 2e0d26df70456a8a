-- ===== src/Execution/Permissions/Ladder.antt =====
-- The decision ladder of `PolicyEngine.decide`.
use eden_os.Prelude.{true, false, ◌≡◌, ◌≤◌, ◌<◌, ◌⊎◌, arith}
use eden_os.Enums.{automatic, confirm, deny, rank, is_deny}
use eden_os.Execution.Types.{Action, Verdict, risk, blocked, ExecutionConfig}
use eden_os.Execution.Permissions.{ApprovalGate, denying_gate, decide}

module _ {W : Type 0} (config : ExecutionConfig) (gate : ApprovalGate W) (action : Action)
    (verdict : Verdict) (w : W) where
  -- A granted permit says this of its verdict: no finding blocks it and its risk is at most the
  -- ceiling; and either it is reversible, rated at most `auto_approve_max_risk`, and the gate was
  -- not asked, or the gate was asked, approved, and is named in the permit.
  pub granted_sound :
      (decide config gate action verdict w).0.granted ≡ true
      → (blocked verdict ≡ false)
        × (rank (risk verdict) ≤ rank config.deny_above_risk)
        × (((decide config gate action verdict w).0.mode ≡ automatic)
              × (verdict.reversible ≡ true)
              × (rank (risk verdict) ≤ rank config.auto_approve_max_risk)
              × ((decide config gate action verdict w).1 ≡ w)
            ⊎ ((decide config gate action verdict w).0.mode ≡ confirm)
              × ((gate.request action verdict w).0 ≡ true)
              × ((decide config gate action verdict w).0.approver ≡ gate.approver))
  unfolding decide
  granted_sound h = ground arith

  -- What is refused without asking: a verdict that is blocked, or rated above the ceiling, gets a
  -- `DENY` permit whatever the gate would answer, and the gate is not called.
  pub refused_outright :
      (blocked verdict ≡ true) ⊎ (rank config.deny_above_risk < rank (risk verdict))
      → ((decide config gate action verdict w).0.granted ≡ false)
        × ((decide config gate action verdict w).0.mode ≡ deny)
        × ((decide config gate action verdict w).1 ≡ w)
  unfolding decide
  refused_outright h = ground arith

  -- An irreversible action is never approved automatically: whatever its risk, it is granted only
  -- if the default mode is not `DENY` and the gate approves.
  pub irreversible_asks :
      verdict.reversible ≡ false
      → (decide config gate action verdict w).0.granted ≡ true
      → ((gate.request action verdict w).0 ≡ true) × (is_deny config.default_mode ≡ false)
  unfolding decide
  irreversible_asks r h = ground arith

-- Silence is refusal: with the default gate only an action that is reversible and rated at most
-- `auto_approve_max_risk` is granted.
pub denying_gate_refuses :
    {W : Type 0} (config : ExecutionConfig) (action : Action) (verdict : Verdict) (w : W)
    → (decide config denying_gate action verdict w).0.granted ≡ true
    → (verdict.reversible ≡ true) × (rank (risk verdict) ≤ rank config.auto_approve_max_risk)
unfolding decide
denying_gate_refuses config action verdict w h = ground arith
