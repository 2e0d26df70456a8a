-- ===== src/Execution/Types.antt =====
-- src/eden/execution/types.py, and the `ExecutionConfig` of src/eden/config/schema.py.
use eden_os.Prelude.{
  ℕ, String, Bool, Option, none, some, List, [], ◌∷◌, not, any, keep, ltb, is_some, if◌then◌else◌,
  str_eq,
}
use eden_os.Prelude.Dict.{Dict}
use eden_os.Errors.{Failure, validation_error}
use eden_os.Effect.{Outcome, ok, eden}
use eden_os.Enums.{ActionKind, RiskLevel, rank, PermissionMode, ExecutionStatus, is_succeeded}
use eden_os.Prelude.Text.{is_blank}

-- The values that a parameter or a note may hold.
pub data Value : Type 0 where
  str : String → Value
  flag : Bool → Value
  int : ℕ → Value
  strs : List String → Value

pub record Action : Type 0 where
  pub kind : ActionKind
  pub summary : String
  pub parameters : Dict Value
  pub id : String
  pub actor : String
  pub namespace : String
  pub created_at : ℕ
  pub metadata : Dict Value

-- `Action.__post_init__`: `fresh` is what `new_id("act")` returns.
unfoldable pub make_action : String → Action → Outcome Action
make_action fresh a =
    if is_blank a.summary
    then eden (record { class = validation_error; message = "Action summary must not be empty." })
    else if is_blank a.actor
    then eden (record { class = validation_error; message = "Action actor must not be empty." })
    else if str_eq a.id ""
    then ok (record a { id = fresh })
    else ok a

pub record Finding : Type 0 where
  pub code : String
  pub message : String
  pub risk : RiskLevel
  pub blocking : Bool

pub record RollbackPlan : Type 0 where
  pub steps : List Action
  pub description : String

pub record Preparation : Type 0 where
  pub rollback : Option RollbackPlan
  pub notes : Dict Value

-- `Preparation.reversible`
abbrev pub reversible : Preparation → Bool
reversible p = is_some p.rollback

pub record Verdict : Type 0 where
  pub action_id : String
  pub findings : List Finding
  pub reversible : Bool

-- `max(finding.risk for finding in findings)`
abbrev max_risk : RiskLevel → RiskLevel → RiskLevel
max_risk r s = if ltb (rank r) (rank s) then s else r

unfoldable pub highest : List Finding → RiskLevel
highest [] = RiskLevel.none
highest (f ∷ []) = f.risk
highest (f ∷ fs) = max_risk f.risk (highest fs)

-- `Verdict.risk`
unfoldable pub risk : Verdict → RiskLevel
unfolding highest
risk v = highest v.findings

-- `Verdict.blocked`
unfoldable pub blocked : Verdict → Bool
blocked v = any (λ f. f.blocking) v.findings

-- `Verdict.blocking_findings`
unfoldable pub blocking_findings : Verdict → List Finding
blocking_findings v = keep (λ f. f.blocking) v.findings

pub record Permit : Type 0 where
  pub action_id : String
  pub granted : Bool
  pub mode : PermissionMode
  pub reason : String
  pub approver : String

pub record ExecutionResult : Type 0 where
  pub succeeded : Bool
  pub output : String
  pub detail : Dict Value

pub record ExecutionRecord : Type 0 where
  pub action : Action
  pub status : ExecutionStatus
  pub verdict : Option Verdict
  pub permit : Option Permit
  pub result : Option ExecutionResult
  pub rollback_applied : Bool
  pub error : Option Failure
  pub started_at : ℕ
  pub finished_at : Option ℕ

-- `ExecutionRecord.executed`
abbrev pub executed : ExecutionRecord → Bool
executed r = is_some r.result

pub record TransactionResult : Type 0 where
  pub records : List ExecutionRecord
  pub succeeded : Bool
  pub compensated : Bool

-- `TransactionResult.failed_record`
unfoldable pub failed_record : List ExecutionRecord → Option ExecutionRecord
failed_record [] = none
failed_record (r ∷ rs) = if not (is_succeeded r.status) then some r else failed_record rs

pub record ExecutionConfig : Type 0 where
  pub dry_run : Bool
  pub default_mode : PermissionMode
  pub auto_approve_max_risk : RiskLevel
  pub deny_above_risk : RiskLevel
  pub require_reversible : Bool
  pub workspace_root : String
  pub allowed_commands : List String
  pub denied_path_globs : List String
  pub max_transaction_actions : ℕ
  pub max_payload_bytes : ℕ
