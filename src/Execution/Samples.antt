-- ===== src/Execution/Samples.antt =====
-- A small desk for the examples: a number that one handler sets, and a journal.
use eden_os.Prelude.{ℕ, String, true, false, Option, none, some, List, [], ◌∷◌, ◌++◌}
use eden_os.Prelude.Dict
use eden_os.Effect.{Outcome, ok, eden}
use eden_os.Errors.{validation_error}
use eden_os.Enums.{ActionKind, custom, low, high, confirm}
use eden_os.Execution.Types.{
  Value, int, Action, RollbackPlan, ExecutionResult, ExecutionRecord, ExecutionConfig,
}
use eden_os.Execution.Permissions.{denying_gate}
use eden_os.Execution.Verification.{verify, default_verifier}
use eden_os.Execution.Verification.Rules.{Host}
use eden_os.Execution.Engine.Base.{ActionHandler, Engine}

pub record Desk : Type 0 where
  pub value : ℕ
  pub journal : List ExecutionRecord

abbrev pub desk : Desk
desk = record { value = 0; journal = [] }

abbrev pub config : ExecutionConfig
config = record {
  dry_run = false;
  default_mode = confirm;
  auto_approve_max_risk = low;
  deny_above_risk = high;
  require_reversible = false;
  workspace_root = "/w";
  allowed_commands = "git" ∷ [];
  denied_path_globs = "secret" ∷ [];
  max_transaction_actions = 50;
  max_payload_bytes = 100;
}

abbrev pub host : Host
host = record {
  is_absolute = λ s. false;
  join_path = λ root s. s;
  realpath = λ s. s ∷ [];
  as_posix = λ p. "x";
  name = λ p. "x";
  pattern_name = λ s. s;
  fnmatch = λ s pattern. false;
  show = λ v. "v";
}

abbrev pub action : ActionKind → List (String × Value) → Action
action kind parameters = record {
  kind = kind;
  summary = "s";
  parameters = parameters;
  id = "act-1";
  actor = "system";
  namespace = "default";
  created_at = 0;
  metadata = [];
}

-- Sets the number of the desk; the value 9 cannot be undone.
abbrev pub set_to : ℕ → Action
set_to n = action custom (("value", int n) ∷ [])

abbrev pub last_word : Action
last_word = action custom []

abbrev pub value_of : Option Value → Option ℕ
value_of (some (int n)) = some n
value_of _ = none

abbrev pub plan_for : Option ℕ → ℕ → Option RollbackPlan
plan_for none old = none
plan_for (some n) old = some (record { steps = set_to old ∷ []; description = "Set it back." })

abbrev pub write : Option ℕ → Desk → Outcome ExecutionResult × Desk
write none w = (eden (record { class = validation_error; message = "No value." }), w)
write (some n) w =
    (ok (record { succeeded = true; output = ""; detail = [] }), record w { value = n })

abbrev pub setter : ActionHandler Desk
setter = record {
  kind = custom;
  prepare = λ a w. (
    ok (record {
      rollback = plan_for (value_of (Dict.get "value" a.parameters)) w.value;
      notes = [];
    }),
    w,
  );
  execute = λ a p w. write (value_of (Dict.get "value" a.parameters)) w;
}

abbrev pub engine : Engine Desk
engine = record {
  config = config;
  verifier = λ a p w. verify (default_verifier host config) a p;
  gate = denying_gate;
  append = λ r w. (ok tt, record w { journal = w.journal ++ r ∷ [] });
  handlers = ("custom", setter) ∷ [];
  now = λ w. 0;
}
