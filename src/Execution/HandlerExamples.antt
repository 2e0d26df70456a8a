-- ===== src/Execution/HandlerExamples.antt =====
-- The properties of the shipped handlers on a small disk.
use eden_os.Prelude.{
  String, true, false, Option, none, some, List, [], ◌∷◌, ◌≡◌, ◌≢◌, refl, arith, if◌then◌else◌,
}
use eden_os.Prelude.Dict
use eden_os.Prelude.Text.{is_blank, contains, strip, has_any, only}
use eden_os.Effect.{Outcome, ok}
use eden_os.Enums.{file_write, shell_command, confirm, low, high, failed, ExecutionStatus, rejected}
use eden_os.Execution.Types.{
  str, Action, make_action, ExecutionRecord, ExecutionConfig, TransactionResult, failed_record,
  blocked, risk, highest, blocking_findings,
}
use eden_os.Execution.Permissions.{decide, always_approve_gate}
use eden_os.Execution.Verification.{verify, default_verifier, collect}
use eden_os.Execution.Verification.Scope.{Parts, parts_eq, is_within, parents}
use eden_os.Execution.Verification.Rules.{
  Host, schema, schema_findings, workspace_scope, sensitive_path, command_allowlist, payload_size,
  reversibility, destructive, text_of, target_path, matches_glob, first_match,
}
use eden_os.Execution.Engine.Base.{
  Engine, handler_for, prepare, finish, run_steps, apply_rollback, compensate_one,
}
use eden_os.Execution.Engine.{
  fail, conclude, execute, authorise, submit_with, compensate_all, compensate, transact,
  submit_transaction,
}
use eden_os.Execution.Handlers.Newlines.{normal}
use eden_os.Execution.Handlers.Base.{
  File, nothing, text_file, Machine, unstarted, text_parameter, characters, exists,
  read_text_or_none,
}
use eden_os.Execution.Handlers.{
  default_handlers, file_write_handler, file_delete_handler, prepare_write, prepare_delete,
  execute_write, execute_delete,
}
use eden_os.Execution.Handlers.Command.{shell_command_handler, prepare_command, execute_command}
use eden_os.Execution.Handlers.Plans.{look, IsFileSystem}
use eden_os.Execution.Handlers.Restores.{files_restored}
use eden_os.Execution.Samples.{action}

abbrev Disk : Type 0
Disk = Parts → File

-- The disk, with `path` holding `content`.
abbrev set : Parts → File → Disk → Disk
set path content disk q = if parts_eq path q then content else disk q

abbrev first : Parts → String
first [] = ""
first (p ∷ ps) = p

abbrev host : Host
host = record {
  is_absolute = λ s. true;
  join_path = λ root s. s;
  realpath = λ s. s ∷ [];
  as_posix = first;
  name = first;
  pattern_name = λ s. s;
  fnmatch = λ s pattern. false;
  show = λ v. "n";
}

abbrev machine : Machine Disk
machine = record {
  host = host;
  file = λ path disk. disk path;
  is_dir = λ path disk. false;
  write_text = λ path s disk. (true, set path (text_file s) disk);
  unlink = λ path disk. (true, set path nothing disk);
  which = λ command disk. none;
  spawn = λ command arguments disk. (unstarted, disk);
  new_id = λ disk. "act-9";
  utc_now = λ disk. 0;
}

abbrev config : ExecutionConfig
config = record {
  dry_run = false;
  default_mode = confirm;
  auto_approve_max_risk = low;
  deny_above_risk = high;
  require_reversible = false;
  workspace_root = "a";
  allowed_commands = [];
  denied_path_globs = [];
  max_transaction_actions = 50;
  max_payload_bytes = 100;
}

abbrev engine : Engine Disk
engine = record {
  config = config;
  verifier = λ a p disk. verify (default_verifier host config) a p;
  gate = always_approve_gate "operator";
  append = λ r disk. (ok tt, disk);
  handlers = default_handlers machine config;
  now = λ disk. 0;
}

set_here : (path : Parts) (content : File) (disk : Disk) → set path content disk path ≡ content
set_here path content disk = ground (arith, eden_os.Execution.Verification.Scope.parts_eq_refl path)

file_system : IsFileSystem machine config
file_system = record {
  stable = λ raw. refl;
  written = λ path s disk passed. set_here path (text_file s) disk;
  write_elsewhere = λ path other s disk apart. rw apart refl;
  unlinked = λ path disk passed. set_here path nothing disk;
  unlink_failed = λ path disk stuck. absurd (ground arith);
  unlink_elsewhere = λ path other disk apart. rw apart refl;
}

program : Unit {0}
unfolding submit_transaction transact compensate compensate_all compensate_one apply_rollback
    run_steps submit_with authorise execute conclude fail finish prepare handler_for decide verify
    default_verifier collect blocked risk highest blocking_findings schema schema_findings
    workspace_scope sensitive_path command_allowlist payload_size reversibility destructive text_of
    target_path matches_glob first_match Dict.get is_within parts_eq parents is_blank contains strip
    has_any only file_write_handler file_delete_handler shell_command_handler prepare_write
    execute_write prepare_delete execute_delete prepare_command execute_command exists
    read_text_or_none text_parameter characters normal make_action failed_record
program = tt

-- An overwrite of the file "a", and a command that is not allowed.
abbrev batch : List Action
batch =
    action file_write (("path", str "a") ∷ ("content", str "new") ∷ [])
    ∷ action shell_command (("command", str "rm") ∷ [])
    ∷ []

abbrev disk : Disk
disk = set ("a" ∷ []) (text_file "old") (λ q. nothing)

result_of : Outcome TransactionResult → TransactionResult
result_of (ok t) = t
result_of _ = record { records = []; succeeded = true; compensated = false }

abbrev result : TransactionResult
result = result_of (submit_transaction engine batch disk).0

returned : (submit_transaction engine batch disk).0 ≡ ok result
unfolding program result_of
returned = refl

lost : result.succeeded ≡ false
unfolding program result_of
lost = refl

back : result.compensated ≡ true
unfolding program result_of
back = refl

status_of : Option ExecutionRecord → ExecutionStatus
status_of none = rejected
status_of (some r) = r.status

refused : status_of (failed_record result.records) ≡ rejected
unfolding program result_of status_of
refused = refl

never_failed : (r : ExecutionRecord) → failed_record result.records ≡ some r → r.status ≢ failed
unfolding status_of
never_failed r e f = ground (arith, refused)

files_restored_example : look machine (submit_transaction engine batch disk).1 ≡ look machine disk
files_restored_example =
    files_restored machine engine refl file_system (λ a v w. refl) (λ r w. refl) batch disk returned
      lost back never_failed

-- A file with the line ends of Windows, overwritten and rolled back.
abbrev windows : Disk
windows = set ("a" ∷ []) (text_file "x\r\ny") (λ q. nothing)

abbrev overwrite : Action
overwrite = action file_write (("path", str "a") ∷ ("content", str "new") ∷ [])

overwrite_names : text_parameter overwrite "path" ≡ ok "a"
unfolding program
overwrite_names = refl

windows_holds : windows ("a" ∷ []) ≡ text_file "x\r\ny"
unfolding program
windows_holds = refl

overwrite_passes :
    (compensate_one engine
      (prepare engine (file_write_handler machine config) overwrite windows).0
      disk).0
    ≡ true
unfolding program
overwrite_passes = refl
