-- ===== src/Enums.antt =====
-- The enumerations of src/eden/config/enums.py that the modelled parts use.
use mathlib.Core.Option.{Option, some}
use eden_os.Prelude.{ℕ, String, Bool, true, false, if◌then◌else◌, str_eq}

pub data ActionKind : Type 0 where
  noop file_write file_delete shell_command device_command custom : ActionKind

-- `kind.value`
abbrev pub kind_value : ActionKind → String
kind_value noop = "noop"
kind_value file_write = "file_write"
kind_value file_delete = "file_delete"
kind_value shell_command = "shell_command"
kind_value device_command = "device_command"
kind_value custom = "custom"

pub data RiskLevel : Type 0 where
  none low moderate high critical : RiskLevel

-- The integer of the `IntEnum`, by which risks are compared.
abbrev pub rank : RiskLevel → ℕ
rank none = 0
rank low = 1
rank moderate = 2
rank high = 3
rank critical = 4

-- `risk.name.lower()`
abbrev pub risk_name : RiskLevel → String
risk_name none = "none"
risk_name low = "low"
risk_name moderate = "moderate"
risk_name high = "high"
risk_name critical = "critical"

pub data PermissionMode : Type 0 where
  automatic confirm deny : PermissionMode

abbrev pub is_deny : PermissionMode → Bool
is_deny deny = true
is_deny _ = false

pub data ExecutionStatus : Type 0 where
  pending verified rejected permitted denied executing succeeded failed : ExecutionStatus
  rolled_back rollback_failed skipped : ExecutionStatus

-- `status is ExecutionStatus.SUCCEEDED`
abbrev pub is_succeeded : ExecutionStatus → Bool
is_succeeded succeeded = true
is_succeeded _ = false

pub data MemoryKind : Type 0 where
  short_term long_term vector conversation project : MemoryKind

-- `self.kind is kind`
abbrev pub same_memory_kind : MemoryKind → MemoryKind → Bool
same_memory_kind short_term short_term = true
same_memory_kind long_term long_term = true
same_memory_kind vector vector = true
same_memory_kind conversation conversation = true
same_memory_kind project project = true
same_memory_kind _ _ = false

-- `kind.value`
abbrev pub memory_kind_value : MemoryKind → String
memory_kind_value short_term = "short_term"
memory_kind_value long_term = "long_term"
memory_kind_value vector = "vector"
memory_kind_value conversation = "conversation"
memory_kind_value project = "project"

-- `MemoryKind(value)`, which raises `ValueError` for another value.
unfoldable pub memory_kind : String → Option MemoryKind
memory_kind value =
    if str_eq value "short_term"
    then some short_term
    else if str_eq value "long_term"
    then some long_term
    else if str_eq value "vector"
    then some vector
    else if str_eq value "conversation"
    then some conversation
    else if str_eq value "project"
    then some project
    else Option.none

pub data Role : Type 0 where
  system user assistant tool : Role

-- `role.value`
abbrev pub role_value : Role → String
role_value system = "system"
role_value user = "user"
role_value assistant = "assistant"
role_value tool = "tool"

pub data DeviceState : Type 0 where
  disconnected connecting ready busy faulted : DeviceState

-- `state is DeviceState.READY`
abbrev pub is_ready : DeviceState → Bool
is_ready ready = true
is_ready _ = false

pub data TaskStatus : Type 0 where
  pending rejected planning executing verifying completed failed rolled_back : TaskStatus

-- `status is TaskStatus.COMPLETED`
abbrev pub is_completed : TaskStatus → Bool
is_completed completed = true
is_completed _ = false

pub data StepStatus : Type 0 where
  pending succeeded failed skipped rolled_back : StepStatus
