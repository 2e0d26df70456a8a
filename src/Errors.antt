-- ===== src/Errors.antt =====
-- src/eden/errors/base.py: the classes of errors, with the code and the retry hint of each.
pub mod Codes
use eden_os.Prelude.{ℕ, zero, suc, String, Bool, true, false, Option, none, some, ◌||◌, str_eq}

pub data ErrorClass : Type 0 where
  eden_error configuration_error missing_config_error : ErrorClass
  invalid_config_error secret_resolution_error core_error : ErrorClass
  registry_error dependency_resolution_error lifecycle_error : ErrorClass
  plugin_load_error validation_error gateway_error : ErrorClass
  provider_error provider_authentication_error provider_timeout_error : ErrorClass
  provider_rate_limit_error provider_unavailable_error provider_response_error : ErrorClass
  model_not_supported_error no_provider_available_error embedding_not_supported_error : ErrorClass
  memory_subsystem_error memory_not_found_error memory_storage_error : ErrorClass
  memory_capacity_error execution_error verification_error : ErrorClass
  permission_denied_error handler_not_found_error action_execution_error : ErrorClass
  rollback_error agent_error no_suitable_agent_error : ErrorClass
  planning_error invalid_plan_error agent_capability_error : ErrorClass
  hardware_error device_not_found_error device_unavailable_error : ErrorClass
  device_command_error device_safety_error automation_error : ErrorClass
  rule_not_found_error invalid_rule_error interface_error : ErrorClass
  transport_error : ErrorClass

-- The attribute `code`.
unfoldable pub code : ErrorClass → String
code eden_error = "eden.error"
code configuration_error = "eden.config.error"
code missing_config_error = "eden.config.missing"
code invalid_config_error = "eden.config.invalid"
code secret_resolution_error = "eden.config.secret_unresolved"
code core_error = "eden.core.error"
code registry_error = "eden.core.registry"
code dependency_resolution_error = "eden.core.dependency"
code lifecycle_error = "eden.core.lifecycle"
code plugin_load_error = "eden.core.plugin"
code validation_error = "eden.validation.error"
code gateway_error = "eden.gateway.error"
code provider_error = "eden.gateway.provider"
code provider_authentication_error = "eden.gateway.auth"
code provider_timeout_error = "eden.gateway.timeout"
code provider_rate_limit_error = "eden.gateway.rate_limit"
code provider_unavailable_error = "eden.gateway.unavailable"
code provider_response_error = "eden.gateway.bad_response"
code model_not_supported_error = "eden.gateway.model_unsupported"
code no_provider_available_error = "eden.gateway.no_candidate"
code embedding_not_supported_error = "eden.gateway.embedding_unsupported"
code memory_subsystem_error = "eden.memory.error"
code memory_not_found_error = "eden.memory.not_found"
code memory_storage_error = "eden.memory.storage"
code memory_capacity_error = "eden.memory.capacity"
code execution_error = "eden.execution.error"
code verification_error = "eden.execution.verification"
code permission_denied_error = "eden.execution.permission_denied"
code handler_not_found_error = "eden.execution.no_handler"
code action_execution_error = "eden.execution.failed"
code rollback_error = "eden.execution.rollback_failed"
code agent_error = "eden.agent.error"
code no_suitable_agent_error = "eden.agent.no_candidate"
code planning_error = "eden.agent.planning"
code invalid_plan_error = "eden.agent.invalid_plan"
code agent_capability_error = "eden.agent.capability_unavailable"
code hardware_error = "eden.hardware.error"
code device_not_found_error = "eden.hardware.not_found"
code device_unavailable_error = "eden.hardware.unavailable"
code device_command_error = "eden.hardware.command_failed"
code device_safety_error = "eden.hardware.safety_violation"
code automation_error = "eden.automation.error"
code rule_not_found_error = "eden.automation.rule_not_found"
code invalid_rule_error = "eden.automation.invalid_rule"
code interface_error = "eden.interface.error"
code transport_error = "eden.transport.error"

-- `type(exc).__name__`
unfoldable pub class_name : ErrorClass → String
class_name eden_error = "EdenError"
class_name configuration_error = "ConfigurationError"
class_name missing_config_error = "MissingConfigError"
class_name invalid_config_error = "InvalidConfigError"
class_name secret_resolution_error = "SecretResolutionError"
class_name core_error = "CoreError"
class_name registry_error = "RegistryError"
class_name dependency_resolution_error = "DependencyResolutionError"
class_name lifecycle_error = "LifecycleError"
class_name plugin_load_error = "PluginLoadError"
class_name validation_error = "ValidationError"
class_name gateway_error = "GatewayError"
class_name provider_error = "ProviderError"
class_name provider_authentication_error = "ProviderAuthenticationError"
class_name provider_timeout_error = "ProviderTimeoutError"
class_name provider_rate_limit_error = "ProviderRateLimitError"
class_name provider_unavailable_error = "ProviderUnavailableError"
class_name provider_response_error = "ProviderResponseError"
class_name model_not_supported_error = "ModelNotSupportedError"
class_name no_provider_available_error = "NoProviderAvailableError"
class_name embedding_not_supported_error = "EmbeddingNotSupportedError"
class_name memory_subsystem_error = "MemorySubsystemError"
class_name memory_not_found_error = "MemoryNotFoundError"
class_name memory_storage_error = "MemoryStorageError"
class_name memory_capacity_error = "MemoryCapacityError"
class_name execution_error = "ExecutionError"
class_name verification_error = "VerificationError"
class_name permission_denied_error = "PermissionDeniedError"
class_name handler_not_found_error = "HandlerNotFoundError"
class_name action_execution_error = "ActionExecutionError"
class_name rollback_error = "RollbackError"
class_name agent_error = "AgentError"
class_name no_suitable_agent_error = "NoSuitableAgentError"
class_name planning_error = "PlanningError"
class_name invalid_plan_error = "InvalidPlanError"
class_name agent_capability_error = "AgentCapabilityError"
class_name hardware_error = "HardwareError"
class_name device_not_found_error = "DeviceNotFoundError"
class_name device_unavailable_error = "DeviceUnavailableError"
class_name device_command_error = "DeviceCommandError"
class_name device_safety_error = "DeviceSafetyError"
class_name automation_error = "AutomationError"
class_name rule_not_found_error = "RuleNotFoundError"
class_name invalid_rule_error = "InvalidRuleError"
class_name interface_error = "InterfaceError"
class_name transport_error = "TransportError"

-- The base class; `None` is Python's `Exception`.
unfoldable pub parent : ErrorClass → Option ErrorClass
parent eden_error = none
parent configuration_error = some eden_error
parent missing_config_error = some configuration_error
parent invalid_config_error = some configuration_error
parent secret_resolution_error = some configuration_error
parent core_error = some eden_error
parent registry_error = some core_error
parent dependency_resolution_error = some core_error
parent lifecycle_error = some core_error
parent plugin_load_error = some core_error
parent validation_error = some eden_error
parent gateway_error = some eden_error
parent provider_error = some gateway_error
parent provider_authentication_error = some provider_error
parent provider_timeout_error = some provider_error
parent provider_rate_limit_error = some provider_error
parent provider_unavailable_error = some provider_error
parent provider_response_error = some provider_error
parent model_not_supported_error = some provider_error
parent no_provider_available_error = some gateway_error
parent embedding_not_supported_error = some gateway_error
parent memory_subsystem_error = some eden_error
parent memory_not_found_error = some memory_subsystem_error
parent memory_storage_error = some memory_subsystem_error
parent memory_capacity_error = some memory_subsystem_error
parent execution_error = some eden_error
parent verification_error = some execution_error
parent permission_denied_error = some execution_error
parent handler_not_found_error = some execution_error
parent action_execution_error = some execution_error
parent rollback_error = some execution_error
parent agent_error = some eden_error
parent no_suitable_agent_error = some agent_error
parent planning_error = some agent_error
parent invalid_plan_error = some agent_error
parent agent_capability_error = some agent_error
parent hardware_error = some eden_error
parent device_not_found_error = some hardware_error
parent device_unavailable_error = some hardware_error
parent device_command_error = some hardware_error
parent device_safety_error = some hardware_error
parent automation_error = some eden_error
parent rule_not_found_error = some automation_error
parent invalid_rule_error = some automation_error
parent interface_error = some eden_error
parent transport_error = some eden_error

-- The attribute `retryable`, with the inherited value written out.
unfoldable pub retryable : ErrorClass → Bool
retryable provider_timeout_error = true
retryable provider_rate_limit_error = true
retryable provider_unavailable_error = true
retryable memory_storage_error = true
retryable device_unavailable_error = true
retryable transport_error = true
retryable _ = false

pub record EdenError : Type 0 where
  pub class : ErrorClass
  pub message : String

-- What an error leaves in a record: the fields of `EdenError.to_dict` but the context and the
-- cause, or those that the engine writes down for another exception.
pub record Failure : Type 0 where
  pub code : String
  pub type : String
  pub message : String
  pub retryable : Option Bool

-- `EdenError.to_dict`
unfoldable pub to_dict : EdenError → Failure
unfolding code class_name retryable
to_dict e = record {
  code = code e.class;
  type = class_name e.class;
  message = e.message;
  retryable = some (retryable e.class);
}

-- `isinstance(exc, base)`: the walk up the base classes, which are three deep at most.
is_a_from : ℕ → ErrorClass → ErrorClass → Bool
is_a_from zero c base = false
is_a_from (suc depth) c base =
    str_eq (code c) (code base)
    || elim (parent c) [ none ↦ false | some up ↦ is_a_from depth up base ]

unfoldable pub is_a : ErrorClass → ErrorClass → Bool
unfolding is_a_from code parent
is_a c base = is_a_from 4 c base
