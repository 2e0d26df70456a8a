-- ===== src/Errors/Codes.antt =====
-- The codes of src/eden/errors/base.py identify their classes.
use eden_os.Prelude.{
  String, true, Option, none, some, List, [], ◌∷◌, ◌≡◌, refl, ap, str_eq, if◌then◌else◌,
}
use eden_os.Errors.{ErrorClass, code, is_a, eden_error}

abbrev classes : List ErrorClass
classes =
    ErrorClass.eden_error ∷ ErrorClass.configuration_error ∷ ErrorClass.missing_config_error
    ∷ ErrorClass.invalid_config_error ∷ ErrorClass.secret_resolution_error ∷ ErrorClass.core_error
    ∷ ErrorClass.registry_error ∷ ErrorClass.dependency_resolution_error
    ∷ ErrorClass.lifecycle_error ∷ ErrorClass.plugin_load_error ∷ ErrorClass.validation_error
    ∷ ErrorClass.gateway_error ∷ ErrorClass.provider_error
    ∷ ErrorClass.provider_authentication_error ∷ ErrorClass.provider_timeout_error
    ∷ ErrorClass.provider_rate_limit_error ∷ ErrorClass.provider_unavailable_error
    ∷ ErrorClass.provider_response_error ∷ ErrorClass.model_not_supported_error
    ∷ ErrorClass.no_provider_available_error ∷ ErrorClass.embedding_not_supported_error
    ∷ ErrorClass.memory_subsystem_error ∷ ErrorClass.memory_not_found_error
    ∷ ErrorClass.memory_storage_error ∷ ErrorClass.memory_capacity_error
    ∷ ErrorClass.execution_error ∷ ErrorClass.verification_error
    ∷ ErrorClass.permission_denied_error ∷ ErrorClass.handler_not_found_error
    ∷ ErrorClass.action_execution_error ∷ ErrorClass.rollback_error ∷ ErrorClass.agent_error
    ∷ ErrorClass.no_suitable_agent_error ∷ ErrorClass.planning_error ∷ ErrorClass.invalid_plan_error
    ∷ ErrorClass.agent_capability_error ∷ ErrorClass.hardware_error
    ∷ ErrorClass.device_not_found_error ∷ ErrorClass.device_unavailable_error
    ∷ ErrorClass.device_command_error ∷ ErrorClass.device_safety_error ∷ ErrorClass.automation_error
    ∷ ErrorClass.rule_not_found_error ∷ ErrorClass.invalid_rule_error ∷ ErrorClass.interface_error
    ∷ ErrorClass.transport_error ∷ []

-- The class that a code names.
of_code : String → List ErrorClass → Option ErrorClass
of_code s [] = none
of_code s (c ∷ cs) = if str_eq (code c) s then some c else of_code s cs

of_code-code : (c : ErrorClass) → of_code (code c) classes ≡ some c
unfolding of_code code
of_code-code ErrorClass.eden_error = refl
of_code-code ErrorClass.configuration_error = refl
of_code-code ErrorClass.missing_config_error = refl
of_code-code ErrorClass.invalid_config_error = refl
of_code-code ErrorClass.secret_resolution_error = refl
of_code-code ErrorClass.core_error = refl
of_code-code ErrorClass.registry_error = refl
of_code-code ErrorClass.dependency_resolution_error = refl
of_code-code ErrorClass.lifecycle_error = refl
of_code-code ErrorClass.plugin_load_error = refl
of_code-code ErrorClass.validation_error = refl
of_code-code ErrorClass.gateway_error = refl
of_code-code ErrorClass.provider_error = refl
of_code-code ErrorClass.provider_authentication_error = refl
of_code-code ErrorClass.provider_timeout_error = refl
of_code-code ErrorClass.provider_rate_limit_error = refl
of_code-code ErrorClass.provider_unavailable_error = refl
of_code-code ErrorClass.provider_response_error = refl
of_code-code ErrorClass.model_not_supported_error = refl
of_code-code ErrorClass.no_provider_available_error = refl
of_code-code ErrorClass.embedding_not_supported_error = refl
of_code-code ErrorClass.memory_subsystem_error = refl
of_code-code ErrorClass.memory_not_found_error = refl
of_code-code ErrorClass.memory_storage_error = refl
of_code-code ErrorClass.memory_capacity_error = refl
of_code-code ErrorClass.execution_error = refl
of_code-code ErrorClass.verification_error = refl
of_code-code ErrorClass.permission_denied_error = refl
of_code-code ErrorClass.handler_not_found_error = refl
of_code-code ErrorClass.action_execution_error = refl
of_code-code ErrorClass.rollback_error = refl
of_code-code ErrorClass.agent_error = refl
of_code-code ErrorClass.no_suitable_agent_error = refl
of_code-code ErrorClass.planning_error = refl
of_code-code ErrorClass.invalid_plan_error = refl
of_code-code ErrorClass.agent_capability_error = refl
of_code-code ErrorClass.hardware_error = refl
of_code-code ErrorClass.device_not_found_error = refl
of_code-code ErrorClass.device_unavailable_error = refl
of_code-code ErrorClass.device_command_error = refl
of_code-code ErrorClass.device_safety_error = refl
of_code-code ErrorClass.automation_error = refl
of_code-code ErrorClass.rule_not_found_error = refl
of_code-code ErrorClass.invalid_rule_error = refl
of_code-code ErrorClass.interface_error = refl
of_code-code ErrorClass.transport_error = refl

-- Two error classes with the same `code` are the same class, so a code in a log or in an answer of
-- the interface identifies its class.
pub code_injective : (c d : ErrorClass) → code c ≡ code d → c ≡ d
code_injective c d e = cc (of_code-code c, of_code-code d, ap (λ s. of_code s classes) e)

-- Every class is an `EdenError`, so a handler of `EdenError` catches each of them.
pub is_a-eden_error : (c : ErrorClass) → is_a c eden_error ≡ true
unfolding is_a
is_a-eden_error ErrorClass.eden_error = refl
is_a-eden_error ErrorClass.configuration_error = refl
is_a-eden_error ErrorClass.missing_config_error = refl
is_a-eden_error ErrorClass.invalid_config_error = refl
is_a-eden_error ErrorClass.secret_resolution_error = refl
is_a-eden_error ErrorClass.core_error = refl
is_a-eden_error ErrorClass.registry_error = refl
is_a-eden_error ErrorClass.dependency_resolution_error = refl
is_a-eden_error ErrorClass.lifecycle_error = refl
is_a-eden_error ErrorClass.plugin_load_error = refl
is_a-eden_error ErrorClass.validation_error = refl
is_a-eden_error ErrorClass.gateway_error = refl
is_a-eden_error ErrorClass.provider_error = refl
is_a-eden_error ErrorClass.provider_authentication_error = refl
is_a-eden_error ErrorClass.provider_timeout_error = refl
is_a-eden_error ErrorClass.provider_rate_limit_error = refl
is_a-eden_error ErrorClass.provider_unavailable_error = refl
is_a-eden_error ErrorClass.provider_response_error = refl
is_a-eden_error ErrorClass.model_not_supported_error = refl
is_a-eden_error ErrorClass.no_provider_available_error = refl
is_a-eden_error ErrorClass.embedding_not_supported_error = refl
is_a-eden_error ErrorClass.memory_subsystem_error = refl
is_a-eden_error ErrorClass.memory_not_found_error = refl
is_a-eden_error ErrorClass.memory_storage_error = refl
is_a-eden_error ErrorClass.memory_capacity_error = refl
is_a-eden_error ErrorClass.execution_error = refl
is_a-eden_error ErrorClass.verification_error = refl
is_a-eden_error ErrorClass.permission_denied_error = refl
is_a-eden_error ErrorClass.handler_not_found_error = refl
is_a-eden_error ErrorClass.action_execution_error = refl
is_a-eden_error ErrorClass.rollback_error = refl
is_a-eden_error ErrorClass.agent_error = refl
is_a-eden_error ErrorClass.no_suitable_agent_error = refl
is_a-eden_error ErrorClass.planning_error = refl
is_a-eden_error ErrorClass.invalid_plan_error = refl
is_a-eden_error ErrorClass.agent_capability_error = refl
is_a-eden_error ErrorClass.hardware_error = refl
is_a-eden_error ErrorClass.device_not_found_error = refl
is_a-eden_error ErrorClass.device_unavailable_error = refl
is_a-eden_error ErrorClass.device_command_error = refl
is_a-eden_error ErrorClass.device_safety_error = refl
is_a-eden_error ErrorClass.automation_error = refl
is_a-eden_error ErrorClass.rule_not_found_error = refl
is_a-eden_error ErrorClass.invalid_rule_error = refl
is_a-eden_error ErrorClass.interface_error = refl
is_a-eden_error ErrorClass.transport_error = refl
