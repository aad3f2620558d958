-- ===== src/Health/Write.antt =====
-- application/services/health_policy_service.py: the check of a policy before it is written, and the
-- evaluation of a server with loaded policies.
pub mod Laws
use server_scan.Prelude.{
  String, Time, Bool, true, false, not, ◌&&◌, ◌||◌, Option, none, some, is_some, List, [], ◌∷◌, map,
  any, str_eq, if◌then◌else◌,
}
use server_scan.Enums.{Vendor, vendor_value}
use server_scan.Health.Values.{Result}
use server_scan.Health.Metrics.{MetricRegistry}
use server_scan.Health.Condition.{
  Reason, no_such_metric, operator_mismatch, Validated, valid, validate_condition,
}
use server_scan.Health.Template.{Formatter, Checked, passed, escaped, invalid, validate_template}
use server_scan.Health.Policy.{HealthPolicy, PolicyScope, is_empty}
use server_scan.Health.Facts.{Server, extract_facts}
use server_scan.Health.Evaluate.{Dimensions, HealthState, evaluate_health}

pub data PolicyError : Type 0 where
  unknown_metric metric_operator_mismatch condition_invalid template_invalid validation_error :
      PolicyError

-- `value_error_escaped` where the `ValueError` of a malformed template comes out.
pub data Written : Type 0 where
  accepted : Written
  rejected : PolicyError → Written
  value_error_escaped : Written

abbrev known_sources : List String
known_sources =
    "SITE_CUSTOM" ∷ "MANAGER_CUSTOM" ∷ "VENDOR_CUSTOM" ∷ "GLOBAL_CUSTOM" ∷ "SYSTEM_DEFAULT" ∷ []

-- A scope's text that is set and not empty
abbrev pub truthy : Option String → Bool
truthy none = false
truthy (some s) = not (str_eq s "")

-- `required_field is None or getattr(scope, required_field)`, by `_SCOPE_REQUIREMENTS`
unfoldable pub has_required : String → PolicyScope → Bool
has_required source scope =
    if str_eq source "SITE_CUSTOM"
    then truthy scope.site_id
    else if str_eq source "MANAGER_CUSTOM"
    then not (is_empty scope.manager_types)
    else if str_eq source "VENDOR_CUSTOM"
    then truthy scope.vendor
    else true

-- `_validate_scope_source_coherence`
unfoldable pub validate_scope_source_coherence : HealthPolicy → Written
unfolding has_required
validate_scope_source_coherence policy =
    if not (any (str_eq policy.source) known_sources)
    then rejected validation_error
    else if not (has_required policy.source policy.scope)
    then rejected validation_error
    else if str_eq policy.source "GLOBAL_CUSTOM"
        && (is_some policy.scope.site_id
            || (not (is_empty policy.scope.manager_types) || is_some policy.scope.vendor))
    then rejected validation_error
    else accepted

-- The error that a condition's message is mapped to.
abbrev pub condition_error : Reason → PolicyError
condition_error no_such_metric = unknown_metric
condition_error operator_mismatch = metric_operator_mismatch
condition_error _ = condition_invalid

abbrev pub check_template : HealthPolicy → Checked → Written
check_template policy (invalid e) = rejected template_invalid
check_template policy escaped = value_error_escaped
check_template policy passed = validate_scope_source_coherence policy

abbrev pub check_condition : Formatter → HealthPolicy → Validated → Written
check_condition formatter policy (Validated.invalid r) = rejected (condition_error r)
check_condition formatter policy valid =
    check_template policy
      (validate_template formatter policy.message_template (map (λ e. e.key) policy.evidence))

unfoldable pub validate_policy_write : Formatter → MetricRegistry → HealthPolicy → Written
validate_policy_write formatter registry policy =
    check_condition formatter policy (validate_condition registry policy.condition)

-- The parts of a server that `evaluate_with_policies` reads.
pub record StoredServer : Type 0 where
  pub server : Server
  pub vendor : Vendor
  pub source_provider : Option String
  pub site_id : Option String

abbrev pub dimensions_of : StoredServer → Dimensions
dimensions_of s = record {
  vendor = vendor_value s.vendor;
  manager_type = s.source_provider;
  site_id = s.site_id;
}

unfoldable pub evaluate_with_policies :
    Time
    → Formatter
    → (String → String)
    → MetricRegistry
    → StoredServer
    → List HealthPolicy
    → Result HealthState
evaluate_with_policies now formatter lower registry s policies =
    evaluate_health now formatter (extract_facts lower s.server) policies registry (dimensions_of s)
