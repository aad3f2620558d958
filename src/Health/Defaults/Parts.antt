-- ===== src/Health/Defaults/Parts.antt =====
-- domain/services/health/health_policy_defaults.py: the policies on power supplies, memory and GPUs.
use server_scan.Prelude.{ℕ, pos, String, Time, true, none, [], ◌∷◌}
use server_scan.Enums.{warning, critical}
use server_scan.Health.Values.{scalar, int, null}
use server_scan.Health.Condition.{leaf}
use server_scan.Health.Policy.{HealthPolicy}
use server_scan.Health.Defaults.Common.{field, no_scope, no_stats}

module _ (now : Time) (new_id : ℕ → String) where
  abbrev pub failed_psu : HealthPolicy
  failed_psu = record {
    id = new_id 2;
    name = "Power supply failed";
    description =
        "Fires when one or more power supplies report DOWN. Covers every server kind: UCS and Intersight report PSUs from OperState, and Redfish from the chassis power subsystem.";
    enabled = true;
    system = true;
    policy_key = "power.failed_psu";
    mode = "EVALUATE";
    category = "power";
    severity = critical;
    condition = leaf "power.failed_psu_count" "GTE" (scalar (int (pos 1))) null;
    evidence = field "failed" "power.failed_psu_count" ∷ field "total" "power.psu_count" ∷ [];
    message_template = "{failed} of {total} power supplies failed";
    scope = no_scope;
    source = "SYSTEM_DEFAULT";
    priority = pos 100;
    order = pos 0;
    stats = no_stats;
    revision = 1;
    created_at = now;
    updated_at = now;
    created_by = none;
    updated_by = none;
  }

  abbrev pub degraded_dimm : HealthPolicy
  degraded_dimm = record {
    id = new_id 11;
    name = "Memory module degraded";
    description =
        "Fires when one or more DIMMs report WARNING or CRITICAL. Only providers that read per-DIMM health populate this; one that does not leaves the count at zero and this never fires.";
    enabled = true;
    system = true;
    policy_key = "memory.degraded_dimm";
    mode = "EVALUATE";
    category = "memory";
    severity = warning;
    condition = leaf "memory.degraded_dimm_count" "GTE" (scalar (int (pos 1))) null;
    evidence = field "bad" "memory.degraded_dimm_count" ∷ field "total" "memory.dimm_count" ∷ [];
    message_template = "{bad} of {total} memory modules degraded";
    scope = no_scope;
    source = "SYSTEM_DEFAULT";
    priority = pos 100;
    order = pos 0;
    stats = no_stats;
    revision = 1;
    created_at = now;
    updated_at = now;
    created_by = none;
    updated_by = none;
  }

  abbrev pub failed_gpu : HealthPolicy
  failed_gpu = record {
    id = new_id 13;
    name = "GPU failed";
    description =
        "Fires when one or more GPUs report a failed state, in either vocabulary the providers use — CRITICAL from Redfish, DOWN from UCS and Intersight.";
    enabled = true;
    system = true;
    policy_key = "gpu.failed";
    mode = "EVALUATE";
    category = "gpu";
    severity = critical;
    condition = leaf "gpu.failed_count" "GTE" (scalar (int (pos 1))) null;
    evidence = field "failed" "gpu.failed_count" ∷ field "total" "gpu.count" ∷ [];
    message_template = "{failed} of {total} GPUs failed";
    scope = no_scope;
    source = "SYSTEM_DEFAULT";
    priority = pos 100;
    order = pos 0;
    stats = no_stats;
    revision = 1;
    created_at = now;
    updated_at = now;
    created_by = none;
    updated_by = none;
  }

  abbrev pub gpu_ecc : HealthPolicy
  gpu_ecc = record {
    id = new_id 14;
    name = "GPU uncorrectable ECC errors";
    description =
        "Fires on any uncorrectable ECC error across the server's GPUs. Only Redfish reports these; a provider that does not leaves the count at zero and this never fires.";
    enabled = true;
    system = true;
    policy_key = "gpu.uncorrectable_errors";
    mode = "EVALUATE";
    category = "gpu";
    severity = warning;
    condition = leaf "gpu.uncorrectable_error_count" "GTE" (scalar (int (pos 1))) null;
    evidence = field "errors" "gpu.uncorrectable_error_count" ∷ [];
    message_template = "{errors} uncorrectable GPU ECC error(s)";
    scope = no_scope;
    source = "SYSTEM_DEFAULT";
    priority = pos 100;
    order = pos 0;
    stats = no_stats;
    revision = 1;
    created_at = now;
    updated_at = now;
    created_by = none;
    updated_by = none;
  }
