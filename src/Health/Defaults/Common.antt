-- ===== src/Health/Defaults/Common.antt =====
-- domain/services/health/health_policy_defaults.py: the scopes and the fields that the policies share.
use server_scan.Prelude.{String, false, none, some, [], ◌∷◌}
use server_scan.Enums.{vendor_value, manager_type_value, cisco, ucs_central, intersight}
use server_scan.Health.Policy.{PolicyScope, PolicyStats, EvidenceField}

abbrev pub field : String → String → EvidenceField
field key metric = record { key = key; metric = metric }

abbrev pub no_scope : PolicyScope
no_scope = record { site_id = none; vendor = none; manager_types = [] }

abbrev pub fabric_scope : PolicyScope
fabric_scope = record {
  site_id = none;
  vendor = some (vendor_value cisco);
  manager_types = manager_type_value ucs_central ∷ manager_type_value intersight ∷ [];
}

abbrev pub no_stats : PolicyStats
no_stats = record { fire_count = 0; last_fired_at = none; error_count = 0; quarantined = false }
