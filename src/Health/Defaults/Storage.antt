-- ===== src/Health/Defaults/Storage.antt =====
-- domain/services/health/health_policy_defaults.py: the policies on disks and capacity.
use server_scan.Prelude.{ℕ, pos, String, Time, true, false, none, [], ◌∷◌}
use server_scan.Enums.{warning, major, critical}
use server_scan.Health.Values.{scalar, int, bool, null}
use server_scan.Health.Condition.{all_conditions, leaf, nil, cons}
use server_scan.Health.Policy.{HealthPolicy}
use server_scan.Health.Defaults.Common.{field, no_scope, no_stats}

module _ (now : Time) (new_id : ℕ → String) where
  abbrev pub os_disk_major : HealthPolicy
  os_disk_major = record {
    id = new_id 3;
    name = "OS disk degraded or failed";
    description =
        "Fires when exactly one OS disk (the smallest capacity present) reports WARNING or CRITICAL. The boot mirror is unprotected.";
    enabled = true;
    system = true;
    policy_key = "storage.os_disk_bad_major";
    mode = "EVALUATE";
    category = "storage";
    severity = major;
    condition = leaf "storage.os_bad_disk_count" "EQ" (scalar (int (pos 1))) null;
    evidence = field "bad" "storage.os_bad_disk_count" ∷ field "total" "storage.os_disk_count" ∷ [];
    message_template = "{bad} of {total} OS disks degraded or failed";
    scope = no_scope;
    source = "SYSTEM_DEFAULT";
    priority = pos 100;
    order = pos 0;
    stats = no_stats;
    revision = 1;
    created_at = now;
    updated_at = now;
    created_by = none;
    updated_by = none;
  }

  abbrev pub os_disk_critical : HealthPolicy
  os_disk_critical = record {
    id = new_id 4;
    name = "Multiple OS disks degraded or failed";
    description =
        "Fires when two or more OS disks report WARNING or CRITICAL. On the usual two-disk boot mirror, nothing healthy is left.";
    enabled = true;
    system = true;
    policy_key = "storage.os_disk_bad_critical";
    mode = "EVALUATE";
    category = "storage";
    severity = critical;
    condition = leaf "storage.os_bad_disk_count" "GTE" (scalar (int (pos 2))) null;
    evidence = field "bad" "storage.os_bad_disk_count" ∷ field "total" "storage.os_disk_count" ∷ [];
    message_template = "{bad} of {total} OS disks degraded or failed";
    scope = no_scope;
    source = "SYSTEM_DEFAULT";
    priority = pos 100;
    order = pos 0;
    stats = no_stats;
    revision = 1;
    created_at = now;
    updated_at = now;
    created_by = none;
    updated_by = none;
  }

  abbrev pub large_storage_data_warning : HealthPolicy
  large_storage_data_warning = record {
    id = new_id 5;
    name = "Data disk degraded (large-storage server)";
    description =
        "Fires when exactly one non-OS disk is degraded or failed on a server whose name carries the 10TB token.";
    enabled = true;
    system = true;
    policy_key = "storage.data_disk_bad_large_warning";
    mode = "EVALUATE";
    category = "storage";
    severity = warning;
    condition = all_conditions (
        cons (leaf "server.name_has_10tb" "EQ" (scalar (bool true)) null)
          (cons (leaf "storage.data_bad_disk_count" "EQ" (scalar (int (pos 1))) null) nil));
    evidence = field "bad" "storage.data_bad_disk_count" ∷ [];
    message_template = "{bad} data disk degraded or failed";
    scope = no_scope;
    source = "SYSTEM_DEFAULT";
    priority = pos 100;
    order = pos 0;
    stats = no_stats;
    revision = 1;
    created_at = now;
    updated_at = now;
    created_by = none;
    updated_by = none;
  }

  abbrev pub large_storage_data_critical : HealthPolicy
  large_storage_data_critical = record {
    id = new_id 6;
    name = "Multiple data disks degraded (large-storage server)";
    description =
        "Fires when two or more non-OS disks are degraded or failed on a server whose name carries the 10TB token.";
    enabled = true;
    system = true;
    policy_key = "storage.data_disk_bad_large_critical";
    mode = "EVALUATE";
    category = "storage";
    severity = critical;
    condition = all_conditions (
        cons (leaf "server.name_has_10tb" "EQ" (scalar (bool true)) null)
          (cons (leaf "storage.data_bad_disk_count" "GTE" (scalar (int (pos 2))) null) nil));
    evidence = field "bad" "storage.data_bad_disk_count" ∷ [];
    message_template = "{bad} data disks degraded or failed";
    scope = no_scope;
    source = "SYSTEM_DEFAULT";
    priority = pos 100;
    order = pos 0;
    stats = no_stats;
    revision = 1;
    created_at = now;
    updated_at = now;
    created_by = none;
    updated_by = none;
  }

  abbrev pub data_disk_warning : HealthPolicy
  data_disk_warning = record {
    id = new_id 7;
    name = "Data disk degraded";
    description =
        "Fires when any non-OS disk is degraded or failed on a server that is not a large-storage node.";
    enabled = true;
    system = true;
    policy_key = "storage.data_disk_bad_warning";
    mode = "EVALUATE";
    category = "storage";
    severity = warning;
    condition = all_conditions (
        cons (leaf "server.name_has_10tb" "EQ" (scalar (bool false)) null)
          (cons (leaf "storage.data_bad_disk_count" "GTE" (scalar (int (pos 1))) null) nil));
    evidence = field "bad" "storage.data_bad_disk_count" ∷ [];
    message_template = "{bad} data disk(s) degraded or failed";
    scope = no_scope;
    source = "SYSTEM_DEFAULT";
    priority = pos 100;
    order = pos 0;
    stats = no_stats;
    revision = 1;
    created_at = now;
    updated_at = now;
    created_by = none;
    updated_by = none;
  }

  abbrev pub large_storage_undersized : HealthPolicy
  large_storage_undersized = record {
    id = new_id 8;
    name = "Large-storage server below expected capacity";
    description =
        "Fires when a server whose name carries the 10TB token reports less than 8 TB of total storage.";
    enabled = true;
    system = true;
    policy_key = "storage.large_storage_undersized";
    mode = "EVALUATE";
    category = "storage";
    severity = critical;
    condition = all_conditions (
        cons (leaf "server.name_has_10tb" "EQ" (scalar (bool true)) null)
          (cons (leaf "storage.total_bytes" "LT" (scalar (int (pos 8000000000000))) null) nil));
    evidence = field "total" "storage.total_bytes" ∷ [];
    message_template = "only {total} bytes of storage on a 10TB server";
    scope = no_scope;
    source = "SYSTEM_DEFAULT";
    priority = pos 100;
    order = pos 0;
    stats = no_stats;
    revision = 1;
    created_at = now;
    updated_at = now;
    created_by = none;
    updated_by = none;
  }

  abbrev pub name_5tb_oversized : HealthPolicy
  name_5tb_oversized = record {
    id = new_id 10;
    name = "5TB server above expected capacity";
    description =
        "Fires when a server whose name carries the 5TB token reports more than 6 TB of total storage.";
    enabled = true;
    system = true;
    policy_key = "storage.name_5tb_oversized";
    mode = "EVALUATE";
    category = "storage";
    severity = critical;
    condition = all_conditions (
        cons (leaf "server.name_has_5tb" "EQ" (scalar (bool true)) null)
          (cons (leaf "storage.total_bytes" "GT" (scalar (int (pos 6000000000000))) null) nil));
    evidence = field "total" "storage.total_bytes" ∷ [];
    message_template = "{total} bytes of storage on a 5TB server";
    scope = no_scope;
    source = "SYSTEM_DEFAULT";
    priority = pos 100;
    order = pos 0;
    stats = no_stats;
    revision = 1;
    created_at = now;
    updated_at = now;
    created_by = none;
    updated_by = none;
  }
