-- ===== src/Health/Defaults/Links.antt =====
-- domain/services/health/health_policy_defaults.py: the policies on fabric paths and network links.
use server_scan.Prelude.{ℕ, pos, String, Time, true, none, [], ◌∷◌}
use server_scan.Enums.{warning, major, critical}
use server_scan.Health.Values.{scalar, int, null}
use server_scan.Health.Condition.{all_conditions, leaf, nil, cons}
use server_scan.Health.Policy.{HealthPolicy}
use server_scan.Health.Defaults.Common.{field, no_scope, fabric_scope, no_stats}

module _ (now : Time) (new_id : ℕ → String) where
  abbrev pub fabric_warning : HealthPolicy
  fabric_warning = record {
    id = new_id 0;
    name = "UCS fabric path down (warning)";
    description = "Fires when exactly one UCS fabric path is reported down.";
    enabled = true;
    system = true;
    policy_key = "connectivity.fabric_paths_down_warning";
    mode = "EVALUATE";
    category = "connectivity";
    severity = warning;
    condition = leaf "connectivity.fabric_paths_down" "EQ" (scalar (int (pos 1))) null;
    evidence = field "down" "connectivity.fabric_paths_down" ∷ [];
    message_template = "{down} UCS fabric path is down";
    scope = fabric_scope;
    source = "SYSTEM_DEFAULT";
    priority = pos 100;
    order = pos 0;
    stats = no_stats;
    revision = 1;
    created_at = now;
    updated_at = now;
    created_by = none;
    updated_by = none;
  }

  abbrev pub fabric_critical : HealthPolicy
  fabric_critical = record {
    id = new_id 1;
    name = "UCS fabric paths down (critical)";
    description = "Fires when two or more UCS fabric paths are reported down.";
    enabled = true;
    system = true;
    policy_key = "connectivity.fabric_paths_down_critical";
    mode = "EVALUATE";
    category = "connectivity";
    severity = critical;
    condition = leaf "connectivity.fabric_paths_down" "GTE" (scalar (int (pos 2))) null;
    evidence = field "down" "connectivity.fabric_paths_down" ∷ [];
    message_template = "{down} UCS fabric paths are down";
    scope = fabric_scope;
    source = "SYSTEM_DEFAULT";
    priority = pos 100;
    order = pos 0;
    stats = no_stats;
    revision = 1;
    created_at = now;
    updated_at = now;
    created_by = none;
    updated_by = none;
  }

  abbrev pub all_links_down : HealthPolicy
  all_links_down = record {
    id = new_id 9;
    name = "No network link up";
    description =
        "Fires when a server reports readable link states and none of them is up. Says nothing about a server whose link states were never read.";
    enabled = true;
    system = true;
    policy_key = "network.all_links_down";
    mode = "EVALUATE";
    category = "network";
    severity = critical;
    condition = all_conditions (
        cons (leaf "network.links_known_count" "GTE" (scalar (int (pos 1))) null)
          (cons (leaf "network.links_up_count" "EQ" (scalar (int (pos 0))) null) nil));
    evidence =
        field "interfaces" "network.links_known_count"
        ∷ field "reported" "network.interface_count"
        ∷ [];
    message_template =
        "no network link is up across {interfaces} of {reported} interface(s) with a readable link state";
    scope = no_scope;
    source = "SYSTEM_DEFAULT";
    priority = pos 100;
    order = pos 0;
    stats = no_stats;
    revision = 1;
    created_at = now;
    updated_at = now;
    created_by = none;
    updated_by = none;
  }

  abbrev pub single_link_up : HealthPolicy
  single_link_up = record {
    id = new_id 12;
    name = "Only one network link up";
    description =
        "Fires when exactly one interface is up. Network redundancy is gone: the server is still reachable, and one more failure disconnects it.";
    enabled = true;
    system = true;
    policy_key = "network.single_link_up";
    mode = "EVALUATE";
    category = "network";
    severity = major;
    condition = all_conditions (
        cons (leaf "network.links_known_count" "GTE" (scalar (int (pos 2))) null)
          (cons (leaf "network.links_up_count" "EQ" (scalar (int (pos 1))) null) nil));
    evidence =
        field "up" "network.links_up_count" ∷ field "interfaces" "network.links_known_count" ∷ [];
    message_template = "only {up} of {interfaces} readable network links is up";
    scope = no_scope;
    source = "SYSTEM_DEFAULT";
    priority = pos 100;
    order = pos 0;
    stats = no_stats;
    revision = 1;
    created_at = now;
    updated_at = now;
    created_by = none;
    updated_by = none;
  }
