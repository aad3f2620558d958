-- ===== src/Health/Defaults/Laws.antt =====
-- The policies that every deployment starts with: they are well formed, they give every server a
-- health, and no two of a pair that grades one count fire together.
use server_scan.Prelude.{ℕ, String, Time, true, ◌≡◌, refl, All, arith}
use server_scan.Health.Values.{ok, value_eq, order_values}
use server_scan.Health.Metrics.{MetricRegistry, core_metrics, get, operator_of, allows, get_fact}
use server_scan.Health.Condition.{
  validate_condition, valid, validate_leaf, validate_operator, check_size,
}
use server_scan.Health.Condition.Evaluate.{
  evaluate_condition, evaluate_leaf, evaluate_metric, apply_operator,
}
use server_scan.Health.Policy.{HealthPolicy, is_well_formed}
use server_scan.Health.Facts.{Server, extract_facts}
use server_scan.Health.Defaults.{
  default_system_policies, fabric_warning, fabric_critical, os_disk_major, os_disk_critical,
  large_storage_data_warning, large_storage_data_critical, data_disk_warning, all_links_down,
  single_link_up,
}

abbrev pub core_registry : MetricRegistry
core_registry = record { metrics = core_metrics }

-- Every default policy lies in the band of its source, has a known mode and has a condition that
-- passes the check against the core metrics.
pub default_system_policies-IsWellFormed :
    (now : Time) (new_id : ℕ → String)
    → All
        (λ p. (is_well_formed p ≡ true) × (validate_condition core_registry p.condition ≡ valid))
        (default_system_policies now new_id)
unfolding default_system_policies is_well_formed validate_condition validate_leaf validate_operator
    check_size operator_of allows get
default_system_policies-IsWellFormed now new_id = (
  (refl, refl),
  (
    (refl, refl),
    (
      (refl, refl),
      (
        (refl, refl),
        (
          (refl, refl),
          (
            (refl, refl),
            (
              (refl, refl),
              (
                (refl, refl),
                (
                  (refl, refl),
                  (
                    (refl, refl),
                    (
                      (refl, refl),
                      ((refl, refl), ((refl, refl), ((refl, refl), ((refl, refl), tt)))),
                    ),
                  ),
                ),
              ),
            ),
          ),
        ),
      ),
    ),
  ),
)

module _ (now : Time) (new_id : ℕ → String) (lower : String → String) (server : Server) where
  abbrev pub Fires : HealthPolicy → Type 0
  Fires p = evaluate_condition core_registry (extract_facts lower server) p.condition ≡ ok true

  -- No server fires both of two policies that grade one count: of fabric paths that are down, of
  -- bad OS disks, of bad data disks (each two of the three policies) or of links that are up.
  pub default_system_policies_exclusive :
      (¬ (Fires (fabric_warning now new_id) × Fires (fabric_critical now new_id)))
      × (¬ (Fires (os_disk_major now new_id) × Fires (os_disk_critical now new_id)))
      × (¬ (
          Fires (large_storage_data_warning now new_id)
          × Fires (large_storage_data_critical now new_id)))
      × (¬ (Fires (large_storage_data_warning now new_id) × Fires (data_disk_warning now new_id)))
      × (¬ (Fires (large_storage_data_critical now new_id) × Fires (data_disk_warning now new_id)))
      × (¬ (Fires (all_links_down now new_id) × Fires (single_link_up now new_id)))
  unfolding evaluate_condition evaluate_leaf evaluate_metric apply_operator extract_facts get_fact
      operator_of allows get value_eq order_values
  default_system_policies_exclusive = (
    λ (h, k). ground arith,
    λ (h, k). ground arith,
    λ (h, k). ground arith,
    λ (h, k). ground arith,
    λ (h, k). ground arith,
    λ (h, k). ground arith,
  )
