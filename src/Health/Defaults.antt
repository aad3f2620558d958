-- ===== src/Health/Defaults.antt =====
-- domain/services/health/health_policy_defaults.py: the policies that every deployment starts with.
-- `new_id` and the clock are parameters: `new_id` gives the text of its n-th call.
pub mod Common
pub mod Storage
pub mod Links
pub mod Parts
pub mod Laws
pub use Storage.{
  os_disk_major, os_disk_critical, large_storage_data_warning, large_storage_data_critical,
  data_disk_warning, large_storage_undersized, name_5tb_oversized,
}
pub use Links.{fabric_warning, fabric_critical, all_links_down, single_link_up}
pub use Parts.{failed_psu, degraded_dimm, failed_gpu, gpu_ecc}
use server_scan.Prelude.{ℕ, String, Time, List, [], ◌∷◌}
use server_scan.Health.Policy.{HealthPolicy}

module _ (now : Time) (new_id : ℕ → String) where
  unfoldable pub default_system_policies : List HealthPolicy
  default_system_policies =
      fabric_warning now new_id
      ∷ fabric_critical now new_id
      ∷ failed_psu now new_id
      ∷ os_disk_major now new_id
      ∷ os_disk_critical now new_id
      ∷ large_storage_data_warning now new_id
      ∷ large_storage_data_critical now new_id
      ∷ data_disk_warning now new_id
      ∷ large_storage_undersized now new_id
      ∷ name_5tb_oversized now new_id
      ∷ degraded_dimm now new_id
      ∷ all_links_down now new_id
      ∷ single_link_up now new_id
      ∷ failed_gpu now new_id
      ∷ gpu_ecc now new_id
      ∷ []
