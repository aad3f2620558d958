-- ===== src/Enums.antt =====
-- domain/enums/core.py: the closed enumerations, each with the text that a member is stored as.
use server_scan.Prelude.{ℕ, String, Bool, true, str_eq, refl, ◌≡◌}

pub data Vendor : Type 0 where
  dell cisco hp standalone : Vendor

abbrev pub vendor_value : Vendor → String
vendor_value dell = "dell"
vendor_value cisco = "cisco"
vendor_value hp = "hp"
vendor_value standalone = "standalone"

pub data ManagerType : Type 0 where
  openmanage ucs_manager ucs_central intersight oneview redfish_standalone : ManagerType

abbrev pub manager_type_value : ManagerType → String
manager_type_value openmanage = "OPENMANAGE"
manager_type_value ucs_manager = "UCS_MANAGER"
manager_type_value ucs_central = "UCS_CENTRAL"
manager_type_value intersight = "INTERSIGHT"
manager_type_value oneview = "ONEVIEW"
manager_type_value redfish_standalone = "REDFISH_STANDALONE"

pub data InstallationType : Type 0 where
  hosted_cluster mce upi unclassified : InstallationType

abbrev pub installation_type_value : InstallationType → String
installation_type_value hosted_cluster = "HOSTED_CLUSTER"
installation_type_value mce = "MCE"
installation_type_value upi = "UPI"
installation_type_value unclassified = "UNCLASSIFIED"

pub data OpenShiftState : Type 0 where
  available installed installed_to_inventory : OpenShiftState

abbrev pub openshift_state_value : OpenShiftState → String
openshift_state_value available = "AVAILABLE"
openshift_state_value installed = "INSTALLED"
openshift_state_value installed_to_inventory = "INSTALLED_TO_INVENTORY"

pub data HealthSeverity : Type 0 where
  unknown healthy warning major critical : HealthSeverity

abbrev pub health_severity_value : HealthSeverity → String
health_severity_value unknown = "UNKNOWN"
health_severity_value healthy = "HEALTHY"
health_severity_value warning = "WARNING"
health_severity_value major = "MAJOR"
health_severity_value critical = "CRITICAL"

-- `HEALTH_SEVERITY_RANK`
abbrev pub health_severity_rank : HealthSeverity → ℕ
health_severity_rank unknown = 0
health_severity_rank healthy = 1
health_severity_rank warning = 2
health_severity_rank major = 3
health_severity_rank critical = 4

pub data LinkState : Type 0 where
  up down unknown disabled : LinkState

abbrev pub link_state_value : LinkState → String
link_state_value up = "UP"
link_state_value down = "DOWN"
link_state_value LinkState.unknown = "UNKNOWN"
link_state_value disabled = "DISABLED"

pub data MediaType : Type 0 where
  hdd ssd nvme unknown : MediaType

abbrev pub media_type_value : MediaType → String
media_type_value hdd = "HDD"
media_type_value ssd = "SSD"
media_type_value nvme = "NVME"
media_type_value MediaType.unknown = "UNKNOWN"

-- A member of a `StrEnum` is compared as the text that it is.
abbrev pub same_vendor : Vendor → Vendor → Bool
same_vendor v w = str_eq (vendor_value v) (vendor_value w)

abbrev pub same_manager_type : ManagerType → ManagerType → Bool
same_manager_type m n = str_eq (manager_type_value m) (manager_type_value n)

abbrev pub same_installation_type : InstallationType → InstallationType → Bool
same_installation_type t u = str_eq (installation_type_value t) (installation_type_value u)

abbrev pub same_openshift_state : OpenShiftState → OpenShiftState → Bool
same_openshift_state s t = str_eq (openshift_state_value s) (openshift_state_value t)

pub same_installation_type_refl : (t : InstallationType) → same_installation_type t t ≡ true
same_installation_type_refl hosted_cluster = refl
same_installation_type_refl mce = refl
same_installation_type_refl upi = refl
same_installation_type_refl unclassified = refl
