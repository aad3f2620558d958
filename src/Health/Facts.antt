-- ===== src/Health/Facts.antt =====
-- domain/services/health/facts.py: the facts of a server, with the parts of domain/models/server.py,
-- hardware.py, network.py and connectivity.py that they are read from. `str.lower` is a parameter.
pub mod Laws
use server_scan.Prelude.{
  ℕ, ℤ, pos, ◌+◌, String, Bool, true, false, not, ◌&&◌, Option, none, some, is_some, List, [], ◌∷◌,
  ◌++◌, map, filter, length, any, count, str_eq, eqb_ℤ, ltb_ℤ, ltb, contains, if◌then◌else◌, ◌+ℤ◌,
}
use server_scan.Enums.{
  LinkState, link_state_value, HealthSeverity, health_severity_value, critical, warning,
}
use server_scan.Prelude.Order.{str_order}
use server_scan.Prelude.Sort.{sort}
use server_scan.Health.Values.{Value, scalar, list, int, bool, str}
use server_scan.Health.Metrics.{Facts}

pub record StorageDrive : Type 0 where
  pub capacity_bytes : Option ℤ
  pub health : Option String

pub record MemoryModule : Type 0 where
  pub health : Option String

pub record Gpu : Type 0 where
  pub health : Option String
  pub uncorrectable_error_count : Option ℤ

pub record Psu : Type 0 where
  pub health : Option String

pub record Cpu : Type 0 where
  pub sockets : ℤ

pub record Memory : Type 0 where
  pub total_bytes : ℤ
  pub modules : List MemoryModule

pub record Storage : Type 0 where
  pub total_bytes : ℤ
  pub drives : List StorageDrive

pub record Power : Type 0 where
  pub psus : List Psu

pub record Hardware : Type 0 where
  pub cpu : Cpu
  pub memory : Memory
  pub storage : Storage
  pub gpus : List Gpu
  pub power : Power

pub record NetworkInterface : Type 0 where
  pub link_state : LinkState

pub record NetworkInfo : Type 0 where
  pub interfaces : List NetworkInterface

pub record ConnectivityAttachment : Type 0 where
  pub fabric : Option String
  pub oper_state : String
  pub interface_kind : String

pub record ConnectivityFacts : Type 0 where
  pub fabric_paths_total : ℕ
  pub fabric_paths_up : ℕ
  pub fabric_paths_down : ℕ
  pub fabrics_present : List String

pub record Connectivity : Type 0 where
  pub attachments : List ConnectivityAttachment
  pub facts : ConnectivityFacts

pub record Server : Type 0 where
  pub name : String
  pub hardware : Hardware
  pub network : NetworkInfo
  pub connectivity : Connectivity

-- `{x for x in xs}`, each item where it last stands
abbrev pub distinct {ℓ} : {A : Type ℓ} → (A → A → Bool) → List A → List A
distinct same [] = []
distinct same (x ∷ xs) = let rest = distinct same xs in if any (same x) xs then rest else x ∷ rest

-- `[x for x in xs if x is not None]`
abbrev pub present {ℓ} : {A : Type ℓ} → List (Option A) → List A
present [] = []
present (none ∷ xs) = present xs
present (some x ∷ xs) = x ∷ present xs

-- `compute_connectivity_facts`
unfoldable pub compute_connectivity_facts : List ConnectivityAttachment → ConnectivityFacts
compute_connectivity_facts attachments =
    let physical = filter (λ a. str_eq a.interface_kind "PHYSICAL") attachments in
    record {
      fabric_paths_total = length physical;
      fabric_paths_up = count (λ a. str_eq a.oper_state "UP") physical;
      fabric_paths_down = count (λ a. str_eq a.oper_state "DOWN") physical;
      fabrics_present = sort str_order (distinct str_eq (present (map (λ a. a.fabric) physical)));
    }

abbrev pub is_failed : String → Bool
is_failed h = any (str_eq h) ("CRITICAL" ∷ "DOWN" ∷ [])

-- `h in _NOT_GOOD`, with `None` in no set of texts
abbrev pub is_not_good : Option String → Bool
is_not_good none = false
is_not_good (some h) = any (str_eq h) ("CRITICAL" ∷ "WARNING" ∷ "DOWN" ∷ [])

-- `d.capacity_bytes for d in drives if d.capacity_bytes`
abbrev pub known_capacities : List StorageDrive → List ℤ
known_capacities drives =
    filter (λ c. not (eqb_ℤ c (pos 0))) (present (map (λ d. d.capacity_bytes) drives))

abbrev pub min_ℤ : ℤ → List ℤ → ℤ
min_ℤ c [] = c
min_ℤ c (d ∷ ds) = min_ℤ (if ltb_ℤ d c then d else c) ds

abbrev pub smallest_of : List ℤ → Option ℤ
smallest_of [] = none
smallest_of (c ∷ []) = none
smallest_of (c ∷ d ∷ ds) = some (min_ℤ c (d ∷ ds))

-- `_os_disk_capacities`: at most one capacity, of at least two that differ
unfoldable pub os_disk_capacity : List StorageDrive → Option ℤ
os_disk_capacity drives = smallest_of (distinct eqb_ℤ (known_capacities drives))

abbrev pub has_capacity : Option ℤ → StorageDrive → Bool
has_capacity none d = false
has_capacity (some c) d = elim d.capacity_bytes [ none ↦ false | some c' ↦ eqb_ℤ c' c ]

unfoldable pub os_disks : List StorageDrive → List StorageDrive
unfolding os_disk_capacity
os_disks drives = filter (has_capacity (os_disk_capacity drives)) drives

unfoldable pub data_disks : List StorageDrive → List StorageDrive
unfolding os_disk_capacity
data_disks drives = filter (λ d. not (has_capacity (os_disk_capacity drives) d)) drives

abbrev pub sum_ℤ : List ℤ → ℤ
sum_ℤ [] = pos 0
sum_ℤ (n ∷ ns) = n +ℤ sum_ℤ ns

abbrev pub num : ℕ → Value
num n = scalar (int (pos n))

abbrev pub flag : Bool → Value
flag b = scalar (bool b)

abbrev pub texts : List String → Value
texts ss = list (map str ss)

-- `extract_facts`
unfoldable pub extract_facts : (String → String) → Server → Facts
unfolding os_disks data_disks
extract_facts lower server =
    let hardware = server.hardware in
    let drives = hardware.storage.drives in
    let drive_healths = present (map (λ d. d.health) drives) in
    let link_states = map (λ i. link_state_value i.link_state) server.network.interfaces in
    let psu_healths = present (map (λ p. p.health) hardware.power.psus) in
    let gpu_healths = present (map (λ g. g.health) hardware.gpus) in
    let uncorrectable = present (map (λ g. g.uncorrectable_error_count) hardware.gpus) in
    let facts = server.connectivity.facts in
    ("cpu.socket_count", scalar (int hardware.cpu.sockets))
    ∷ ("memory.total_bytes", scalar (int hardware.memory.total_bytes))
    ∷ ("storage.drive_count", num (length drives))
    ∷ ("storage.drive_healths", texts drive_healths)
    ∷ (
      "storage.failed_drive_count",
      num (count (λ h. str_eq h (health_severity_value critical)) drive_healths),
    )
    ∷ (
      "storage.warning_drive_count",
      num (count (λ h. str_eq h (health_severity_value warning)) drive_healths),
    )
    ∷ ("storage.total_bytes", scalar (int hardware.storage.total_bytes))
    ∷ ("storage.os_disk_count", num (length (os_disks drives)))
    ∷ ("storage.os_bad_disk_count", num (count (λ d. is_not_good d.health) (os_disks drives)))
    ∷ ("storage.data_disk_count", num (length (data_disks drives)))
    ∷ ("storage.data_bad_disk_count", num (count (λ d. is_not_good d.health) (data_disks drives)))
    ∷ ("server.name_has_10tb", flag (contains "10tb" (lower server.name)))
    ∷ ("server.name_has_5tb", flag (contains "5tb" (lower server.name)))
    ∷ ("memory.dimm_count", num (length hardware.memory.modules))
    ∷ (
      "memory.degraded_dimm_count",
      num (count (λ d. is_not_good d.health) hardware.memory.modules),
    )
    ∷ ("network.interface_link_states", texts link_states)
    ∷ ("network.interface_count", num (length link_states))
    ∷ ("network.links_known_count", num (count (λ s. not (str_eq s "UNKNOWN")) link_states))
    ∷ ("network.links_up_count", num (count (λ s. str_eq s "UP") link_states))
    ∷ ("connectivity.fabric_paths_total", num facts.fabric_paths_total)
    ∷ ("connectivity.fabric_paths_up", num facts.fabric_paths_up)
    ∷ ("connectivity.fabric_paths_down", num facts.fabric_paths_down)
    ∷ ("power.psu_count", num (length hardware.power.psus))
    ∷ ("power.failed_psu_count", num (count (λ h. str_eq h "DOWN") psu_healths))
    ∷ ("gpu.count", num (length hardware.gpus))
    ∷ ("gpu.failed_count", num (count is_failed gpu_healths))
    ∷ ("gpu.uncorrectable_error_count", scalar (int (sum_ℤ uncorrectable)))
    ∷ []
