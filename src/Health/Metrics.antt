-- ===== src/Health/Metrics.antt =====
-- domain/services/health/metrics.py: the metric registry.
pub mod Laws
use server_scan.Prelude.{
  ℕ, pos, String, Bool, true, false, Option, none, some, List, [], ◌∷◌, ◌++◌, map, str_eq,
  if◌then◌else◌, is_some, not,
}
use server_scan.Prelude.Order.{Order, str_order, on}
use server_scan.Prelude.Sort.{sort}
use server_scan.Health.Values.{Value, scalar, list, int, bool}

pub data MetricType : Type 0 where
  int_type float_type string_type bool_type enum_type list_string list_int : MetricType

-- `dict[str, Any]`, the latest entry of a key first.
abbrev pub Facts : Type 0
Facts = List (String × Value)

pub record MetricDef : Type 0 where
  pub name : String
  pub type : MetricType
  pub category : String
  pub description : String
  pub resolver : Facts → Value
  pub enum_values : Option (List String)
  pub provider : String

-- `MetricRegistry._metrics`, in the order of registration.
pub record MetricRegistry : Type 0 where
  pub metrics : List MetricDef

abbrev pub find_metric : String → List MetricDef → Option MetricDef
find_metric name [] = none
find_metric name (m ∷ ms) =
    let rest = find_metric name ms in if str_eq m.name name then some m else rest

-- `MetricRegistry.get`
unfoldable pub get : MetricRegistry → String → Option MetricDef
get registry name = find_metric name registry.metrics

-- `MetricRegistry.register`; `none` is the `ValueError` of a name that is taken.
unfoldable pub register : MetricRegistry → MetricDef → Option MetricRegistry
unfolding get
register registry metric =
    if is_some (get registry metric.name)
    then none
    else some (record registry { metrics = registry.metrics ++ metric ∷ [] })

-- `MetricRegistry.all`
unfoldable pub all_metrics : MetricRegistry → List MetricDef
all_metrics registry = sort (on (λ m. m.name) str_order) registry.metrics

-- `_get`
unfoldable pub get_fact : Facts → String → Value → Value
get_fact [] key default = default
get_fact ((k, v) ∷ facts) key default =
    let rest = get_fact facts key default in if str_eq k key then v else rest

unfoldable pub register_all : MetricRegistry → List MetricDef → Option MetricRegistry
unfolding register
register_all registry [] = some registry
register_all registry (m ∷ ms) = elim (register registry m) [
  | none ↦ none
  | some registry' ↦ register_all registry' ms
]

abbrev pub core_metric : MetricType → String → String → String → Value → MetricDef
core_metric type category name description default = record {
  name = name;
  type = type;
  category = category;
  description = description;
  resolver = λ facts. get_fact facts name default;
  enum_values = none;
  provider = "core";
}

abbrev pub zero_value : Value
zero_value = scalar (int (pos 0))

abbrev pub count_metric : String → String → String → MetricDef
count_metric category name description = core_metric int_type category name description zero_value

-- The metrics that `build_default_registry` registers, in its order.
abbrev pub core_metrics : List MetricDef
core_metrics =
    count_metric "cpu" "cpu.socket_count" "Number of populated CPU sockets"
    ∷ count_metric "memory" "memory.total_bytes" "Total installed memory in bytes"
    ∷ count_metric "storage" "storage.drive_count" "Number of storage drives reported"
    ∷ core_metric list_string "storage" "storage.drive_healths" "Health string reported per drive"
        (list [])
    ∷ count_metric "storage" "storage.failed_drive_count" "Count of drives with health == CRITICAL"
    ∷ core_metric list_string "network" "network.interface_link_states"
        "Link state reported per network interface" (list [])
    ∷ count_metric "connectivity" "connectivity.fabric_paths_total"
        "Total fabric attachments reported"
    ∷ count_metric "connectivity" "connectivity.fabric_paths_up"
        "Fabric attachments with oper_state == UP"
    ∷ count_metric "connectivity" "connectivity.fabric_paths_down"
        "Fabric attachments with oper_state == DOWN"
    ∷ count_metric "power" "power.psu_count" "Number of power supplies reported"
    ∷ count_metric "power" "power.failed_psu_count" "Count of PSUs with health == DOWN"
    ∷ count_metric "storage" "storage.warning_drive_count" "Count of drives with health == WARNING"
    ∷ count_metric "storage" "storage.total_bytes"
        "Total storage capacity across all drives, in bytes"
    ∷ count_metric "storage" "storage.os_disk_count"
        "Drives identified as OS disks (the smallest capacity present)"
    ∷ count_metric "storage" "storage.os_bad_disk_count"
        "OS disks reporting WARNING or CRITICAL health"
    ∷ count_metric "storage" "storage.data_disk_count" "Drives that are not OS disks"
    ∷ count_metric "storage" "storage.data_bad_disk_count"
        "Non-OS drives reporting WARNING or CRITICAL health"
    ∷ core_metric bool_type "storage" "server.name_has_10tb"
        "Whether the server's name carries the 10TB token" (scalar (bool false))
    ∷ core_metric bool_type "storage" "server.name_has_5tb"
        "Whether the server's name carries the 5TB token" (scalar (bool false))
    ∷ count_metric "memory" "memory.dimm_count" "Number of fitted DIMMs reported"
    ∷ count_metric "memory" "memory.degraded_dimm_count"
        "DIMMs reporting WARNING or CRITICAL health"
    ∷ count_metric "network" "network.interface_count" "Number of network interfaces reported"
    ∷ count_metric "network" "network.links_up_count" "Count of interfaces with link_state == UP"
    ∷ count_metric "network" "network.links_known_count"
        "Interfaces whose link state was actually readable (not UNKNOWN)"
    ∷ count_metric "gpu" "gpu.count" "Number of GPUs reported"
    ∷ count_metric "gpu" "gpu.failed_count" "Count of GPUs reporting CRITICAL or DOWN health"
    ∷ count_metric "gpu" "gpu.uncorrectable_error_count"
        "Uncorrectable ECC errors summed across the server's GPUs"
    ∷ []

unfoldable pub build_default_registry : Option MetricRegistry
unfolding register_all
build_default_registry = register_all (record { metrics = [] }) core_metrics

-- The operators of a condition leaf, in the groups that `conditions.py` names.
pub data Operator : Type 0 where
  eq ne gt gte lt lte : Operator
  in_list not_in : Operator
  exists not_exists : Operator
  any_of all_of : Operator
  count_eq count_gt count_gte count_lt count_lte : Operator

-- `operator in ALL_OPERATORS`, with the operator that the text names.
unfoldable pub operator_of : String → Option Operator
operator_of s =
    if str_eq s "EQ"
    then some eq
    else if str_eq s "NE"
    then some ne
    else if str_eq s "GT"
    then some gt
    else if str_eq s "GTE"
    then some gte
    else if str_eq s "LT"
    then some lt
    else if str_eq s "LTE"
    then some lte
    else if str_eq s "IN"
    then some in_list
    else if str_eq s "NOT_IN"
    then some not_in
    else if str_eq s "EXISTS"
    then some exists
    else if str_eq s "NOT_EXISTS"
    then some not_exists
    else if str_eq s "ANY"
    then some any_of
    else if str_eq s "ALL"
    then some all_of
    else if str_eq s "COUNT_EQ"
    then some count_eq
    else if str_eq s "COUNT_GT"
    then some count_gt
    else if str_eq s "COUNT_GTE"
    then some count_gte
    else if str_eq s "COUNT_LT"
    then some count_lt
    else if str_eq s "COUNT_LTE"
    then some count_lte
    else none

abbrev pub is_list_type : MetricType → Bool
is_list_type list_string = true
is_list_type list_int = true
is_list_type _ = false

abbrev pub is_number_type : MetricType → Bool
is_number_type int_type = true
is_number_type float_type = true
is_number_type _ = false

-- `OPERATOR_ALLOWED_TYPES`
unfoldable pub allows : Operator → MetricType → Bool
allows eq type = not (is_list_type type)
allows ne type = not (is_list_type type)
allows gt type = is_number_type type
allows gte type = is_number_type type
allows lt type = is_number_type type
allows lte type = is_number_type type
allows in_list bool_type = false
allows in_list type = not (is_list_type type)
allows not_in bool_type = false
allows not_in type = not (is_list_type type)
allows exists type = true
allows not_exists type = true
allows any_of type = is_list_type type
allows all_of type = is_list_type type
allows count_eq type = is_list_type type
allows count_gt type = is_list_type type
allows count_gte type = is_list_type type
allows count_lt type = is_list_type type
allows count_lte type = is_list_type type
