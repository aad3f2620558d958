-- ===== src/Health/Condition.antt =====
-- domain/services/health/conditions.py: the condition tree, and its check at write
-- time.
pub mod Evaluate
pub mod Size
pub mod Metrics
pub mod Leaves
pub mod Safety
pub mod Total
pub mod Logic
use server_scan.Prelude.{
  ℕ, ◌+◌, String, Bool, true, false, not, ◌&&◌, Option, none, some, List, [], ◌∷◌, ◌++◌, any, ltb,
}
use Prim.Native.Nat.{max}
use server_scan.Health.Values.{Value, Scalar, scalar, list, str, value_eq}
use server_scan.Health.Metrics.{
  MetricType, enum_type, MetricDef, MetricRegistry, get, Operator, operator_of, allows, eq, ne, gt,
  gte, lt, lte, in_list, not_in,
}

-- `_exactly_one_kind` leaves these four kinds of node; a leaf without `value` or `equals` has null.
mutual
  pub data Condition : Type 0 where
    all_conditions : Conditions → Condition
    any_condition : Conditions → Condition
    negation : Condition → Condition
    leaf : String → String → Value → Value → Condition

  pub data Conditions : Type 0 where
    nil : Conditions
    cons : Condition → Conditions → Conditions

-- `_depth`, and its maximum over children
unfoldable mutual
  pub depth : Condition → ℕ
  depth (all_conditions cs) = 1 + max_depth cs
  depth (any_condition cs) = 1 + max_depth cs
  depth (negation c) = 1 + depth c
  depth (leaf metric operator value equals) = 1

  pub max_depth : Conditions → ℕ
  max_depth nil = 0
  max_depth (cons c cs) = max (depth c) (max_depth cs)

-- `_node_count`, and its sum over children
unfoldable mutual
  pub node_count : Condition → ℕ
  node_count (all_conditions cs) = 1 + node_counts cs
  node_count (any_condition cs) = 1 + node_counts cs
  node_count (negation c) = 1 + node_count c
  node_count (leaf metric operator value equals) = 1

  pub node_counts : Conditions → ℕ
  node_counts nil = 0
  node_counts (cons c cs) = node_count c + node_counts cs

abbrev pub max_condition_depth : ℕ
max_condition_depth = 5

abbrev pub max_condition_nodes : ℕ
max_condition_nodes = 50

-- `ConditionValidationError`, by its reason
pub data Reason : Type 0 where
  too_deep too_many_nodes no_such_metric no_such_operator operator_mismatch bad_enum_value : Reason

pub data Validated : Type 0 where
  valid : Validated
  invalid : Reason → Validated

abbrev pub and_then : Validated → Validated → Validated
and_then valid next = next
and_then (invalid r) next = invalid r

abbrev pub reject_if : Bool → Reason → Validated
reject_if true r = invalid r
reject_if false r = valid

-- `_SCALAR_OPERATORS | _SET_OPERATORS`
abbrev pub compares_value : Operator → Bool
compares_value eq = true
compares_value ne = true
compares_value gt = true
compares_value gte = true
compares_value lt = true
compares_value lte = true
compares_value in_list = true
compares_value not_in = true
compares_value _ = false

abbrev pub is_enum : MetricType → Bool
is_enum enum_type = true
is_enum _ = false

abbrev pub one_of : List String → Value → Bool
one_of names v = any (λ n. value_eq v (scalar (str n))) names

abbrev pub all_one_of : List String → List Scalar → Bool
all_one_of names [] = true
all_one_of names (x ∷ xs) = one_of names (scalar x) && all_one_of names xs

-- The values of an enum leaf: a list's elements, or the value itself.
unfoldable pub enum_values_ok : Option (List String) → Value → Bool
enum_values_ok none value = true
enum_values_ok (some names) (list xs) = all_one_of names xs
enum_values_ok (some names) value = one_of names value

unfoldable pub validate_operator : MetricDef → Value → Option Operator → Validated
unfolding enum_values_ok
validate_operator metric value none = invalid no_such_operator
validate_operator metric value (some op) =
    and_then (reject_if (not (allows op metric.type)) operator_mismatch) (
      reject_if
        ((is_enum metric.type && compares_value op)
          && not (enum_values_ok metric.enum_values value))
        bad_enum_value)

unfoldable pub validate_leaf : String → Value → Option MetricDef → Validated
unfolding validate_operator
validate_leaf operator value none = invalid no_such_metric
validate_leaf operator value (some metric) = validate_operator metric value (operator_of operator)

unfoldable pub check_size : Condition → Validated
unfolding depth node_count
check_size c =
    and_then (reject_if (ltb max_condition_depth (depth c)) too_deep)
      (reject_if (ltb max_condition_nodes (node_count c)) too_many_nodes)

-- `validate_condition`, at a node and over children
unfoldable mutual
  pub validate_condition : MetricRegistry → Condition → Validated
  validate_condition registry (all_conditions cs) =
      and_then (check_size (all_conditions cs)) (validate_children registry cs)
  validate_condition registry (any_condition cs) =
      and_then (check_size (any_condition cs)) (validate_children registry cs)
  validate_condition registry (negation c) =
      and_then (check_size (negation c)) (validate_condition registry c)
  validate_condition registry (leaf metric operator value equals) =
      and_then (check_size (leaf metric operator value equals))
        (validate_leaf operator value (get registry metric))

  pub validate_children : MetricRegistry → Conditions → Validated
  validate_children registry nil = valid
  validate_children registry (cons c cs) =
      and_then (validate_condition registry c) (validate_children registry cs)

-- `leaf_metrics`
unfoldable mutual
  pub leaf_metrics : Condition → List String
  leaf_metrics (all_conditions cs) = leaves_metrics cs
  leaf_metrics (any_condition cs) = leaves_metrics cs
  leaf_metrics (negation c) = leaf_metrics c
  leaf_metrics (leaf metric operator value equals) = metric ∷ []

  pub leaves_metrics : Conditions → List String
  leaves_metrics nil = []
  leaves_metrics (cons c cs) = leaf_metrics c ++ leaves_metrics cs
