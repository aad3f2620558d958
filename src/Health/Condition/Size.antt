-- ===== src/Health/Condition/Size.antt =====
-- The sizes of a condition tree, and what the check at write time bounds.
use server_scan.Prelude.{◌≤◌, ◌≡◌, length, length-append, arith}
use server_scan.Health.Metrics.{MetricRegistry}
use server_scan.Health.Condition.{
  Condition, Conditions, all_conditions, any_condition, negation, leaf, nil, cons, depth, max_depth,
  node_count, node_counts, leaf_metrics, leaves_metrics, valid, check_size, validate_condition,
}

mutual
  unfolding depth node_count

  depth-le : (c : Condition) → depth c ≤ node_count c
  depth-le (all_conditions cs) = omega (arith, max_depth-le cs)
  depth-le (any_condition cs) = omega (arith, max_depth-le cs)
  depth-le (negation c) = omega (arith, depth-le c)
  depth-le (leaf m o v e) = omega arith

  max_depth-le : (cs : Conditions) → max_depth cs ≤ node_counts cs
  max_depth-le nil = omega arith
  max_depth-le (cons c cs) = omega (arith, depth-le c, max_depth-le cs)

mutual
  unfolding leaf_metrics node_count

  leaf_metrics-le : (c : Condition) → length (leaf_metrics c) ≤ node_count c
  leaf_metrics-le (all_conditions cs) = omega (arith, leaves_metrics-le cs)
  leaf_metrics-le (any_condition cs) = omega (arith, leaves_metrics-le cs)
  leaf_metrics-le (negation c) = omega (arith, leaf_metrics-le c)
  leaf_metrics-le (leaf m o v e) = omega arith

  leaves_metrics-le : (cs : Conditions) → length (leaves_metrics cs) ≤ node_counts cs
  leaves_metrics-le nil = omega arith
  leaves_metrics-le (cons c cs) = omega (
    arith,
    length-append {0} (leaf_metrics c) (leaves_metrics cs),
    leaf_metrics-le c,
    leaves_metrics-le cs,
  )

check_size_bounds : (c : Condition) → check_size c ≡ valid → (depth c ≤ 5) × (node_count c ≤ 50)
unfolding check_size
check_size_bounds c h = ground arith

check_size_of_valid :
    (registry : MetricRegistry) (c : Condition)
    → validate_condition registry c ≡ valid
    → check_size c ≡ valid
unfolding validate_condition
check_size_of_valid registry (all_conditions cs) h = ground arith
check_size_of_valid registry (any_condition cs) h = ground arith
check_size_of_valid registry (negation c) h = ground arith
check_size_of_valid registry (leaf m o v e) h = ground arith

-- A condition that passes the check is at most 5 deep, has at most 50 nodes and names at most 50
-- metrics.
pub validate_condition_bounds :
    (registry : MetricRegistry) (c : Condition)
    → validate_condition registry c ≡ valid
    → (depth c ≤ 5) × (node_count c ≤ 50) × (length (leaf_metrics c) ≤ 50)
validate_condition_bounds registry c h =
    let (d, n) = check_size_bounds c (check_size_of_valid registry c h) in
    (d, n, omega (arith, leaf_metrics-le c))
