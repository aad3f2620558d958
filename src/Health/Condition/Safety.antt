-- ===== src/Health/Condition/Safety.antt =====
-- Which exceptions the evaluation of a checked condition can raise.
use server_scan.Prelude.{String, Option, none, some, ◌≡◌}
use server_scan.Health.Values.{Value, Error, type_error, ◌>>=◌}
use server_scan.Health.Values.Laws.{
  OnlyTypeErrors, bind-Raises, order_values-OnlyTypeErrors, elements-OnlyTypeErrors,
  is_in-OnlyTypeErrors,
}
use server_scan.Health.Metrics.{
  MetricDef, MetricRegistry, Facts, get, Operator, operator_of, eq, ne, gt, gte, lt, lte, in_list,
  not_in, exists, not_exists, any_of, all_of, count_eq, count_gt, count_gte, count_lt, count_lte,
}
use server_scan.Health.Condition.{
  Condition, valid, validate_condition, validate_leaf, validate_operator,
}
use server_scan.Health.Condition.Evaluate.{
  evaluate_condition, evaluate_leaf, evaluate_metric, apply_operator, apply_known, eval_scalar,
  count_elements,
}
use server_scan.Health.Condition.Leaves.{
  AllLeaves-zip, IsValidLeaf, valid-AllLeaves, LeafRaises, evaluate-Raises,
}

abbrev IsTypeError : Error → Type 0
IsTypeError e = e ≡ type_error

-- The six scalar operators raise `TypeError` only; the others never reach `_eval_scalar`.
abbrev pub IsScalar : Operator → Type 0
IsScalar eq = Unit
IsScalar ne = Unit
IsScalar gt = Unit
IsScalar gte = Unit
IsScalar lt = Unit
IsScalar lte = Unit
IsScalar _ = ⊥

eval_scalar-OnlyTypeErrors :
    (op : Operator) (v w : Value) → IsScalar op → OnlyTypeErrors (eval_scalar op v w)
unfolding eval_scalar
eval_scalar-OnlyTypeErrors eq v w s = tt
eval_scalar-OnlyTypeErrors ne v w s = tt
eval_scalar-OnlyTypeErrors gt v w s =
    bind-Raises IsTypeError _ _ (order_values-OnlyTypeErrors v w) (λ o. tt)
eval_scalar-OnlyTypeErrors gte v w s =
    bind-Raises IsTypeError _ _ (order_values-OnlyTypeErrors v w) (λ o. tt)
eval_scalar-OnlyTypeErrors lt v w s =
    bind-Raises IsTypeError _ _ (order_values-OnlyTypeErrors v w) (λ o. tt)
eval_scalar-OnlyTypeErrors lte v w s =
    bind-Raises IsTypeError _ _ (order_values-OnlyTypeErrors v w) (λ o. tt)
eval_scalar-OnlyTypeErrors _ v w s = absurd s

count-OnlyTypeErrors :
    (op : Operator) (actual value equals : Value)
    → IsScalar op
    → OnlyTypeErrors (count_elements actual equals >>= λ n. eval_scalar op n value)
unfolding count_elements
count-OnlyTypeErrors op actual value equals s =
    bind-Raises IsTypeError _ _
      (bind-Raises IsTypeError _ _ (elements-OnlyTypeErrors actual) (λ xs. tt))
      (λ n. eval_scalar-OnlyTypeErrors op n value s)

apply_operator-OnlyTypeErrors :
    (op : Operator) (actual value equals : Value)
    → OnlyTypeErrors (apply_operator op actual value equals)
unfolding apply_operator
apply_operator-OnlyTypeErrors exists v w e = tt
apply_operator-OnlyTypeErrors not_exists v w e = tt
apply_operator-OnlyTypeErrors in_list v w e = is_in-OnlyTypeErrors v w
apply_operator-OnlyTypeErrors not_in v w e =
    bind-Raises IsTypeError _ _ (is_in-OnlyTypeErrors v w) (λ b. tt)
apply_operator-OnlyTypeErrors any_of v w e = is_in-OnlyTypeErrors w v
apply_operator-OnlyTypeErrors all_of v w e =
    bind-Raises IsTypeError _ _ (elements-OnlyTypeErrors v) (λ xs. tt)
apply_operator-OnlyTypeErrors count_eq v w e = count-OnlyTypeErrors eq v w e tt
apply_operator-OnlyTypeErrors count_gt v w e = count-OnlyTypeErrors gt v w e tt
apply_operator-OnlyTypeErrors count_gte v w e = count-OnlyTypeErrors gte v w e tt
apply_operator-OnlyTypeErrors count_lt v w e = count-OnlyTypeErrors lt v w e tt
apply_operator-OnlyTypeErrors count_lte v w e = count-OnlyTypeErrors lte v w e tt
apply_operator-OnlyTypeErrors eq v w e = eval_scalar-OnlyTypeErrors eq v w tt
apply_operator-OnlyTypeErrors ne v w e = eval_scalar-OnlyTypeErrors ne v w tt
apply_operator-OnlyTypeErrors gt v w e = eval_scalar-OnlyTypeErrors gt v w tt
apply_operator-OnlyTypeErrors gte v w e = eval_scalar-OnlyTypeErrors gte v w tt
apply_operator-OnlyTypeErrors lt v w e = eval_scalar-OnlyTypeErrors lt v w tt
apply_operator-OnlyTypeErrors lte v w e = eval_scalar-OnlyTypeErrors lte v w tt

known-OnlyTypeErrors :
    (metric : MetricDef) (op : Option Operator) (facts : Facts) (value equals : Value)
    → validate_operator metric value op ≡ valid
    → OnlyTypeErrors (apply_known op (metric.resolver facts) value equals)
unfolding validate_operator
known-OnlyTypeErrors metric none facts value equals h = cc
known-OnlyTypeErrors metric (some op) facts value equals h =
    apply_operator-OnlyTypeErrors op (metric.resolver facts) value equals

metric-OnlyTypeErrors :
    (facts : Facts) (operator : String) (value equals : Value) (metric : Option MetricDef)
    → validate_leaf operator value metric ≡ valid
    → OnlyTypeErrors (evaluate_metric facts operator value equals metric)
unfolding validate_leaf evaluate_metric
metric-OnlyTypeErrors facts operator value equals none h = cc
metric-OnlyTypeErrors facts operator value equals (some metric) h =
    known-OnlyTypeErrors metric (operator_of operator) facts value equals h

module _ (registry : MetricRegistry) (facts : Facts) where
  leaf-OnlyTypeErrors :
      (m o : String) (v e : Value)
      → IsValidLeaf registry m o v e
      → IsValidLeaf registry m o v e
      → LeafRaises registry facts IsTypeError m o v e
  unfolding evaluate_leaf
  leaf-OnlyTypeErrors m o v e h _ = metric-OnlyTypeErrors facts o v e (get registry m) h

  -- On any facts at all, a checked condition raises at most a `TypeError`: never an unknown metric
  -- and never an assertion.
  pub validated-OnlyTypeErrors :
      (c : Condition)
      → validate_condition registry c ≡ valid
      → OnlyTypeErrors (evaluate_condition registry facts c)
  validated-OnlyTypeErrors c h =
      let leaves = valid-AllLeaves registry c h in
      evaluate-Raises registry facts IsTypeError c
        (AllLeaves-zip leaf-OnlyTypeErrors c leaves leaves)
