-- ===== src/Health/Condition/Evaluate.antt =====
-- domain/services/health/conditions.py: the evaluation of a condition against a server's facts.
use Prim.Native.Nat.{Ordering}
use server_scan.Prelude.{
  pos, String, Bool, true, false, not, ◌&&◌, Option, none, some, List, [], ◌∷◌, length, count,
  if◌then◌else◌,
}
use server_scan.Health.Values.{
  Value, Scalar, null, scalar, list, int, str, Result, ok, raised, unknown_metric, assertion, ◌>>=◌,
  value_eq, order_values, is_in, elements,
}
use server_scan.Health.Metrics.{
  MetricDef, MetricRegistry, Facts, get, Operator, operator_of, eq, ne, gt, gte, lt, lte, in_list,
  not_in, exists, not_exists, any_of, all_of, count_eq, count_gt, count_gte, count_lt, count_lte,
}
use server_scan.Health.Condition.{
  Condition, Conditions, all_conditions, any_condition, negation, leaf, nil, cons,
}

abbrev pub is_gt : Ordering → Bool
is_gt Ordering.gt = true
is_gt _ = false

abbrev pub is_lt : Ordering → Bool
is_lt Ordering.lt = true
is_lt _ = false

-- `_eval_scalar`; only the scalar operators reach it.
unfoldable pub eval_scalar : Operator → Value → Value → Result Bool
unfolding value_eq order_values
eval_scalar eq actual value = ok (value_eq actual value)
eval_scalar ne actual value = ok (not (value_eq actual value))
eval_scalar gt actual value = order_values actual value >>= λ o. ok (is_gt o)
eval_scalar gte actual value = order_values actual value >>= λ o. ok (not (is_lt o))
eval_scalar lt actual value = order_values actual value >>= λ o. ok (is_lt o)
eval_scalar lte actual value = order_values actual value >>= λ o. ok (not (is_gt o))
eval_scalar _ actual value = raised assertion

-- `actual is not None and actual != [] and actual != ""`
abbrev pub has_content : Value → Bool
has_content null = false
has_content (list []) = false
has_content v = not (value_eq v (scalar (str "")))

abbrev pub is_null : Value → Bool
is_null null = true
is_null _ = false

abbrev pub all_equal : Value → List Scalar → Bool
all_equal value [] = true
all_equal value (x ∷ xs) = value_eq (scalar x) value && all_equal value xs

abbrev pub non_empty : List Scalar → Bool
non_empty [] = false
non_empty (x ∷ xs) = true

-- `len(actual) if equals is None else sum(1 for x in actual if x == equals)`
unfoldable pub count_elements : Value → Value → Result Value
unfolding elements
count_elements actual equals = elements actual >>= λ xs. ok (
    scalar (
      int (pos (if is_null equals then length xs else count (λ x. value_eq (scalar x) equals) xs))))

-- The branches of `evaluate_leaf` by operator.
unfoldable pub apply_operator : Operator → Value → Value → Value → Result Bool
unfolding eval_scalar count_elements is_in elements value_eq
apply_operator exists actual value equals = ok (has_content actual)
apply_operator not_exists actual value equals = ok (not (has_content actual))
apply_operator in_list actual value equals = is_in actual value
apply_operator not_in actual value equals = is_in actual value >>= λ b. ok (not b)
apply_operator any_of actual value equals = is_in value actual
apply_operator all_of actual value equals =
    elements actual >>= λ xs. ok (non_empty xs && all_equal value xs)
apply_operator count_eq actual value equals =
    count_elements actual equals >>= λ n. eval_scalar eq n value
apply_operator count_gt actual value equals =
    count_elements actual equals >>= λ n. eval_scalar gt n value
apply_operator count_gte actual value equals =
    count_elements actual equals >>= λ n. eval_scalar gte n value
apply_operator count_lt actual value equals =
    count_elements actual equals >>= λ n. eval_scalar lt n value
apply_operator count_lte actual value equals =
    count_elements actual equals >>= λ n. eval_scalar lte n value
apply_operator op actual value equals = eval_scalar op actual value

abbrev pub apply_known : Option Operator → Value → Value → Value → Result Bool
apply_known none actual value equals = raised assertion
apply_known (some op) actual value equals = apply_operator op actual value equals

unfoldable pub evaluate_metric : Facts → String → Value → Value → Option MetricDef → Result Bool
unfolding apply_operator
evaluate_metric facts operator value equals none = raised unknown_metric
evaluate_metric facts operator value equals (some metric) =
    apply_known (operator_of operator) (metric.resolver facts) value equals

unfoldable pub evaluate_leaf :
    MetricRegistry → Facts → String → String → Value → Value → Result Bool
unfolding evaluate_metric
evaluate_leaf registry facts metric operator value equals =
    evaluate_metric facts operator value equals (get registry metric)

-- `evaluate_condition`, with Python's short circuits in `all` and `any`.
unfoldable mutual
  pub evaluate_condition : MetricRegistry → Facts → Condition → Result Bool
  evaluate_condition registry facts (all_conditions cs) = evaluate_all registry facts cs
  evaluate_condition registry facts (any_condition cs) = evaluate_any registry facts cs
  evaluate_condition registry facts (negation c) =
      evaluate_condition registry facts c >>= λ b. ok (not b)
  evaluate_condition registry facts (leaf metric operator value equals) =
      evaluate_leaf registry facts metric operator value equals

  pub evaluate_all : MetricRegistry → Facts → Conditions → Result Bool
  evaluate_all registry facts nil = ok true
  evaluate_all registry facts (cons c cs) = evaluate_condition registry facts c >>= λ b.
      if b then evaluate_all registry facts cs else ok false

  pub evaluate_any : MetricRegistry → Facts → Conditions → Result Bool
  evaluate_any registry facts nil = ok false
  evaluate_any registry facts (cons c cs) = evaluate_condition registry facts c >>= λ b.
      if b then ok true else evaluate_any registry facts cs
