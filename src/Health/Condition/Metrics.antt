-- ===== src/Health/Condition/Metrics.antt =====
-- The metrics that a condition names: all are known once it is checked, and they are all that its
-- evaluation reads.
use server_scan.Prelude.{
  String, true, Option, none, some, is_some, List, [], ◌∷◌, ◌++◌, ◌≡◌, refl, ap, All, All-append,
  arith,
}
use server_scan.Health.Values.{Value}
use server_scan.Health.Metrics.{MetricDef, MetricRegistry, Facts, get, operator_of}
use server_scan.Health.Condition.{
  Condition, Conditions, all_conditions, any_condition, negation, leaf, nil, cons, leaf_metrics,
  leaves_metrics, valid, validate_condition, validate_children, validate_leaf,
}
use server_scan.Health.Condition.Evaluate.{
  evaluate_condition, evaluate_all, evaluate_any, evaluate_leaf, evaluate_metric, apply_known,
}

module _ (registry : MetricRegistry) where
  abbrev pub IsKnown : String → Type 0
  IsKnown name = is_some (get registry name) ≡ true

  validate_leaf-IsKnown :
      (name operator : String) (value : Value)
      → validate_leaf operator value (get registry name) ≡ valid
      → IsKnown name
  unfolding validate_leaf
  validate_leaf-IsKnown name operator value h = ground arith

  mutual
    unfolding leaf_metrics validate_condition

    valid-All-IsKnown :
        (c : Condition) → validate_condition registry c ≡ valid → All IsKnown (leaf_metrics c)
    valid-All-IsKnown (all_conditions cs) h = children-All-IsKnown cs (ground arith)
    valid-All-IsKnown (any_condition cs) h = children-All-IsKnown cs (ground arith)
    valid-All-IsKnown (negation c) h = valid-All-IsKnown c (ground arith)
    valid-All-IsKnown (leaf m o v e) h = (validate_leaf-IsKnown m o v (ground arith), tt)

    children-All-IsKnown :
        (cs : Conditions) → validate_children registry cs ≡ valid → All IsKnown (leaves_metrics cs)
    children-All-IsKnown nil h = tt
    children-All-IsKnown (cons c cs) h =
        All-append IsKnown (leaf_metrics c) (leaves_metrics cs) (valid-All-IsKnown c (ground arith))
          (children-All-IsKnown cs (ground arith))

  -- A checked condition names only metrics that the registry has.
  pub validate_condition-IsKnown :
      (c : Condition) → validate_condition registry c ≡ valid → All IsKnown (leaf_metrics c)
  validate_condition-IsKnown c h = valid-All-IsKnown c h

-- What a metric reads out of the facts.
abbrev pub reading : Facts → Option MetricDef → Option Value
reading facts none = none
reading facts (some metric) = some (metric.resolver facts)

module _ (registry : MetricRegistry) (facts facts' : Facts) where
  abbrev pub ReadsSame : String → Type 0
  ReadsSame name = reading facts (get registry name) ≡ reading facts' (get registry name)

  evaluate_metric_same :
      (operator : String) (value equals : Value) (metric : Option MetricDef)
      → reading facts metric ≡ reading facts' metric
      → evaluate_metric facts operator value equals metric
        ≡ evaluate_metric facts' operator value equals metric
  unfolding evaluate_metric
  evaluate_metric_same operator value equals none h = refl
  evaluate_metric_same operator value equals (some metric) h =
      let e : metric.resolver facts ≡ metric.resolver facts' = cc in
      ap (λ v. apply_known (operator_of operator) v value equals) e

  evaluate_leaf_same :
      (name operator : String) (value equals : Value)
      → ReadsSame name
      → evaluate_leaf registry facts name operator value equals
        ≡ evaluate_leaf registry facts' name operator value equals
  unfolding evaluate_leaf
  evaluate_leaf_same name operator value equals h =
      evaluate_metric_same operator value equals (get registry name) h

  All-left : (xs ys : List String) → All ReadsSame (xs ++ ys) → All ReadsSame xs
  All-left [] ys h = tt
  All-left (x ∷ xs) ys (p, h) = (p, All-left xs ys h)

  All-right : (xs ys : List String) → All ReadsSame (xs ++ ys) → All ReadsSame ys
  All-right [] ys h = h
  All-right (x ∷ xs) ys (p, h) = All-right xs ys h

  mutual
    unfolding leaf_metrics evaluate_condition

    evaluate_same :
        (c : Condition)
        → All ReadsSame (leaf_metrics c)
        → evaluate_condition registry facts c ≡ evaluate_condition registry facts' c
    evaluate_same (all_conditions cs) h = evaluate_all_same cs h
    evaluate_same (any_condition cs) h = evaluate_any_same cs h
    evaluate_same (negation c) h = rw (evaluate_same c h)
    evaluate_same (leaf m o v e) (h, _) = evaluate_leaf_same m o v e h

    evaluate_all_same :
        (cs : Conditions)
        → All ReadsSame (leaves_metrics cs)
        → evaluate_all registry facts cs ≡ evaluate_all registry facts' cs
    evaluate_all_same nil h = refl
    evaluate_all_same (cons c cs) h = rw (
      evaluate_same c (All-left (leaf_metrics c) (leaves_metrics cs) h),
      evaluate_all_same cs (All-right (leaf_metrics c) (leaves_metrics cs) h),
    )

    evaluate_any_same :
        (cs : Conditions)
        → All ReadsSame (leaves_metrics cs)
        → evaluate_any registry facts cs ≡ evaluate_any registry facts' cs
    evaluate_any_same nil h = refl
    evaluate_any_same (cons c cs) h = rw (
      evaluate_same c (All-left (leaf_metrics c) (leaves_metrics cs) h),
      evaluate_any_same cs (All-right (leaf_metrics c) (leaves_metrics cs) h),
    )

  -- The evaluation of a condition depends on the facts only through what the metrics read that
  -- the condition names.
  pub evaluate_condition_local :
      (c : Condition)
      → All ReadsSame (leaf_metrics c)
      → evaluate_condition registry facts c ≡ evaluate_condition registry facts' c
  evaluate_condition_local c h = evaluate_same c h
