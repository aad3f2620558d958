-- ===== src/Health/Condition/Logic.antt =====
-- The laws of the connectives, exceptions and short circuits included.
use server_scan.Prelude.{not, ◌≡◌, refl, arith}
use server_scan.Health.Values.{ok, ◌>>=◌}
use server_scan.Health.Metrics.{MetricRegistry, Facts}
use server_scan.Health.Condition.{Conditions, all_conditions, any_condition, negation, nil, cons}
use server_scan.Health.Condition.Evaluate.{evaluate_condition, evaluate_all, evaluate_any}

-- Each condition of a list negated.
abbrev pub negate_each : Conditions → Conditions
negate_each nil = nil
negate_each (cons c cs) = cons (negation c) (negate_each cs)

module _ (registry : MetricRegistry) (facts : Facts) where
  not_all :
      (cs : Conditions)
      → (evaluate_all registry facts cs >>= λ b. ok (not b))
        ≡ evaluate_any registry facts (negate_each cs)
  unfolding evaluate_condition
  not_all nil = refl
  not_all (cons c cs) = ground (arith, not_all cs)

  not_any :
      (cs : Conditions)
      → (evaluate_any registry facts cs >>= λ b. ok (not b))
        ≡ evaluate_all registry facts (negate_each cs)
  unfolding evaluate_condition
  not_any nil = refl
  not_any (cons c cs) = ground (arith, not_any cs)

  -- De Morgan's laws: a negated `all_of` evaluates as `any_of` of the negated conditions, a negated
  -- `any_of` as `all_of` of them, with the same exceptions.
  pub evaluate_de_morgan :
      (cs : Conditions)
      → (evaluate_condition registry facts (negation (all_conditions cs))
          ≡ evaluate_condition registry facts (any_condition (negate_each cs)))
        × (evaluate_condition registry facts (negation (any_condition cs))
            ≡ evaluate_condition registry facts (all_conditions (negate_each cs)))
  unfolding evaluate_condition
  evaluate_de_morgan cs = (not_all cs, not_any cs)
