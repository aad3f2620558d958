-- ===== src/Health/Examples/Conditions.antt =====
-- Runs of the check and the evaluation of conditions and of templates.
use server_scan.Prelude.{pos, true, [], ◌∷◌, ◌≡◌, refl}
use server_scan.Health.Values.{null, scalar, int, bool, raised, type_error}
use server_scan.Health.Values.Laws.{OnlyTypeErrors, NeverRaises}
use server_scan.Health.Metrics.{Facts, get, operator_of, allows}
use server_scan.Health.Condition.{
  Condition, Conditions, all_conditions, any_condition, negation, leaf, nil, cons, valid,
  validate_condition, validate_leaf, validate_operator, check_size, depth, node_count,
}
use server_scan.Health.Condition.Evaluate.{evaluate_condition}
use server_scan.Health.Condition.Safety.{validated-OnlyTypeErrors}
use server_scan.Health.Condition.Total.{validated-NeverRaises, in_without_list}
use server_scan.Health.Condition.Logic.{evaluate_de_morgan, negate_each}
use server_scan.Health.Template.{passed, check_tokens, check_field, validate_template}
use server_scan.Health.Template.Parse.{parse, parse_from}
use server_scan.Health.Facts.Laws.{extract_facts-Conforms}
use server_scan.Health.Examples.{registry, formatter, facts, lower, server}

-- `NOT (server.name_has_10tb = true AND storage.data_bad_disk_count > 1)`
abbrev condition : Condition
condition = negation (
    all_conditions (
      cons (leaf "server.name_has_10tb" "EQ" (scalar (bool true)) null)
        (cons (leaf "storage.data_bad_disk_count" "GT" (scalar (int (pos 1))) null) nil)))

condition_valid : validate_condition registry condition ≡ valid
unfolding validate_condition validate_leaf validate_operator check_size depth node_count get
    operator_of allows
condition_valid = refl

abbrev other_facts : Facts
other_facts = ("gpu.count", null) ∷ facts

validated-OnlyTypeErrors_example : OnlyTypeErrors (evaluate_condition registry [] condition)
validated-OnlyTypeErrors_example = validated-OnlyTypeErrors registry [] condition condition_valid

validated-NeverRaises_example : NeverRaises (evaluate_condition registry facts condition)
unfolding operator_of
validated-NeverRaises_example =
    validated-NeverRaises registry facts (extract_facts-Conforms lower server) condition
      condition_valid (refl, (refl, tt))

in_without_list_example :
    (validate_condition registry (leaf "gpu.count" "IN" (scalar (int (pos 1))) null) ≡ valid)
    × (evaluate_condition registry facts (leaf "gpu.count" "IN" (scalar (int (pos 1))) null)
        ≡ raised type_error)
unfolding get
in_without_list_example = in_without_list registry facts "gpu.count" (pos 1) refl refl

abbrev children : Conditions
children =
    cons (leaf "gpu.count" "GTE" (scalar (int (pos 1))) null)
      (cons (leaf "no.such_metric" "EQ" null null) nil)

evaluate_de_morgan_example :
    (evaluate_condition registry facts (negation (all_conditions children))
      ≡ evaluate_condition registry facts (any_condition (negate_each children)))
    × (evaluate_condition registry facts (negation (any_condition children))
        ≡ evaluate_condition registry facts (all_conditions (negate_each children)))
evaluate_de_morgan_example = evaluate_de_morgan registry facts children

template_passed : validate_template formatter "{bad}" ("bad" ∷ "total" ∷ []) ≡ passed
unfolding validate_template check_tokens check_field parse parse_from
template_passed = refl
