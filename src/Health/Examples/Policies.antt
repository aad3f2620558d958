-- ===== src/Health/Examples/Policies.antt =====
-- Runs of the resolution, the evaluation and the check of policies.
use mathlib.Core.List.{Permᴰ}
use server_scan.Prelude.{
  ◌≤◌, String, true, false, some, List, [], ◌∷◌, All, ◌≡◌, ◌↔◌, refl, str_leb, dict_get,
  ne_of_str_eq, arith,
}
use server_scan.Prelude.Sort.{insert, sort}
use server_scan.Enums.{health_severity_rank, unknown}
use server_scan.Health.Values.{ok, raised, value_error, order_values}
use server_scan.Health.Metrics.{get, get_fact, operator_of, allows}
use server_scan.Health.Condition.{
  validate_condition, validate_leaf, validate_operator, check_size, depth, node_count,
}
use server_scan.Health.Condition.Evaluate.{
  evaluate_condition, evaluate_leaf, evaluate_metric, apply_operator,
}
use server_scan.Health.Policy.{HealthPolicy, specificity, matches}
use server_scan.Health.Template.{
  validate_template, check_tokens, check_field, coerce_scalar, coerce, render_tokens,
  render_template,
}
use server_scan.Health.Template.Parse.{parse, parse_from}
use server_scan.Health.Evaluate.{
  Evaluated, applies, resolve_families, evaluate_winners, evaluate_health, health_state,
  group_by_key, evaluation_of, collect_evidence, evaluate_policy,
}
use server_scan.Health.Evaluate.Index.{HasDistinctIds, evaluate_health_order_independent}
use server_scan.Health.Evaluate.Resolution.{IsWinner, resolve_families-IsWinner}
use server_scan.Health.Evaluate.Rollup.{is_known, overall_le_iff}
use server_scan.Health.Evaluate.Unknown.{overall_unknown_iff}
use server_scan.Health.Write.{value_error_escaped, validate_policy_write}
use server_scan.Health.Defaults.{
  fabric_warning, fabric_critical, os_disk_major, os_disk_critical, large_storage_data_warning,
  large_storage_data_critical, data_disk_warning, all_links_down, single_link_up,
}
use server_scan.Health.Defaults.Laws.{Fires, default_system_policies_exclusive}
use server_scan.Health.Facts.{extract_facts}
use server_scan.Health.Examples.{
  registry, id_of, psu, dimm, site_psu, policies, dimensions, formatter, server, lower, facts,
}

distinct_ids : HasDistinctIds policies
distinct_ids =
    ((ne_of_str_eq _ _ refl, (ne_of_str_eq _ _ refl, tt)), ((ne_of_str_eq _ _ refl, tt), (tt, tt)))

evaluate_health_order_independent_example :
    evaluate_health 7 formatter facts policies registry dimensions
    ≡ evaluate_health 7 formatter facts (dimm ∷ psu ∷ site_psu ∷ []) registry dimensions
evaluate_health_order_independent_example =
    evaluate_health_order_independent 7 formatter facts registry dimensions (Permᴰ.swap refl refl)
      distinct_ids

site_wins :
    dict_get "power.failed_psu" (resolve_families policies dimensions).winners ≡ some site_psu
unfolding resolve_families applies matches specificity sort insert group_by_key str_leb
site_wins = refl

resolve_families-IsWinner_example : IsWinner policies dimensions "power.failed_psu" site_psu
resolve_families-IsWinner_example =
    resolve_families-IsWinner policies dimensions "power.failed_psu" site_wins

abbrev winners : List (String × HealthPolicy)
winners =
    ("memory.degraded_dimm", record dimm { mode = "SUPPRESS" })
    ∷ ("power.off", record psu { enabled = false })
    ∷ ("power.failed_psu", psu)
    ∷ []

abbrev outcome : Evaluated
outcome = record {
  evaluations =
      evaluation_of psu "power.failed_psu" true (collect_evidence registry facts psu.evidence [])
        (some "1 of 1 power supplies failed")
      ∷ [];
  suppressed =
      record {
        policy_id = "dimm";
        policy_key = "memory.degraded_dimm";
        policy_name = "Memory module degraded";
      }
      ∷ [];
}

winners_evaluated : evaluate_winners formatter registry facts winners ≡ ok outcome
unfolding evaluate_winners evaluate_policy evaluate_condition evaluate_leaf evaluate_metric
    apply_operator get get_fact extract_facts operator_of order_values render_template render_tokens
    coerce coerce_scalar parse parse_from
winners_evaluated = refl

overall_le_iff_example :
    (health_severity_rank (health_state 7 (resolve_families policies dimensions) outcome).overall
      ≤ 2)
    ↔ All
        (λ e. is_known e ≡ true → e.active ≡ true → health_severity_rank e.severity ≤ 2)
        outcome.evaluations
overall_le_iff_example =
    overall_le_iff 7 (resolve_families policies dimensions) outcome (omega arith)

overall_unknown_iff_example :
    ((health_state 7 (resolve_families policies dimensions) outcome).overall ≡ unknown)
    ↔ All (λ e. is_known e ≡ false) outcome.evaluations
overall_unknown_iff_example =
    overall_unknown_iff 7 (resolve_families policies dimensions) outcome (λ _ h. cc h, tt)

-- A template with a single brace: the check lets Python's `ValueError` out.
malformed_template :
    (validate_policy_write formatter registry (record psu { message_template = "{bad of {total}" })
      ≡ value_error_escaped)
    × (render_template formatter "{bad of {total}" [] ≡ raised value_error)
    × (render_template formatter "{{{x!r:>{w}}}} {a[}].b}" [] ≡ ok "{?} ?")
unfolding validate_policy_write validate_template check_tokens check_field validate_condition
    validate_leaf validate_operator check_size depth node_count get operator_of allows parse
    parse_from render_template render_tokens coerce
malformed_template = (refl, refl, refl)

default_system_policies_exclusive_example :
    (¬ (
      Fires 7 id_of lower server (fabric_warning 7 id_of)
      × Fires 7 id_of lower server (fabric_critical 7 id_of)))
    × (¬ (
        Fires 7 id_of lower server (os_disk_major 7 id_of)
        × Fires 7 id_of lower server (os_disk_critical 7 id_of)))
    × (¬ (
        Fires 7 id_of lower server (large_storage_data_warning 7 id_of)
        × Fires 7 id_of lower server (large_storage_data_critical 7 id_of)))
    × (¬ (
        Fires 7 id_of lower server (large_storage_data_warning 7 id_of)
        × Fires 7 id_of lower server (data_disk_warning 7 id_of)))
    × (¬ (
        Fires 7 id_of lower server (large_storage_data_critical 7 id_of)
        × Fires 7 id_of lower server (data_disk_warning 7 id_of)))
    × (¬ (
        Fires 7 id_of lower server (all_links_down 7 id_of)
        × Fires 7 id_of lower server (single_link_up 7 id_of)))
default_system_policies_exclusive_example = default_system_policies_exclusive 7 id_of lower server

-- The policies of a site and of every server that an operator may write.
abbrev site_policy : HealthPolicy
site_policy = record site_psu {
  message_template = "{bad}";
  evidence = record { key = "bad"; metric = "power.psu_count" } ∷ [];
}
