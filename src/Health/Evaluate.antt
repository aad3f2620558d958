-- ===== src/Health/Evaluate.antt =====
-- domain/services/health/evaluate.py: the winner of each family of policies, the evaluation of the
-- winners and the roll-up into categories and an overall severity.
pub mod Put
pub mod Index
pub mod Groups
pub mod Resolution
pub mod Fates
pub mod Rollup
pub mod Unknown
pub mod Rounds
use server_scan.Prelude.{
  ℕ, ◌<◌, ◌+◌, String, Time, Bool, true, false, not, ◌&&◌, Option, none, some, List, [], ◌∷◌, ◌++◌,
  map, filter, length, str_eq, ltb, dict_set, if◌then◌else◌,
}
use server_scan.Prelude.Order.{Order, int_order, nat_order, str_order, desc, on, then_by}
use server_scan.Prelude.Sort.{sort}
use server_scan.Enums.{HealthSeverity, unknown, healthy, health_severity_rank}
use server_scan.Health.Values.{Value, null, Result, ok, raised, ◌>>=◌}
use server_scan.Health.Metrics.{MetricDef, MetricRegistry, Facts, get}
use server_scan.Health.Condition.Evaluate.{evaluate_condition}
use server_scan.Health.Policy.{HealthPolicy, EvidenceField, specificity, matches}
use server_scan.Health.Template.{Formatter, render_template}

pub record Evaluation : Type 0 where
  pub policy_id : String
  pub policy_key : String
  pub policy_name : String
  pub category : String
  pub severity : HealthSeverity
  pub active : Bool
  pub message : Option String
  pub evidence : List (String × Value)

pub record ShadowedEntry : Type 0 where
  pub policy_id : String
  pub policy_key : String
  pub shadowed_by : String

pub record SuppressedEntry : Type 0 where
  pub policy_id : String
  pub policy_key : String
  pub policy_name : String

pub record CategoryHealth : Type 0 where
  pub severity : HealthSeverity
  pub active_count : ℕ
  pub evaluated_count : ℕ

pub record HealthState : Type 0 where
  pub overall : HealthSeverity
  pub categories : List (String × CategoryHealth)
  pub evaluations : List Evaluation
  pub shadowed : List ShadowedEntry
  pub suppressed : List SuppressedEntry
  pub engine_version : ℕ
  pub evaluated_at : Time

abbrev pub categories : List String
categories = "cpu" ∷ "memory" ∷ "storage" ∷ "network" ∷ "connectivity" ∷ "power" ∷ "gpu" ∷ []

-- The server's dimensions that a scope is matched against.
pub record Dimensions : Type 0 where
  pub vendor : String
  pub manager_type : Option String
  pub site_id : Option String

-- `_family_sort_key`: specificity and priority descending, id ascending.
abbrev pub family_sort_key : Order HealthPolicy
family_sort_key =
    then_by (on (λ p. specificity p.scope) (desc nat_order))
      (then_by (on (λ p. p.priority) (desc int_order)) (on (λ p. p.id) str_order))

abbrev pub key_order : Order HealthPolicy
key_order = on (λ p. p.policy_key) str_order

unfoldable pub applies : Dimensions → HealthPolicy → Bool
applies d p = matches p.scope d.vendor d.manager_type d.site_id

-- `groupby`: neighbours with one key form a group.
abbrev pub add_to_group :
    HealthPolicy → List (String × List HealthPolicy) → List (String × List HealthPolicy)
add_to_group p [] = (p.policy_key, p ∷ []) ∷ []
add_to_group p ((k, g) ∷ gs) =
    if str_eq k p.policy_key then (k, p ∷ g) ∷ gs else (p.policy_key, p ∷ []) ∷ (k, g) ∷ gs

unfoldable pub group_by_key : List HealthPolicy → List (String × List HealthPolicy)
group_by_key [] = []
group_by_key (p ∷ ps) = add_to_group p (group_by_key ps)

pub record Families : Type 0 where
  pub winners : List (String × HealthPolicy)
  pub shadowed : List ShadowedEntry

abbrev pub shadowed_entry : String → HealthPolicy → HealthPolicy → ShadowedEntry
shadowed_entry key head p = record { policy_id = p.id; policy_key = key; shadowed_by = head.id }

-- The head of a sorted family wins and shadows the rest; no group is empty.
abbrev pub add_family : String → List HealthPolicy → Families → Families
add_family key [] later = later
add_family key (head ∷ rest) later = record {
  winners = (key, head) ∷ later.winners;
  shadowed = map (shadowed_entry key head) rest ++ later.shadowed;
}

abbrev pub no_families : Families
no_families = record { winners = []; shadowed = [] }

abbrev pub resolve_groups : List (String × List HealthPolicy) → Families
resolve_groups [] = no_families
resolve_groups ((key, group) ∷ groups) =
    add_family key (sort family_sort_key group) (resolve_groups groups)

unfoldable pub resolve_families : List HealthPolicy → Dimensions → Families
unfolding group_by_key
resolve_families policies d =
    resolve_groups (group_by_key (sort key_order (filter (applies d) policies)))

-- `metric.resolver(facts) if metric is not None else None`
abbrev pub resolve_metric : Facts → Option MetricDef → Value
resolve_metric facts none = null
resolve_metric facts (some metric) = metric.resolver facts

abbrev pub collect_evidence :
    MetricRegistry → Facts → List EvidenceField → List (String × Value) → List (String × Value)
collect_evidence registry facts [] evidence = evidence
collect_evidence registry facts (ev ∷ evs) evidence =
    collect_evidence registry facts evs
      (dict_set ev.key (resolve_metric facts (get registry ev.metric)) evidence)

pub record Evaluated : Type 0 where
  pub evaluations : List Evaluation
  pub suppressed : List SuppressedEntry

abbrev pub evaluation_of :
    HealthPolicy → String → Bool → List (String × Value) → Option String → Evaluation
evaluation_of policy key active evidence message = record {
  policy_id = policy.id;
  policy_key = key;
  policy_name = policy.name;
  category = policy.category;
  severity = if active then policy.severity else healthy;
  active = active;
  message = message;
  evidence = evidence;
}

-- `render_template(policy.message_template, evidence) if active else None`
abbrev pub message_of : Formatter → String → List (String × Value) → Bool → Result (Option String)
message_of formatter template evidence true =
    render_template formatter template evidence >>= λ m. ok (some m)
message_of formatter template evidence false = ok none

abbrev pub suppressed_entry : String → HealthPolicy → SuppressedEntry
suppressed_entry key policy = record {
  policy_id = policy.id;
  policy_key = key;
  policy_name = policy.name;
}

module _ (formatter : Formatter) (registry : MetricRegistry) (facts : Facts) where
  unfoldable pub evaluate_policy : String → HealthPolicy → Result Evaluation
  evaluate_policy key policy = evaluate_condition registry facts policy.condition >>= λ active.
      let evidence = collect_evidence registry facts policy.evidence [] in
      message_of formatter policy.message_template evidence active >>= λ message.
      ok (evaluation_of policy key active evidence message)

  -- One round of the loop over the winners, in front of the later rounds.
  abbrev pub add_winner : String → HealthPolicy → Result Evaluated → Result Evaluated
  add_winner key policy later =
      if not policy.enabled
      then later
      else if str_eq policy.mode "SUPPRESS"
      then (later >>= λ e.
          ok (record e { suppressed = suppressed_entry key policy ∷ e.suppressed }))
      else evaluate_policy key policy >>= λ evaluation.
          later >>= λ e. ok (record e { evaluations = evaluation ∷ e.evaluations })

  unfoldable pub evaluate_winners : List (String × HealthPolicy) → Result Evaluated
  unfolding evaluate_policy
  evaluate_winners [] = ok (record { evaluations = []; suppressed = [] })
  evaluate_winners ((key, policy) ∷ winners) = add_winner key policy (evaluate_winners winners)

-- `max(…, key=rank)`, from a first element on: the first of the greatest.
abbrev pub worst : HealthSeverity → List HealthSeverity → HealthSeverity
worst s [] = s
worst s (t ∷ ts) = worst (if ltb (health_severity_rank s) (health_severity_rank t) then t else s) ts

abbrev pub category_severity : List Evaluation → List Evaluation → HealthSeverity
category_severity cat_evals (e ∷ es) = worst e.severity (map (λ e'. e'.severity) es)
category_severity [] [] = unknown
category_severity (_ ∷ _) [] = healthy

unfoldable pub category_health : List Evaluation → String → CategoryHealth
category_health evaluations cat =
    let cat_evals = filter (λ e. str_eq e.category cat) evaluations in
    let active_evals = filter (λ e. e.active) cat_evals in
    record {
      severity = category_severity cat_evals active_evals;
      active_count = length active_evals;
      evaluated_count = length cat_evals;
    }

abbrev pub roll_up : List Evaluation → List String → List (String × CategoryHealth)
roll_up evaluations [] = []
roll_up evaluations (cat ∷ cats) = (cat, category_health evaluations cat) ∷ roll_up evaluations cats

abbrev pub overall_of : List (String × CategoryHealth) → HealthSeverity
overall_of [] = unknown
overall_of ((_, c) ∷ cs) = worst c.severity (map (λ p. p.1.severity) cs)

unfoldable pub health_state : Time → Families → Evaluated → HealthState
health_state now families evaluated =
    let rolled = roll_up evaluated.evaluations categories in
    record {
      overall = overall_of rolled;
      categories = rolled;
      evaluations = evaluated.evaluations;
      shadowed = families.shadowed;
      suppressed = evaluated.suppressed;
      engine_version = 1;
      evaluated_at = now;
    }

unfoldable pub evaluate_health :
    Time → Formatter → Facts → List HealthPolicy → MetricRegistry → Dimensions → Result HealthState
evaluate_health now formatter facts policies registry d =
    let families = resolve_families policies d in
    evaluate_winners formatter registry facts (sort (on (λ w. w.0) str_order) families.winners)
    >>= λ evaluated. ok (health_state now families evaluated)
