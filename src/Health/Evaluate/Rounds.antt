-- ===== src/Health/Evaluate/Rounds.antt =====
-- The loop over the winners of `evaluate_health`: what it raises, and when it
-- raises nothing.
use server_scan.Prelude.{
  String, Time, Bool, true, false, List, [], ◌∷◌, ◌≡◌, All, All-filter, str_eq, get_or, dict_get,
  dict_get-set, Bool-cases, inl, inr,
}
use server_scan.Prelude.Order.{on, str_order}
use server_scan.Prelude.Sort.Laws.{sort-All}
use server_scan.Health.Values.{Value, null, Result, Error}
use server_scan.Health.Values.Laws.{NeverRaises, Raises, bind-Raises}
use server_scan.Health.Metrics.{MetricRegistry, Facts, get}
use server_scan.Health.Condition.{validate_condition, valid}
use server_scan.Health.Condition.Evaluate.{evaluate_condition}
use server_scan.Health.Condition.Leaves.{AllLeaves}
use server_scan.Health.Condition.Total.{FitsLeaf}
use server_scan.Health.Policy.{HealthPolicy, EvidenceField}
use server_scan.Health.Template.{Formatter, render_template, coerce}
use server_scan.Health.Template.Parse.{parse}
use server_scan.Health.Template.Laws.{IsComplete, IsPrintable, render_template-NeverRaises}
use server_scan.Health.Evaluate.{
  Dimensions, Families, family_sort_key, applies, resolve_families, Evaluated, evaluate_policy,
  add_winner, evaluate_winners, add_to_group, group_by_key, add_family, resolve_groups, key_order,
  evaluate_health, resolve_metric, collect_evidence, message_of,
}

module _ (formatter : Formatter) (registry : MetricRegistry) (facts : Facts) where
  -- The message of the policy, where it fires.
  abbrev pub message_if_active : HealthPolicy → Result String
  message_if_active p =
      render_template formatter p.message_template (collect_evidence registry facts p.evidence [])

  -- Every metric has a value that `str` and `format` print.
  abbrev pub Prints : Type 0
  Prints = (name : String) → IsPrintable formatter (resolve_metric facts (get registry name))

  collect_evidence-IsPrintable :
      (evs : List EvidenceField) (acc : List (String × Value))
      → Prints
      → ((key : String) → IsPrintable formatter (get_or (dict_get key acc) null))
      → (key : String)
      → IsPrintable formatter (get_or (dict_get key (collect_evidence registry facts evs acc)) null)
  collect_evidence-IsPrintable [] acc prints h = h
  collect_evidence-IsPrintable (ev ∷ evs) acc prints h =
      collect_evidence-IsPrintable evs _ prints (λ key. elim (Bool-cases (str_eq ev.key key)) [
        | inl same ↦
            rw (dict_get-set ev.key key (resolve_metric facts (get registry ev.metric)) acc, same)
              (prints ev.metric)
        | inr other ↦
            rw (dict_get-set ev.key key (resolve_metric facts (get registry ev.metric)) acc, other)
              (h key)
      ])

  -- The message of a policy raises nothing, where its template has no malformed part.
  pub message-NeverRaises :
      (p : HealthPolicy)
      → Prints
      → IsComplete (parse p.message_template)
      → NeverRaises (message_if_active p)
  unfolding coerce
  message-NeverRaises p prints h =
      render_template-NeverRaises formatter _
        (collect_evidence-IsPrintable p.evidence [] prints (λ key spec. tt)) p.message_template h

  -- Only the exceptions of the conditions and of the messages come out.
  module _ (E : Error → Type 0) (Q : HealthPolicy → Type 0)
      (safe : (p : HealthPolicy)
        → Q p
        → Raises E (evaluate_condition registry facts p.condition)
          × Raises E (message_if_active p)) where
    message_of-Raises :
        (p : HealthPolicy) (active : Bool)
        → Q p
        → Raises E (
            message_of formatter p.message_template
              (collect_evidence registry facts p.evidence [])
              active)
    message_of-Raises p true q = bind-Raises E (message_if_active p) _ (safe p q).1 (λ m. tt)
    message_of-Raises p false q = tt

    evaluate_policy-Raises :
        (key : String) (p : HealthPolicy)
        → Q p
        → Raises E (evaluate_policy formatter registry facts key p)
    unfolding evaluate_policy
    evaluate_policy-Raises key p q =
        bind-Raises E (evaluate_condition registry facts p.condition) _ (safe p q).0
          (λ active. bind-Raises E _ _ (message_of-Raises p active q) (λ message. tt))

    add_winner-Raises :
        (key : String) (p : HealthPolicy) (later : Result Evaluated)
        → Q p
        → Raises E later
        → Raises E (add_winner formatter registry facts key p later)
    unfolding evaluate_policy
    add_winner-Raises key p later q h = elim (Bool-cases p.enabled) [
      | inr off ↦ rw off h
      | inl on ↦ elim (Bool-cases (str_eq p.mode "SUPPRESS")) [
        | inl suppress ↦ rw (on, suppress) (bind-Raises E later _ h (λ e. tt))
        | inr keep ↦
            rw (on, keep)
              (bind-Raises E (evaluate_policy formatter registry facts key p) _
                (evaluate_policy-Raises key p q) (λ e. bind-Raises E later _ h (λ e'. tt)))
      ]
    ]

    evaluate_winners-Raises :
        (ws : List (String × HealthPolicy))
        → All (λ w. Q w.1) ws
        → Raises E (evaluate_winners formatter registry facts ws)
    unfolding evaluate_winners
    evaluate_winners-Raises [] h = tt
    evaluate_winners-Raises ((key, p) ∷ ws) (q, h) =
        add_winner-Raises key p _ q (evaluate_winners-Raises ws h)

module _ (P : HealthPolicy → Type 0) where
  group-All : (ps : List HealthPolicy) → All P ps → All (λ h. All P h.1) (group_by_key ps)
  unfolding group_by_key
  group-All [] h = tt
  group-All (p ∷ ps) (q, h) = add (group_by_key ps) (group-All ps h)
    where
      add :
          (gs : List (String × List HealthPolicy))
          → All (λ h. All P h.1) gs
          → All (λ h. All P h.1) (add_to_group p gs)
      add [] a = ((q, tt), tt)
      add ((k, g) ∷ gs) (a, b) = elim (Bool-cases (str_eq k p.policy_key)) [
        | inl e ↦ rw e ((q, a), b)
        | inr e ↦ rw e ((q, tt), (a, b))
      ]

  add_family-All :
      (k : String) (g : List HealthPolicy) (later : Families)
      → All P g
      → All (λ w. P w.1) later.winners
      → All (λ w. P w.1) (add_family k g later).winners
  add_family-All k [] later a h = h
  add_family-All k (p ∷ g) later (q, a) h = (q, h)

  resolve_groups-All :
      (gs : List (String × List HealthPolicy))
      → All (λ h. All P h.1) gs
      → All (λ w. P w.1) (resolve_groups gs).winners
  resolve_groups-All [] h = tt
  resolve_groups-All ((k, g) ∷ gs) (a, h) =
      add_family-All k _ _ (sort-All family_sort_key P g a) (resolve_groups-All gs h)

  -- What holds of every policy holds of every winner.
  winners-All :
      (ps : List HealthPolicy) (d : Dimensions)
      → All P ps
      → All (λ w. P w.1) (resolve_families ps d).winners
  unfolding resolve_families
  winners-All ps d h =
      resolve_groups-All _ (group-All _ (sort-All key_order P _ (All-filter P (applies d) ps h)))

-- A policy that raises nothing: its condition passes the check, its leaves compare with values that
-- their operators can use, and its template has no malformed part.
abbrev pub IsSafe : MetricRegistry → HealthPolicy → Type 0
IsSafe registry p =
    (validate_condition registry p.condition ≡ valid)
    × AllLeaves FitsLeaf p.condition
    × IsComplete (parse p.message_template)

module _ (now : Time) (formatter : Formatter) (facts : Facts) (policies : List HealthPolicy)
    (registry : MetricRegistry) (d : Dimensions) where
  -- What the conditions and the messages of all policies raise bounds what the evaluation of a server
  -- raises.
  pub evaluate_health-Raises :
      (E : Error → Type 0) (Q : HealthPolicy → Type 0)
      → ((p : HealthPolicy)
          → Q p
          → Raises E (evaluate_condition registry facts p.condition)
            × Raises E (message_if_active formatter registry facts p))
      → All Q policies
      → Raises E (evaluate_health now formatter facts policies registry d)
  unfolding evaluate_health
  evaluate_health-Raises E Q safe h =
      bind-Raises E _ _
        (evaluate_winners-Raises formatter registry facts E Q safe _
          (sort-All (on (λ w. w.0) str_order) _ _ (winners-All Q policies d h)))
        (λ e. tt)
