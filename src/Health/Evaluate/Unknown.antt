-- ===== src/Health/Evaluate/Unknown.antt =====
-- When the roll-up of `evaluate_health` says that nothing is known of a server.
use mathlib.Core.List.{Memᴰ}
use server_scan.Prelude.{
  ◌≤◌, String, Time, true, false, List, [], ◌∷◌, map, filter, any, ◌≡◌, ◌≢◌, ◌↔◌, refl, sym, subst,
  All, All-map, All-Memᴰ, All-at, All-of_filter, All-to_filter, str_eq, eq_iff, arith, Bool-cases,
  inl, inr,
}
use server_scan.Enums.{HealthSeverity, unknown}
use server_scan.Health.Evaluate.{
  Evaluation, Families, Evaluated, worst, category_severity, category_health, health_state,
  categories,
}
use server_scan.Health.Evaluate.Rollup.{
  rank, is_of, is_known, worst_bound, overall_of-bounds, overall_of-le, any-at,
}

unknown_of_rank : (s : HealthSeverity) → rank s ≤ 0 → s ≡ unknown
unknown_of_rank s h = ground arith

worst_unknown : (s : HealthSeverity) (ts : List HealthSeverity) → worst s ts ≡ unknown → s ≡ unknown
worst_unknown s ts h = ground (arith, worst_bound s ts)

category_unknown :
    (cat active : List Evaluation)
    → All (λ e. e.severity ≢ unknown) active
    → category_severity cat active ≡ unknown
    → cat ≡ []
category_unknown [] [] a h = refl
category_unknown (_ ∷ _) [] a h = cc h
category_unknown cat (e ∷ es) (p, a) h =
    absurd (p (worst_unknown e.severity (map (λ e'. e'.severity) es) h))

nothing_of_All : (es : List Evaluation) → All (λ _. ⊥) es → es ≡ []
nothing_of_All [] a = refl
nothing_of_All (e ∷ es) (a, _) = absurd a

module _ (es : List Evaluation) where
  -- A category is unknown exactly where none of the evaluations is in it.
  category_health_unknown :
      (cat : String)
      → All (λ e. e.active ≡ true → e.severity ≢ unknown) es
      → rank (category_health es cat).severity ≤ 0
      → All (λ e. is_of cat e ≡ true → ⊥) es
  unfolding category_health
  category_health_unknown cat known h =
      let cat_evals = filter (is_of cat) es in
      let active : All (λ e. e.severity ≢ unknown) (filter (λ e. e.active) cat_evals) =
        All-to_filter _ (λ e. e.active) cat_evals
          (All-to_filter _ (is_of cat) es (All-map _ es (λ e k _ a. k a) known)) in
      let empty =
        category_unknown cat_evals (filter (λ e. e.active) cat_evals) active
          (unknown_of_rank _ h) in
      All-of_filter (λ _. ⊥) (is_of cat) es (subst (All (λ _. ⊥)) (sym empty) tt)

  unknown_category :
      (cat : String)
      → All (λ e. is_of cat e ≡ true → ⊥) es
      → rank (category_health es cat).severity ≤ 0
  unfolding category_health
  unknown_category cat h =
      let empty =
        nothing_of_All (filter (is_of cat) es) (All-to_filter (λ _. ⊥) (is_of cat) es h) in
      rw empty (omega arith)

categories_known : All (λ cat. any (λ c. str_eq cat c) categories ≡ true) categories
categories_known = (refl, (refl, (refl, (refl, (refl, (refl, (refl, tt)))))))

-- Where no active evaluation is itself unknown, the overall severity is unknown exactly when no
-- evaluation is in one of the seven categories.
pub overall_unknown_iff :
    (now : Time) (families : Families) (evaluated : Evaluated)
    → All (λ e. e.active ≡ true → e.severity ≢ unknown) evaluated.evaluations
    → ((health_state now families evaluated).overall ≡ unknown)
      ↔ All (λ e. is_known e ≡ false) evaluated.evaluations
unfolding health_state
overall_unknown_iff now families evaluated known = (
  λ h.
      let bounds = overall_of-bounds es categories (zero_of _ h) in
      All-map _ es (λ e m. outside bounds e m) (All-Memᴰ es),
  λ a. unknown_of_rank _ (
      overall_of-le es categories (
        All-map _ categories
          (λ cat here. unknown_category es cat (All-map _ es (λ e out i. apart cat here e out i) a))
          categories_known)),
)
  where
    es : List Evaluation
    es = evaluated.evaluations

    zero_of : (s : HealthSeverity) → s ≡ unknown → rank s ≤ 0
    zero_of s h = rw h (omega arith)

    apart :
        (cat : String)
        → any (λ c. str_eq cat c) categories ≡ true
        → (e : Evaluation) → is_known e ≡ false
        → is_of cat e ≡ true
        → ⊥
    apart cat here e out i =
        let same = (eq_iff e.category cat).0 i in
        let inside = subst (λ k. any (λ c. str_eq k c) categories ≡ true) (sym same) here in
        cc (out, inside)

    outside :
        All (λ cat. rank (category_health es cat).severity ≤ 0) categories
        → (e : Evaluation) → Memᴰ e es
        → is_known e ≡ false
    outside bounds e m = elim (Bool-cases (is_known e)) [
      | inr out ↦ out
      | inl inside ↦
          let bound =
            any-at (λ cat. rank (category_health es cat).severity ≤ 0) e.category categories inside
              bounds in
          absurd (
            All-at _ m (category_health_unknown es e.category known bound)
              ((eq_iff e.category e.category).1 refl))
    ]
