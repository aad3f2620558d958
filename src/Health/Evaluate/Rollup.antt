-- ===== src/Health/Evaluate/Rollup.antt =====
-- The roll-up: categories and the overall severity against the evaluations that they sum up.
use mathlib.Core.List.{Memᴰ}
use server_scan.Prelude.{
  ℕ, ◌≤◌, String, Time, Bool, true, List, [], ◌∷◌, map, filter, ◌≡◌, ◌↔◌, refl, sym, subst, All,
  All-map, All-Memᴰ, All-at, All-of_filter, All-to_filter, any, str_eq, eq_iff, ltb, arith,
  Bool-cases, inl, inr,
}
use server_scan.Enums.{HealthSeverity, health_severity_rank}
use server_scan.Health.Evaluate.{
  Evaluation, Families, Evaluated, worst, category_severity, category_health, roll_up, overall_of,
  health_state, categories,
}

abbrev pub rank : HealthSeverity → ℕ
rank s = health_severity_rank s

rank_inj : (s t : HealthSeverity) → rank s ≡ rank t → s ≡ t
rank_inj s t h = ground arith

-- The worst of the severities bounds each of them and is one of them.
pub worst_bound : (s : HealthSeverity) (ts : List HealthSeverity) → rank s ≤ rank (worst s ts)
worst_bound s [] = omega arith
worst_bound s (t ∷ ts) = ground (arith, worst_bound t ts, worst_bound s ts)

worst_bounds :
    (s : HealthSeverity) (ts : List HealthSeverity) {n : ℕ}
    → rank (worst s ts) ≤ n
    → All (λ t. rank t ≤ n) ts
worst_bounds s [] h = tt
worst_bounds s (t ∷ ts) h = elim (Bool-cases (ltb (rank s) (rank t))) [
  | inl e ↦ let k = rw e at h in (omega (arith, worst_bound t ts), worst_bounds t ts k)
  | inr e ↦ let k = rw e at h in (ground (arith, worst_bound s ts), worst_bounds s ts k)
]

worst_among : (s : HealthSeverity) (ts : List HealthSeverity) → Memᴰ (worst s ts) (s ∷ ts)
worst_among s [] = Memᴰ.head refl
worst_among s (t ∷ ts) = elim (Bool-cases (ltb (rank s) (rank t))) [
  | inl h ↦ rw h (Memᴰ.tail (worst_among t ts))
  | inr h ↦ rw h (later (worst_among s ts))
]
  where
    later : {u : HealthSeverity} → Memᴰ u (s ∷ ts) → Memᴰ u (s ∷ t ∷ ts)
    later (Memᴰ.head e) = Memᴰ.head e
    later (Memᴰ.tail m) = Memᴰ.tail (Memᴰ.tail m)

map-All :
    (P : ℕ → Type 0) (es : List Evaluation)
    → All (λ t. P (rank t)) (map (λ e. e.severity) es)
    → All (λ e. P (rank e.severity)) es
map-All P [] h = tt
map-All P (e ∷ es) (p, h) = (p, map-All P es h)

category_severity_bounds :
    (cat active : List Evaluation)
    → All (λ e. rank e.severity ≤ rank (category_severity cat active)) active
category_severity_bounds cat [] = tt
category_severity_bounds cat (e ∷ es) = (
  worst_bound e.severity (map (λ e'. e'.severity) es),
  map-All (λ n. n ≤ rank (category_severity cat (e ∷ es))) es
      (worst_bounds e.severity (map (λ e'. e'.severity) es) (omega arith)),
)

abbrev pub is_of : String → Evaluation → Bool
is_of cat e = str_eq e.category cat

category_health_bounds :
    (es : List Evaluation) (cat : String)
    → All
        (λ e.
          is_of cat e ≡ true
          → e.active ≡ true
          → rank e.severity ≤ rank (category_health es cat).severity)
        es
unfolding category_health
category_health_bounds es cat = All-of_filter _ (is_of cat) es (
    All-of_filter _ (λ e. e.active) (filter (is_of cat) es)
      (category_severity_bounds (filter (is_of cat) es) _))

-- The severity of the worst is at most `n` exactly when all are.
worst_le :
    (s : HealthSeverity) (ts : List HealthSeverity) {n : ℕ}
    → rank s ≤ n
    → All (λ t. rank t ≤ n) ts
    → rank (worst s ts) ≤ n
worst_le s [] h a = h
worst_le s (t ∷ ts) h (k, a) = elim (Bool-cases (ltb (rank s) (rank t))) [
  | inl e ↦ rw e (worst_le t ts k a)
  | inr e ↦ rw e (worst_le s ts h a)
]

All-map_of {ℓ} :
    {A : Type ℓ} (n : ℕ) (f : A → HealthSeverity) (xs : List A)
    → All (λ x. rank (f x) ≤ n) xs
    → All (λ t. rank t ≤ n) (map f xs)
All-map_of n f [] h = tt
All-map_of n f (x ∷ xs) (p, h) = (p, All-map_of n f xs h)

category_severity_le :
    (cat active : List Evaluation) {n : ℕ}
    → 1 ≤ n
    → All (λ e. rank e.severity ≤ n) active
    → rank (category_severity cat active) ≤ n
category_severity_le [] [] h a = omega arith
category_severity_le (_ ∷ _) [] h a = h
category_severity_le cat (e ∷ es) h (p, a) =
    worst_le e.severity _ p (All-map_of _ (λ e'. e'.severity) es a)

-- The category of an evaluation is one of the seven.
abbrev pub is_known : Evaluation → Bool
is_known e = any (λ cat. str_eq e.category cat) categories

pub any-at :
    (P : String → Type 0) (c : String) (cats : List String)
    → any (λ cat. str_eq c cat) cats ≡ true
    → All P cats
    → P c
any-at P c [] h a = cc h
any-at P c (cat ∷ cats) h (p, a) = elim (Bool-cases (str_eq c cat)) [
  | inl e ↦ subst P (sym ((eq_iff c cat).0 e)) p
  | inr e ↦ any-at P c cats (rw e at h) a
]

pub any-here :
    (c : String) (cats : List String)
    → All (λ cat. str_eq c cat ≡ true → any (λ k. str_eq c k) cats ≡ true) cats
any-here c [] = tt
any-here c (cat ∷ cats) =
    ((λ e. rw e refl), All-map _ cats (λ k h e. ground (arith, h e)) (any-here c cats))

All-swap :
    (P : String → Evaluation → Type 0) (cats : List String) (es : List Evaluation)
    → All (λ e. All (λ cat. P cat e) cats) es
    → All (λ cat. All (P cat) es) cats
All-swap P [] es h = tt
All-swap P (cat ∷ cats) es h =
    (All-map _ es (λ e (p, _). p) h, All-swap P cats es (All-map _ es (λ e (_, a). a) h))

pub overall_of-bounds :
    (es : List Evaluation) (cats : List String) {n : ℕ}
    → rank (overall_of (roll_up es cats)) ≤ n
    → All (λ cat. rank (category_health es cat).severity ≤ n) cats
overall_of-bounds es [] h = tt
overall_of-bounds es (cat ∷ cats) h = (
  omega (
    arith,
    worst_bound (category_health es cat).severity (map (λ p. p.1.severity) (roll_up es cats)),
  ),
  rolled _ cats (worst_bounds (category_health es cat).severity _ h),
)
  where
    rolled :
        (n : ℕ) (cats : List String)
        → All (λ t. rank t ≤ n) (map (λ p. p.1.severity) (roll_up es cats))
        → All (λ cat. rank (category_health es cat).severity ≤ n) cats
    rolled n [] a = tt
    rolled n (cat ∷ cats) (p, a) = (p, rolled n cats a)

pub overall_of-le :
    (es : List Evaluation) (cats : List String) {n : ℕ}
    → All (λ cat. rank (category_health es cat).severity ≤ n) cats
    → rank (overall_of (roll_up es cats)) ≤ n
overall_of-le es [] h = omega arith
overall_of-le es (cat ∷ cats) (p, h) = worst_le _ _ p (rolled _ cats h)
  where
    rolled :
        (n : ℕ) (cats : List String)
        → All (λ cat. rank (category_health es cat).severity ≤ n) cats
        → All (λ t. rank t ≤ n) (map (λ p. p.1.severity) (roll_up es cats))
    rolled n [] a = tt
    rolled n (cat ∷ cats) (p, a) = (p, rolled n cats a)

category_health-le :
    (es : List Evaluation) (cat : String) {n : ℕ}
    → 1 ≤ n
    → All (λ e. is_of cat e ≡ true → e.active ≡ true → rank e.severity ≤ n) es
    → rank (category_health es cat).severity ≤ n
unfolding category_health
category_health-le es cat h a =
    category_severity_le (filter (is_of cat) es) _ h
      (All-to_filter _ (λ e. e.active) (filter (is_of cat) es) (All-to_filter _ (is_of cat) es a))

-- For a rank `n` of at least 1, that of healthy, the overall severity has at most rank `n`
-- exactly when each active evaluation in one of the seven categories has.
pub overall_le_iff :
    (now : Time) (families : Families) (evaluated : Evaluated) {n : ℕ}
    → 1 ≤ n
    → (health_severity_rank (health_state now families evaluated).overall ≤ n)
      ↔ All
          (λ e. is_known e ≡ true → e.active ≡ true → health_severity_rank e.severity ≤ n)
          evaluated.evaluations
unfolding health_state
overall_le_iff now families evaluated {n} h = (
  λ b. All-map _ es (bounded b) (All-Memᴰ es),
  λ a. overall_of-le es categories (All-map _ categories (category_le h) (per_category h a)),
)
  where
    es : List Evaluation
    es = evaluated.evaluations

    bounded :
        rank (overall_of (roll_up es categories)) ≤ n
        → (e : Evaluation) → Memᴰ e es
        → is_known e ≡ true
        → e.active ≡ true
        → rank e.severity ≤ n
    bounded b e m known active =
        let bound =
          any-at (λ cat. rank (category_health es cat).severity ≤ n) e.category categories known
            (overall_of-bounds es categories b) in
        let own =
          All-at _ m (category_health_bounds es e.category) ((eq_iff e.category e.category).1 refl)
            active in
        omega (arith, bound, own)

    Bounded : String → Evaluation → Type 0
    Bounded cat e = is_of cat e ≡ true → e.active ≡ true → rank e.severity ≤ n

    per_category :
        1 ≤ n
        → All (λ e. is_known e ≡ true → e.active ≡ true → rank e.severity ≤ n) es
        → All (λ cat. All (Bounded cat) es) categories
    per_category h a = All-swap Bounded categories es (
        All-map {Q = λ e. All (λ cat. Bounded cat e) categories}
          (λ e. is_known e ≡ true → e.active ≡ true → rank e.severity ≤ n) es
          (λ e p.
            All-map {Q = λ cat. Bounded cat e}
              (λ cat. str_eq e.category cat ≡ true → is_known e ≡ true) categories
              (λ cat k here. p (k here)) (any-here e.category categories))
          a)

    category_le :
        1 ≤ n → (cat : String) → All (Bounded cat) es → rank (category_health es cat).severity ≤ n
    category_le h cat all = category_health-le es cat h all
