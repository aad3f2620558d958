-- ===== src/Classification/Write/Laws.antt =====
-- What a rule that passes the checks is like, and what that means for the resolution order.
use server_scan.Prelude.{
  ℕ, ℤ, pos, pos_part, ◌<◌, ◌≤◌, ◌+◌, ◌*◌, String, Bool, true, false, Option, none, is_some, str_eq,
  eq_iff, leb_ℤ, if◌then◌else◌, ◌≡◌, ◌≢◌, ◌⊎◌, ◌↔◌, arith, refl, sym, subst, Bool-cases, inl, inr,
}
use server_scan.Enums.{Vendor, ManagerType}
use server_scan.Classification.{
  RuleScope, ClassificationRule, RegexEngine, accepted, is_classifiable, matches, sort_key,
}
use server_scan.Classification.Write.{
  ok, priority_band, check_band, check_scope, validate_pattern, validate_rule_write,
}

-- The place of a source among the five, from the most general; 0 for an unknown one.
abbrev pub source_rank : String → ℕ
source_rank source =
    if str_eq source "SITE_CUSTOM"
    then 5
    else if str_eq source "MANAGER_CUSTOM"
    then 4
    else if str_eq source "VENDOR_CUSTOM"
    then 3
    else if str_eq source "GLOBAL_CUSTOM"
    then 2
    else if str_eq source "SYSTEM_DEFAULT"
    then 1
    else 0

-- The priority of an accepted rule lies in the hundred of its source.
band-of_rank :
    (rule : ClassificationRule)
    → check_band rule.priority (priority_band rule.source) ≡ ok
    → (rule.priority ≡ pos (pos_part rule.priority))
      × (100 * source_rank rule.source ≤ pos_part rule.priority)
      × (pos_part rule.priority < 100 * source_rank rule.source + 100)
      × (0 < source_rank rule.source)
unfolding check_band priority_band
band-of_rank rule h = (ground arith, ground arith, ground arith, ground arith)

checks :
    (rule : ClassificationRule) (engine : RegexEngine) (is_create : Bool)
    → validate_rule_write rule engine is_create ≡ ok
    → (check_band rule.priority (priority_band rule.source) ≡ ok)
      × (check_scope rule.source rule.scope ≡ ok)
      × (is_classifiable rule.field ≡ true)
      × (engine.validate rule.pattern rule.flags ≡ accepted)
unfolding validate_rule_write validate_pattern
checks rule engine is_create h = ground arith

precedence_of_priority :
    (a b : ClassificationRule) {n m : ℕ}
    → a.priority ≡ pos n
    → b.priority ≡ pos m
    → m < n
    → (sort_key.le a b ≡ true) × (sort_key.le b a ≡ false)
precedence_of_priority a b e f lt = ground arith

module _ (a b : ClassificationRule) (engine : RegexEngine) (create_a create_b : Bool) where
  -- Of two accepted rules the one whose source has the higher rank stands strictly before the
  -- other in the resolution order.
  pub source_precedence :
      validate_rule_write a engine create_a ≡ ok
      → validate_rule_write b engine create_b ≡ ok
      → source_rank b.source < source_rank a.source
      → (sort_key.le a b ≡ true) × (sort_key.le b a ≡ false)
  source_precedence h k lt =
      let (ea, la, ua, _) = band-of_rank a (checks a engine create_a h).0 in
      let (eb, lb, ub, _) = band-of_rank b (checks b engine create_b k).0 in
      precedence_of_priority a b ea eb (omega arith)

-- An accepted rule of the source GLOBAL_CUSTOM or SYSTEM_DEFAULT applies to a server of any
-- vendor, manager and site.
pub unscoped-matches :
    (rule : ClassificationRule) (engine : RegexEngine) (is_create : Bool)
    → validate_rule_write rule engine is_create ≡ ok
    → (source_rank rule.source ≡ 2) ⊎ (source_rank rule.source ≡ 1)
    → (vendor : Vendor) (manager_type : Option ManagerType) (site_id : Option String)
    → matches rule.scope vendor manager_type site_id ≡ true
unfolding matches check_scope
unscoped-matches rule engine is_create h unscoped vendor manager_type site_id =
    ground (arith, checks rule engine is_create h)

abbrev pub empty_scope : RuleScope
empty_scope = record { vendor = none; manager_type = none; site_id = none }

-- The scope sets the dimension that the source is named for; an unscoped source sets none.
abbrev pub IsCoherent : String → RuleScope → Type 0
IsCoherent source scope =
    (source_rank source ≡ 5 → is_some scope.site_id ≡ true)
    × (source_rank source ≡ 4 → is_some scope.manager_type ≡ true)
    × (source_rank source ≡ 3 → is_some scope.vendor ≡ true)
    × (source_rank source ≤ 2 → scope ≡ empty_scope)

check_band-ok_iff :
    (source : String) (priority : ℤ)
    → (check_band priority (priority_band source) ≡ ok) ↔ (
        (0 < source_rank source)
        × (leb_ℤ (pos (100 * source_rank source)) priority ≡ true)
        × (leb_ℤ priority (pos (100 * source_rank source + 99)) ≡ true))
unfolding check_band priority_band
check_band-ok_iff source priority =
    (λ h. (ground arith, ground arith, ground arith), λ h. ground arith)

-- One proof for each of the five sources.
by_source :
    (P : String → Type 0)
    → P "SITE_CUSTOM"
    → P "MANAGER_CUSTOM"
    → P "VENDOR_CUSTOM"
    → P "GLOBAL_CUSTOM"
    → P "SYSTEM_DEFAULT"
    → (source : String) → 0 < source_rank source
    → P source
by_source P site manager vendor global seeded source known =
    elim (Bool-cases (str_eq source "SITE_CUSTOM")) [
      | inl e ↦ subst P (sym ((eq_iff source _).0 e)) site
      | inr a ↦ elim (Bool-cases (str_eq source "MANAGER_CUSTOM")) [
        | inl e ↦ subst P (sym ((eq_iff source _).0 e)) manager
        | inr b ↦ elim (Bool-cases (str_eq source "VENDOR_CUSTOM")) [
          | inl e ↦ subst P (sym ((eq_iff source _).0 e)) vendor
          | inr c ↦ elim (Bool-cases (str_eq source "GLOBAL_CUSTOM")) [
            | inl e ↦ subst P (sym ((eq_iff source _).0 e)) global
            | inr d ↦ elim (Bool-cases (str_eq source "SYSTEM_DEFAULT")) [
              | inl e ↦ subst P (sym ((eq_iff source _).0 e)) seeded
              | inr e ↦ absurd (ground arith)
            ]
          ]
        ]
      ]
    ]

check_scope_of_IsCoherent :
    (source : String) (scope : RuleScope)
    → 0 < source_rank source
    → IsCoherent source scope
    → check_scope source scope ≡ ok
unfolding check_scope
check_scope_of_IsCoherent source scope known coherent =
    by_source (λ s. IsCoherent s scope → check_scope s scope ≡ ok)
      (λ (site, _, _, _). rw (site refl)) (λ (_, manager, _, _). rw (manager refl))
      (λ (_, _, vendor, _). rw (vendor refl)) (λ (_, _, _, empty). rw (empty (omega arith)))
      (λ (_, _, _, empty). rw (empty (omega arith))) source known coherent

IsCoherent-of_check_scope :
    (source : String) (scope : RuleScope)
    → 0 < source_rank source
    → check_scope source scope ≡ ok
    → IsCoherent source scope
unfolding check_scope
IsCoherent-of_check_scope source scope known h =
    (λ e. ground arith, λ e. ground arith, λ e. ground arith, λ e. ground arith)

-- A rule is accepted exactly when its source is one of the five, and on creation not the seeded
-- one, its priority lies in the source's hundred, its scope sets what the source requires and, for
-- an unscoped source, nothing, its field can be classified by, and the engine takes its pattern.
pub validate_rule_write-ok_iff :
    (rule : ClassificationRule) (engine : RegexEngine) (is_create : Bool)
    → (validate_rule_write rule engine is_create ≡ ok) ↔ (
        (0 < source_rank rule.source)
        × (is_create ≡ true → rule.source ≢ "SYSTEM_DEFAULT")
        × (leb_ℤ (pos (100 * source_rank rule.source)) rule.priority ≡ true)
        × (leb_ℤ rule.priority (pos (100 * source_rank rule.source + 99)) ≡ true)
        × IsCoherent rule.source rule.scope
        × (is_classifiable rule.field ≡ true)
        × (engine.validate rule.pattern rule.flags ≡ accepted))
unfolding validate_rule_write validate_pattern
validate_rule_write-ok_iff rule engine is_create = (
  λ h.
      let (b, s, f, v) = checks rule engine is_create h in
      let (k, lo, hi) = (check_band-ok_iff rule.source rule.priority).0 b in
      (
        k,
        λ c. ground (arith, eq_iff rule.source "SYSTEM_DEFAULT"),
        lo,
        hi,
        IsCoherent-of_check_scope rule.source rule.scope k s,
        f,
        v,
      ),
  λ (k, n, lo, hi, s, f, v).
      let b = (check_band-ok_iff rule.source rule.priority).1 (k, lo, hi) in
      let t = check_scope_of_IsCoherent rule.source rule.scope k s in
      ground (arith, n, eq_iff rule.source "SYSTEM_DEFAULT"),
)
