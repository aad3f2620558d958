-- ===== src/Health/Policy.antt =====
-- domain/models/health_policy.py: a policy, and the scope that it applies to.
use server_scan.Prelude.{
  ℕ, ℤ, ◌+◌, String, Time, Bool, true, false, not, ◌&&◌, Option, none, some, is_some, List, [], ◌∷◌,
  any, str_eq, leb_ℤ, if◌then◌else◌,
}
use server_scan.Enums.{HealthSeverity}
use server_scan.Classification.{set_and_ne}
use server_scan.Classification.Write.{priority_band}
use server_scan.Health.Condition.{Condition}

pub record PolicyScope : Type 0 where
  pub site_id : Option String
  pub vendor : Option String
  pub manager_types : List String

abbrev pub is_empty {ℓ} : {A : Type ℓ} → List A → Bool
is_empty [] = true
is_empty (_ ∷ _) = false

-- `PolicyScope.specificity`
unfoldable pub specificity : PolicyScope → ℕ
specificity s =
    (if is_some s.site_id then 4 else 0)
    + (if is_empty s.manager_types then 0 else 2)
    + (if is_some s.vendor then 1 else 0)

abbrev pub one_of : Option String → List String → Bool
one_of none names = false
one_of (some m) names = any (λ n. str_eq m n) names

-- `PolicyScope.matches`
unfoldable pub matches : PolicyScope → String → Option String → Option String → Bool
matches s vendor manager_type site_id =
    if set_and_ne str_eq s.vendor (some vendor)
    then false
    else if not (is_empty s.manager_types) && not (one_of manager_type s.manager_types)
    then false
    else not (set_and_ne str_eq s.site_id site_id)

pub record EvidenceField : Type 0 where
  pub key : String
  pub metric : String

pub record PolicyStats : Type 0 where
  pub fire_count : ℕ
  pub last_fired_at : Option Time
  pub error_count : ℕ
  pub quarantined : Bool

pub record HealthPolicy : Type 0 where
  pub id : String
  pub name : String
  pub description : String
  pub enabled : Bool
  pub system : Bool
  pub policy_key : String
  pub mode : String
  pub category : String
  pub severity : HealthSeverity
  pub condition : Condition
  pub evidence : List EvidenceField
  pub message_template : String
  pub scope : PolicyScope
  pub source : String
  pub priority : ℤ
  pub order : ℤ
  pub stats : PolicyStats
  pub revision : ℕ
  pub created_at : Time
  pub updated_at : Time
  pub created_by : Option String
  pub updated_by : Option String

abbrev pub in_band : ℤ → Option (ℤ × ℤ) → Bool
in_band priority none = true
in_band priority (some (low, high)) = leb_ℤ low priority && leb_ℤ priority high

-- The model validators `_priority_within_band` and `_mode_is_known`.
unfoldable pub is_well_formed : HealthPolicy → Bool
unfolding priority_band
is_well_formed p =
    in_band p.priority (priority_band p.source)
    && any (λ m. str_eq p.mode m) ("EVALUATE" ∷ "SUPPRESS" ∷ [])
