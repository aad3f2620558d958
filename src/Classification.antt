-- ===== src/Classification.antt =====
-- domain/models/classification_rule.py and domain/services/classification.py: the rules and the
-- engine that resolves one server's installation type. The regular expressions are a parameter.
pub mod Spec
pub mod Winner
pub mod Conflicts
pub mod Write
pub mod Examples
use server_scan.Prelude.{
  ℕ, ℤ, String, Time, Bool, true, false, not, ◌&&◌, ◌||◌, Option, none, some, List, [], ◌∷◌, ◌++◌,
  map, filter, is_some, str_eq, if◌then◌else◌, ◌+◌, ◌==◌, eqb_ℤ, any, str_take,
}
use server_scan.Prelude.Order.{Order, int_order, nat_order, str_order, desc, on, then_by}
use server_scan.Prelude.Sort.{sort}
use server_scan.Enums.{
  Vendor, ManagerType, InstallationType, unclassified, same_vendor, same_manager_type,
  same_installation_type,
}

pub record RuleScope : Type 0 where
  pub vendor : Option Vendor
  pub manager_type : Option ManagerType
  pub site_id : Option String

pub record RuleFlags : Type 0 where
  pub ignore_case : Bool
  pub multiline : Bool
  pub dotall : Bool

pub record RuleStats : Type 0 where
  pub last_matched_at : Option Time
  pub timeout_count : ℕ
  pub quarantined : Bool

pub record ClassificationRule : Type 0 where
  pub id : String
  pub name : String
  pub description : String
  pub enabled : Bool
  pub system : Bool
  pub installation_type : InstallationType
  pub scope : RuleScope
  pub field : String
  pub pattern : String
  pub flags : RuleFlags
  pub source : String
  pub priority : ℤ
  pub order : ℤ
  pub stats : RuleStats
  pub revision : ℕ
  pub created_at : Time
  pub updated_at : Time
  pub created_by : Option String
  pub updated_by : Option String

-- `RuleScope.specificity`
unfoldable pub specificity : RuleScope → ℕ
specificity s =
    (if is_some s.site_id then 4 else 0)
    + (if is_some s.manager_type then 2 else 0)
    + (if is_some s.vendor then 1 else 0)

-- `required is not None and required != actual`
abbrev pub set_and_ne {ℓ} : {A : Type ℓ} → (A → A → Bool) → Option A → Option A → Bool
set_and_ne same none actual = false
set_and_ne same (some a) none = true
set_and_ne same (some a) (some b) = not (same a b)

-- `RuleScope.matches`
unfoldable pub matches : RuleScope → Vendor → Option ManagerType → Option String → Bool
matches s vendor manager_type site_id =
    if set_and_ne same_vendor s.vendor (some vendor)
    then false
    else if set_and_ne same_manager_type s.manager_type manager_type
    then false
    else not (set_and_ne str_eq s.site_id site_id)

pub record ClassifiableServer : Type 0 where
  pub name : String
  pub vendor : Vendor
  pub manager_type : Option ManagerType
  pub site_id : Option String
  pub hostname : Option String
  pub serial : Option String
  pub model : Option String

abbrev pub classifiable_fields : List String
classifiable_fields = "name" ∷ "hostname" ∷ "serial" ∷ "model" ∷ "site_id" ∷ []

-- `rule.field in CLASSIFIABLE_FIELDS`
unfoldable pub is_classifiable : String → Bool
is_classifiable field = any (λ f. str_eq f field) classifiable_fields

unfoldable pub extract_field : ClassifiableServer → String → Option String
extract_field s field =
    if str_eq field "name"
    then some s.name
    else if str_eq field "hostname"
    then s.hostname
    else if str_eq field "serial"
    then s.serial
    else if str_eq field "model"
    then s.model
    else if str_eq field "site_id"
    then s.site_id
    else none

-- What `RegexEngine.search` answers: a match, `None`, or `RegexTimeout`.
pub data Search : Type 0 where
  hit miss timed_out : Search

-- What `RegexEngine.validate` does: it returns, or raises `RegexUnsafeError` or something else.
pub data Validation : Type 0 where
  accepted unsafe broken : Validation

pub record RegexEngine : Type 0 where
  pub validate : String → RuleFlags → Validation
  pub search : String → String → RuleFlags → Search

pub record ClassificationConflict : Type 0 where
  pub rule_id : String
  pub rule_name : String
  pub installation_type : InstallationType

pub record ClassificationResult : Type 0 where
  pub installation_type : InstallationType
  pub rule_id : Option String
  pub rule_name : Option String
  pub rule_source : Option String
  pub matched_field : Option String
  pub matched_pattern : Option String
  pub matched_value_preview : Option String
  pub priority : Option ℤ
  pub specificity : Option ℕ
  pub conflicts : List ClassificationConflict
  pub errors : List String
  pub engine_version : ℕ
  pub classified_at : Time

-- `_sort_key`: priority and specificity descending, order and id ascending.
abbrev pub sort_key : Order ClassificationRule
sort_key = then_by (on (λ r. r.priority) (desc int_order)) (
    then_by (on (λ r. specificity r.scope) (desc nat_order))
      (then_by (on (λ r. r.order) int_order) (on (λ r. r.id) str_order)))

unfoldable pub is_candidate : ClassifiableServer → ClassificationRule → Bool
is_candidate server r =
    r.enabled
    && (not r.stats.quarantined && matches r.scope server.vendor server.manager_type server.site_id)

unfoldable pub candidates : ClassifiableServer → List ClassificationRule → List ClassificationRule
candidates server rules = sort sort_key (filter (is_candidate server) rules)

-- The loop's variables; `winner` is with its `winner_value`.
pub record Scan : Type 0 where
  pub winner : Option (ClassificationRule × String)
  pub conflicts : List ClassificationConflict
  pub errors : List String

-- A round ends by `continue` or at its end, or by `break`.
pub data Round : Type 0 where
  go_on stop : Scan → Round

unfoldable pub tied : ClassificationRule → ClassificationRule → Bool
tied r w = eqb_ℤ r.priority w.priority && (specificity r.scope == specificity w.scope)

abbrev pub conflict_of : ClassificationRule → ClassificationConflict
conflict_of r = record {
  rule_id = r.id;
  rule_name = r.name;
  installation_type = r.installation_type;
}

unfoldable pub on_match :
    Scan → ClassificationRule → String → Option (ClassificationRule × String) → Round
unfolding tied
on_match s r value none = go_on (record s { winner = some (r, value) })
on_match s r value (some (w, _)) =
    if not (tied r w)
    then stop s
    else if not (same_installation_type r.installation_type w.installation_type)
    then go_on (record s { conflicts = s.conflicts ++ conflict_of r ∷ [] })
    else go_on s

unfoldable pub on_search : Scan → ClassificationRule → String → Search → Round
on_search s r value timed_out = go_on (record s { errors = s.errors ++ r.id ∷ [] })
on_search s r value miss = go_on s
on_search s r value hit = on_match s r value s.winner

unfoldable pub on_value : RegexEngine → Scan → ClassificationRule → Option String → Round
on_value engine s r none = go_on s
on_value engine s r (some value) = on_search s r value (engine.search r.pattern value r.flags)

unfoldable pub round : ClassifiableServer → RegexEngine → Scan → ClassificationRule → Round
round server engine s r =
    if not (is_classifiable r.field)
    then go_on s
    else on_value engine s r (extract_field server r.field)

unfoldable pub scan : ClassifiableServer → RegexEngine → Scan → List ClassificationRule → Scan
scan server engine s [] = s
scan server engine s (r ∷ rs) = elim (round server engine s r) [
  | go_on s' ↦ scan server engine s' rs
  | stop s' ↦ s'
]

abbrev pub start : Scan
start = record { winner = none; conflicts = []; errors = [] }

-- `winner_value[:_FIELD_VALUE_TRUNCATE] if winner_value else None`
unfoldable pub preview_of : String → Option String
preview_of value = if str_eq value "" then none else some (str_take 120 value)

abbrev pub engine_version : ℕ
engine_version = 1

unfoldable pub result_of : Time → Option (ClassificationRule × String) → Scan → ClassificationResult
result_of now none s = record {
  installation_type = unclassified;
  rule_id = none;
  rule_name = none;
  rule_source = none;
  matched_field = none;
  matched_pattern = none;
  matched_value_preview = none;
  priority = none;
  specificity = none;
  conflicts = s.conflicts;
  errors = s.errors;
  engine_version = engine_version;
  classified_at = now;
}
result_of now (some (w, value)) s = record {
  installation_type = w.installation_type;
  rule_id = some w.id;
  rule_name = some w.name;
  rule_source = some w.source;
  matched_field = some w.field;
  matched_pattern = some w.pattern;
  matched_value_preview = preview_of value;
  priority = some w.priority;
  specificity = some (specificity w.scope);
  conflicts = s.conflicts;
  errors = s.errors;
  engine_version = engine_version;
  classified_at = now;
}

unfoldable pub classify :
    Time → ClassifiableServer → List ClassificationRule → RegexEngine → ClassificationResult
classify now server rules engine =
    let s = scan server engine start (candidates server rules) in result_of now s.winner s
