-- ===== src/Classification/Write.antt =====
-- application/services/classification_service.py: the checks of a rule before it is stored, with
-- the priority bands of domain/models/classification_rule.py.
pub mod Laws
use server_scan.Prelude.{
  ℕ, ℤ, pos, String, Bool, true, false, not, ◌&&◌, ◌||◌, Option, none, some, is_some, List, [], ◌∷◌,
  str_eq, leb_ℤ, if◌then◌else◌,
}
use server_scan.Classification.{
  RuleScope, ClassificationRule, RegexEngine, Validation, accepted, unsafe, broken, is_classifiable,
}

pub data WriteError : Type 0 where
  rule_scope_invalid validation_error regex_unsafe regex_invalid : WriteError

pub data Checked : Type 0 where
  ok : Checked
  raised : WriteError → Checked

-- One check after another: the first that raises ends the function.
infixr 5 ◌&then◌
abbrev pub ◌&then◌ : Checked → Checked → Checked
ok &then next = next
raised e &then next = raised e

-- `if failing: raise e`
abbrev pub reject_if : Bool → WriteError → Checked
reject_if true e = raised e
reject_if false e = ok

-- `PRIORITY_BANDS.get`
unfoldable pub priority_band : String → Option (ℤ × ℤ)
priority_band source =
    if str_eq source "SITE_CUSTOM"
    then some (pos 500, pos 599)
    else if str_eq source "MANAGER_CUSTOM"
    then some (pos 400, pos 499)
    else if str_eq source "VENDOR_CUSTOM"
    then some (pos 300, pos 399)
    else if str_eq source "GLOBAL_CUSTOM"
    then some (pos 200, pos 299)
    else if str_eq source "SYSTEM_DEFAULT"
    then some (pos 100, pos 199)
    else none

unfoldable pub check_band : ℤ → Option (ℤ × ℤ) → Checked
check_band priority none = raised rule_scope_invalid
check_band priority (some (low, high)) =
    reject_if (not (leb_ℤ low priority && leb_ℤ priority high)) rule_scope_invalid

unfoldable pub check_scope : String → RuleScope → Checked
check_scope source scope =
    reject_if (str_eq source "SITE_CUSTOM" && not (is_some scope.site_id)) rule_scope_invalid
    &then reject_if (str_eq source "MANAGER_CUSTOM" && not (is_some scope.manager_type))
        rule_scope_invalid
    &then reject_if (str_eq source "VENDOR_CUSTOM" && not (is_some scope.vendor)) rule_scope_invalid
    &then reject_if
        ((str_eq source "GLOBAL_CUSTOM" || str_eq source "SYSTEM_DEFAULT")
          && (is_some scope.vendor || (is_some scope.manager_type || is_some scope.site_id)))
        rule_scope_invalid

-- `_validate_pattern`
unfoldable pub validate_pattern : ClassificationRule → RegexEngine → Checked
validate_pattern rule engine = elim (engine.validate rule.pattern rule.flags) [
  | accepted ↦ ok
  | unsafe ↦ raised regex_unsafe
  | broken ↦ raised regex_invalid
]

unfoldable pub validate_rule_write : ClassificationRule → RegexEngine → Bool → Checked
validate_rule_write rule engine is_create =
    reject_if (is_create && str_eq rule.source "SYSTEM_DEFAULT") rule_scope_invalid
    &then check_band rule.priority (priority_band rule.source)
    &then check_scope rule.source rule.scope
    &then reject_if (not (is_classifiable rule.field)) validation_error
    &then validate_pattern rule engine
