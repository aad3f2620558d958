-- ===== src/Classification/Examples.antt =====
-- Runs of the classifier on a small set of rules.
use mathlib.Core.List.{Permᴰ}
use server_scan.Prelude.{
  pos, String, true, false, none, some, is_some, List, [], ◌∷◌, map, filter, All, ◌≡◌, ◌≢◌, ◌↔◌,
  refl, contains, str_eq, str_leb, ne_of_str_eq, if◌then◌else◌, arith, starts, leb_ℤ, ◌<◌, ◌+◌, ◌*◌,
}
use server_scan.Prelude.Sort.{insert, sort}
use server_scan.Enums.{dell, mce, hosted_cluster}
use server_scan.Classification.{
  ClassificationRule, RegexEngine, ClassifiableServer, Search, hit, miss, timed_out, accepted,
  classify, candidates, is_candidate, matches, specificity, scan, round, on_value, on_search,
  on_match, tied, extract_field, is_classifiable, result_of, sort_key, conflict_of,
}
use server_scan.Classification.Spec.{matched_value, times_out, disputes}
use server_scan.Classification.Winner.{
  IsBest, HasDistinctIds, classify-IsBest, classify-none, classify_order_independent,
}
use server_scan.Classification.Conflicts.{classify-conflicts, classify-errors}
use server_scan.Classification.Write.{
  validate_rule_write, ok, priority_band, check_band, check_scope, validate_pattern,
}
use server_scan.Classification.Write.Laws.{
  source_rank, source_precedence, IsCoherent, validate_rule_write-ok_iff,
}

-- An engine that finds a pattern as a part of the text, and gives up on one.
abbrev search_text : String → String → Search
search_text pattern value =
    if str_eq pattern "(a+)+" then timed_out else if contains pattern value then hit else miss

abbrev engine : RegexEngine
engine = record { validate = λ p f. accepted; search = λ p v f. search_text p v }

abbrev base_rule : ClassificationRule
base_rule = record {
  id = "r0";
  name = "base";
  description = "";
  enabled = true;
  system = false;
  installation_type = mce;
  scope = record { vendor = none; manager_type = none; site_id = none };
  field = "name";
  pattern = "web";
  flags = record { ignore_case = true; multiline = false; dotall = false };
  source = "GLOBAL_CUSTOM";
  priority = pos 200;
  order = pos 0;
  stats = record { last_matched_at = none; timeout_count = 0; quarantined = false };
  revision = 1;
  created_at = 0;
  updated_at = 0;
  created_by = none;
  updated_by = none;
}

abbrev site_rule : ClassificationRule
site_rule = record base_rule {
  id = "r1";
  scope = record { vendor = none; manager_type = none; site_id = some "site-a" };
  source = "SITE_CUSTOM";
  priority = pos 500;
}

abbrev rival_rule : ClassificationRule
rival_rule = record site_rule { id = "r2"; installation_type = hosted_cluster; order = pos 1 }

abbrev slow_rule : ClassificationRule
slow_rule = record base_rule { id = "r3"; pattern = "(a+)+" }

abbrev rules : List ClassificationRule
rules = base_rule ∷ slow_rule ∷ rival_rule ∷ site_rule ∷ []

abbrev tied_rules : List ClassificationRule
tied_rules = slow_rule ∷ rival_rule ∷ site_rule ∷ []

abbrev server : ClassifiableServer
server = record {
  name = "web-01";
  vendor = dell;
  manager_type = none;
  site_id = some "site-a";
  hostname = none;
  serial = none;
  model = none;
}

found : (classify 7 server rules engine).rule_id ≡ some "r1"
unfolding classify candidates sort insert is_candidate matches scan round on_value on_search
    on_match tied specificity extract_field is_classifiable result_of str_leb contains starts
found = refl

distinct_ids : HasDistinctIds rules
distinct_ids = (
  (ne_of_str_eq _ _ refl, (ne_of_str_eq _ _ refl, (ne_of_str_eq _ _ refl, tt))),
  ((ne_of_str_eq _ _ refl, (ne_of_str_eq _ _ refl, tt)), ((ne_of_str_eq _ _ refl, tt), (tt, tt))),
)

classify-IsBest_example :
    (w : ClassificationRule) × IsBest server engine rules w
    × (w.id ≡ "r1")
    × ((classify 7 server rules engine).installation_type ≡ w.installation_type)
    × ((classify 7 server rules engine).priority ≡ some w.priority)
classify-IsBest_example = classify-IsBest 7 server rules engine found

classify-none_example :
    ((classify 7 server (slow_rule ∷ []) engine).rule_id ≡ none)
    ↔ All
        (λ r. is_candidate server r ≡ true → matched_value server engine r ≡ none)
        (slow_rule ∷ [])
classify-none_example = classify-none 7 server (slow_rule ∷ []) engine

classify_order_independent_example :
    classify 7 server rules engine
    ≡ classify 7 server (slow_rule ∷ base_rule ∷ rival_rule ∷ site_rule ∷ []) engine
classify_order_independent_example =
    classify_order_independent 7 server engine (Permᴰ.swap refl refl) distinct_ids

classify-conflicts_example :
    (w : ClassificationRule) × IsBest server engine rules w
    × (w.id ≡ "r1")
    × ((classify 7 server rules engine).conflicts
        ≡ map conflict_of (filter (disputes server engine w) (candidates server rules)))
classify-conflicts_example = classify-conflicts 7 server rules engine found

-- The rival of the winner is its conflict.
one_conflict : (classify 7 server rules engine).conflicts ≡ conflict_of rival_rule ∷ []
unfolding classify candidates sort insert is_candidate matches scan round on_value on_search
    on_match tied specificity extract_field is_classifiable result_of str_leb contains starts
one_conflict = refl

tied_found :
    ((classify 7 server tied_rules engine).priority ≡ some (pos 500))
    × ((classify 7 server tied_rules engine).specificity ≡ some 4)
unfolding classify candidates sort insert is_candidate matches scan round on_value on_search
    on_match tied specificity extract_field is_classifiable result_of str_leb contains starts
tied_found = (refl, refl)

all_tied :
    All
      (λ r.
        is_candidate server r ≡ true
        → is_some (matched_value server engine r) ≡ true
        → (r.priority ≡ pos 500) × (specificity r.scope ≡ 4))
      tied_rules
unfolding matched_value extract_field is_classifiable specificity
all_tied = (λ c m. cc m, (λ c m. (refl, refl), (λ c m. (refl, refl), tt)))

classify-errors_example :
    (classify 7 server tied_rules engine).errors
    ≡ map (λ r. r.id) (filter (times_out server engine) (candidates server tied_rules))
classify-errors_example =
    classify-errors 7 server tied_rules engine tied_found.0 tied_found.1 all_tied

site_accepted : validate_rule_write site_rule engine true ≡ ok
unfolding validate_rule_write priority_band check_band check_scope validate_pattern is_classifiable
site_accepted = refl

base_accepted : validate_rule_write base_rule engine true ≡ ok
unfolding validate_rule_write priority_band check_band check_scope validate_pattern is_classifiable
base_accepted = refl

source_precedence_example :
    (sort_key.le site_rule base_rule ≡ true) × (sort_key.le base_rule site_rule ≡ false)
source_precedence_example =
    source_precedence site_rule base_rule engine true true site_accepted base_accepted (omega arith)

validate_rule_write-ok_iff_example : (validate_rule_write site_rule engine true ≡ ok) ↔ (
    (0 < source_rank site_rule.source)
    × (true ≡ true → site_rule.source ≢ "SYSTEM_DEFAULT")
    × (leb_ℤ (pos (100 * source_rank site_rule.source)) site_rule.priority ≡ true)
    × (leb_ℤ site_rule.priority (pos (100 * source_rank site_rule.source + 99)) ≡ true)
    × IsCoherent site_rule.source site_rule.scope
    × (is_classifiable site_rule.field ≡ true)
    × (engine.validate site_rule.pattern site_rule.flags ≡ accepted))
validate_rule_write-ok_iff_example = validate_rule_write-ok_iff site_rule engine true
