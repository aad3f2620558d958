-- ===== src/Available/Examples.antt =====
-- Lookups in a world of two servers whose manager reports one of them as broken.
use server_scan.Prelude.{
  String, Bool, true, false, none, some, List, [], ◌∷◌, filter, not, any, ◌&&◌, take, length,
  str_eq, ◌≡◌, ◌↔◌, refl, if◌then◌else◌,
}
use server_scan.Prelude.Result.{returned, raised}
use server_scan.Enums.{HealthSeverity, available, healthy, critical}
use server_scan.Available.{
  Candidate, Deps, not_found, no_such_name, Session, server_still_qualifies, manager_type_of,
}
use server_scan.Available.Search.{
  lookup_by_pattern, lookup_by_name, fill_from_tiers, tiers, rounds, try_candidates, recheck,
  provider_for,
}
use server_scan.Available.Lookup.{
  IsPatternAnswer, IsNameAnswer, lookup_by_pattern-IsPatternAnswer, lookup_by_name-IsNameAnswer,
}

abbrev stored : String → HealthSeverity → Candidate
stored name overall = record {
  id = name;
  name = name;
  serial = name;
  external_ids = [];
  manager_id = none;
  bmc_host = none;
  source_provider = some "ONEVIEW";
  lifecycle_state = available;
  in_maintenance = false;
  reachable = true;
  overall = overall;
}

abbrev world : List Candidate
world = stored "a" healthy ∷ stored "b" healthy ∷ []

abbrev is_healthy : HealthSeverity → Candidate → Bool
is_healthy healthy c = true
is_healthy severity c = false

-- The manager says that "a" has become critical; it is asked for records that are names.
abbrev deps : Deps (List Candidate) String String String String
deps = record {
  find_one_by_name = λ w name extra. some (stored name healthy);
  normalize_text = λ name. name;
  expansion_for = λ pattern. none;
  count = λ w f. length w;
  sample = λ w f severity size exclude_ids. (
    take size
        (filter (λ c. is_healthy severity c && not (any (λ id. str_eq id c.id) exclude_ids)) w),
    w,
  );
  provider_factory = λ m. some "oneview";
  get_one = λ provider identity w. returned (some identity.name, w);
  ingest_one = λ fresh m w.
      returned (if str_eq fresh "a" then stored "a" critical else stored fresh healthy, w);
}

abbrev session : Session (List Candidate) String
session = record { world = world; providers = [] }

lookup_by_pattern-IsPatternAnswer_example :
    IsPatternAnswer deps world "^" 1 "cisco" (lookup_by_pattern deps "^" 1 "cisco" session)
lookup_by_pattern-IsPatternAnswer_example =
    lookup_by_pattern-IsPatternAnswer deps "^" 1 "cisco" session

lookup_by_name-IsNameAnswer_example :
    IsNameAnswer deps world "b" "cisco" (lookup_by_name deps "b" "cisco" session)
    × ((lookup_by_name deps "b" "cisco" session ≡ raised (not_found no_such_name))
        ↔ (deps.find_one_by_name world (deps.normalize_text "b") "cisco" ≡ none))
lookup_by_name-IsNameAnswer_example = lookup_by_name-IsNameAnswer deps "b" "cisco" session

-- The second server takes the place of the first, which no longer qualifies.
replaced :
    lookup_by_pattern deps "^" 1 "cisco" session
    ≡ returned (record {
      session = record { world = world; providers = ("ONEVIEW", some "oneview") ∷ [] };
      selected = record { server = stored "b" healthy; live_recheck_performed = true } ∷ [];
      tried_ids = "b" ∷ "a" ∷ [];
    })
unfolding lookup_by_pattern fill_from_tiers tiers rounds try_candidates recheck provider_for
    manager_type_of server_still_qualifies
replaced = refl
