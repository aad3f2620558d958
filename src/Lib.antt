-- ===== src/Lib.antt =====
-- server_scan: the rules that a fleet inventory applies to bare-metal servers.
--
-- The program collects servers from the vendors' managers, stores one document for each, and
-- decides two things about it from rules that operators write: what is installed on it
-- (classification) and how healthy it is (the health policy engine). Jobs of the clusters report
-- which servers they hold, and a reconciliation writes that to the documents. Operators page through the
-- servers with signed cursors, search them by token, put them into maintenance, and ask for servers that
-- are free to use. This library models both engines with the checks that a rule or a policy passes
-- before it is stored, the reconciliation, the listing with its cursors and tokens, the maintenance
-- service over the revision check of the store, the lookup of available servers and the single flight
-- of the cache. The engines are pure functions of the program, and are translated as functions; the
-- services pass their collections explicitly; the event loop of the single flight is a step relation; an
-- exception is a value of a result type, and a loop that can `break` or `continue` is a function that
-- says how each round ends.
--
-- Prelude.antt and its children hold the shared vocabulary: Boolean tests, lists measured by native
-- numbers, Python's integers, texts and `dict`, the keys of `sorted` (Prelude/Order), a stable sort
-- with its laws (Prelude/Sort), and the result of a call that may raise (Prelude/Result).
--
-- Enums.antt: backend/app/domain/enums/core.py.
-- Classification.antt: backend/app/domain/services/classification.py (`classify`, `_sort_key`,
--   `_extract_field`) and the model in backend/app/domain/models/classification_rule.py
--   (`RuleScope`, `ClassificationRule`). `candidates` is the list comprehension and its sort, `round`
--   the body of the loop, `on_search` and `on_match` its tail, `result_of` the two returns.
-- Classification/Spec.antt: what the rules say of a server without the loop; Classification/Winner
--   and Classification/Conflicts prove the loop against it.
-- Classification/Write.antt: `validate_rule_write` of
--   backend/app/application/services/classification_service.py.
-- Health/Values.antt: the Python values of facts and policies, with `==`, `<`, `in` and `len` and
--   the exceptions they raise.
-- Health/Metrics.antt: backend/app/domain/services/health/metrics.py.
-- Health/Condition.antt and Health/Condition/Evaluate.antt: conditions.py beside it, the check of a
--   condition and its evaluation; the other files of the folder prove what a checked condition is
--   good for.
-- Health/Template.antt: template.py, with Python's `string.Formatter().parse` written out in
--   Health/Template/Parse, lazily, as the loop sees it. Health/Facts.antt: facts.py with
--   `compute_connectivity_facts` of backend/app/domain/models/connectivity.py.
-- Health/Policy.antt: backend/app/domain/models/health_policy.py.
-- Health/Evaluate.antt: evaluate.py. `group_by_key` is `groupby` on the sorted list, `add_family` a
--   round of its loop, `add_winner` a round of the loop of `evaluate_health`, `category_health` and
--   `overall_of` the roll-up. Health/Evaluate/Put and Health/Evaluate/Index prove the grouping
--   against an index that each policy is put into, Health/Evaluate/Groups and
--   Health/Evaluate/Resolution the winners, Health/Evaluate/Fates that no policy is lost,
--   Health/Evaluate/Rounds the loop, Health/Evaluate/Rollup and Health/Evaluate/Unknown the
--   severities.
-- Health/Defaults.antt and its children: health_policy_defaults.py.
-- Health/Write.antt: `validate_policy_write` and `evaluate_with_policies` of
--   backend/app/application/services/health_policy_service.py.
-- Membership.antt: backend/app/application/services/openshift_membership.py over
--   `upsert_with_revision_check` of backend/app/infrastructure/mongodb/server_repository.py. `claim` and
--   `free` are the bodies of the two loops of `reconcile`, `write` is `_write`. Membership/Store
--   proves what a write does to the collection, Membership/Claims and Membership/Ownership follow
--   the two loops, Membership/Isolation the servers that are none of the run's business.
-- Cursor.antt: backend/app/domain/services/cursor.py and `stable_hash` of backend/app/utils/digest.py.
--   Cursor/Base64 writes out the codec of Python's `base64` that `_b64encode` and `_b64decode` use,
--   `read_signature` is the first `try` of `decode_cursor` and `read_payload` the second. Cursor/Toy is a
--   library of codecs on which the laws hold, for the examples.
-- Listing.antt: the sort fields and the search of backend/app/domain/services/search.py.
--   Listing/Clause is `_cursor_position_clause` of
--   backend/app/infrastructure/mongodb/server_repository.py with the query that it is part of, and
--   Listing/Page its `list_page`. Listing/Walk is a client that follows the cursors, Listing/NeverSeen
--   the sort by `last_seen_at` where that is null.
-- SearchTokens.antt: backend/app/domain/services/search_tokens.py. MacAddress.antt:
--   backend/app/domain/value_objects/mac_address.py. Site.antt: `SiteCatalog.parse` of
--   backend/app/domain/value_objects/site.py, with `hits` for the places that `_matches` finds before it
--   keeps the earliest of each site.
-- Store.antt: `get_by_id` and `upsert_with_revision_check` of the server repository for any document
--   with an id and a revision; Store/Races is about two writers. Maintenance.antt:
--   backend/app/application/services/maintenance_service.py with `record` of audit_service.py beside it;
--   `commit` is the write and the audit of `enable` and `disable`, Maintenance/Trail replays the
--   trail and Maintenance/Opener the requests.
-- SingleFlight.antt: backend/app/infrastructure/singleflight.py. `coalesce` is the function up to its
--   `await`, `wake` the rest, `Step` what the event loop may do between two awaits.
-- Available.antt and Available/Search: backend/app/application/services/available_servers.py with
--   `sample_available_tier` of the server repository; `try_candidates`, `rounds` and `tiers` are the three
--   nested loops of `_fill_from_tiers`.
-- The Examples modules run the definitions on small deployments.
--
-- Parameters, for code that is not in the repository or not a function of its arguments: the regex
-- engine (`RegexEngine`, the port of backend/app/domain/ports/regex_engine.py), `str` and
-- `format` with the patterns of templates (`Formatter`), `str.lower`, `str.strip`, the clock and `new_id`, the
-- matching of a filter document, and what the lookup of available servers calls (`Deps`): of these
-- nothing is assumed, but that `str.lower` keeps lower-case hexadecimal digits, and, where a theorem says
-- that an evaluation raises nothing more, that `str` and `format` print the values of the server's metrics
-- (Health/Evaluate/Rounds `Prints`), as Python does for numbers of a storable size. The codecs of a cursor
-- (`CursorLibrary`: JSON, HMAC-SHA256, the ISO format, the digest) are assumed to read back what they
-- write and to give bytes, and the digest to be ASCII (Cursor/Laws `IsLawful`). MongoDB is modelled as
-- its documentation says: a range test is of one type, null sorts before texts, ids are distinct.
-- The only fuel is that of the client in Listing/Walk, one page more than there are servers; every other
-- recursion is structural.
--
-- Bounds of the model: the numbers of facts and policies are integers (no metric of the registry is
-- a float), and a list value holds no list. Servers carry the fields that the code in question
-- reads. In a reconciliation the clock stands still, no one else writes, and the pages of a listing
-- are one list (Listing/Walk is about pages). A walk over pages is over a collection that
-- does not change meanwhile. Requests for maintenance come one after the other, but for the two writers
-- of Store/Races. `drain` of the single flight is a cancellation of each task.
--
-- Not modelled: the HTTP API, the aggregations of the MongoDB repositories and the filters of a query,
-- Redis, the collectors of the vendors, ingestion, the reads from clusters, catalogs and the
-- other value objects, settings, logging, tools and the front end.
pub mod Prelude
pub mod Enums
pub mod Classification
pub mod Health
pub mod Membership
pub mod Cursor
pub mod Listing
pub mod SingleFlight
pub mod Store
pub mod Maintenance
pub mod Available
pub mod MacAddress
pub mod SearchTokens
pub mod Site
