-- ===== src/Maintenance/Examples.antt =====
-- Two servers, windows that open and close, and two writers of one server.
use server_scan.Prelude.{ℕ, String, arith, true, none, some, List, [], ◌∷◌, ◌≡◌, refl}
use server_scan.Prelude.Result.{raised}
use server_scan.Membership.{revision_conflict}
use server_scan.Store.{get_by_id, replace_one, upsert_with_revision_check}
use server_scan.Store.Laws.{IsOutcome, upsert_with_revision_check-IsOutcome}
use server_scan.Store.Races.{second_writer_conflicts}
use server_scan.Maintenance.{
  Server, user, World, Request, Reason, server_fields, disabled_window, with_window, get_or_404,
  commit, enable, disable, Operation, enable_window, disable_window, run,
}
use server_scan.Maintenance.Trail.{IsTrailed}
use server_scan.Maintenance.Opener.{HasOpening, run-IsTrailed}

abbrev server : String → Server String
server id = record {
  id = id;
  maintenance = disabled_window 0;
  revision = 1;
  updated_at = 0;
  other = "healthy";
}

abbrev fleet : World String
fleet = record { servers = server "a" ∷ server "b" ∷ []; audit = [] }

abbrev by : String → ℕ → Request
by name now = record {
  actor = record { type = user; id = name; display = none };
  request_id = none;
  now = now;
  audited_at = now;
  event_id = "event";
}

abbrev disk_swap : Reason
disk_swap = record { reason = some "disk swap"; ticket = none; expected_end = some 90 }

abbrev requests : List Operation
requests =
    enable_window "b" disk_swap (by "ann" 1)
    ∷ enable_window "b" disk_swap (by "bob" 2)
    ∷ enable_window "z" disk_swap (by "ann" 3)
    ∷ disable_window "a" (by "ann" 4)
    ∷ []

fleet-IsTrailed : IsTrailed fleet
unfolding get_by_id
fleet-IsTrailed = record { agrees = λ id. ground arith; consistent = λ id. ground arith }

run-IsTrailed_example :
    IsTrailed (run fleet requests) × HasOpening (run fleet requests) "b" (some "ann", some 1)
unfolding get_by_id
run-IsTrailed_example =
    run-IsTrailed fleet requests "b" (none, none) fleet-IsTrailed (server "b", refl, refl)

-- The window of the second server is still that of the one who opened it.
opener :
    get_by_id server_fields (run fleet requests).servers "b"
    ≡ some (record (server "b") {
      maintenance = record {
        enabled = true;
        reason = some "disk swap";
        ticket = none;
        created_by = some "ann";
        created_at = some 1;
        updated_at = some 2;
        expected_end = some 90;
      };
      revision = 3;
      updated_at = 2;
    })
unfolding run enable disable get_or_404 commit get_by_id upsert_with_revision_check replace_one
opener = refl

abbrev changed : Server String
changed = with_window (disabled_window 5) 5 (server "a")

abbrev after_first : List (Server String)
after_first = changed ∷ server "b" ∷ []

upsert_with_revision_check-IsOutcome_example :
    IsOutcome server_fields changed 1 fleet.servers
      (upsert_with_revision_check server_fields changed 1 fleet.servers)
upsert_with_revision_check-IsOutcome_example =
    upsert_with_revision_check-IsOutcome server_fields changed 1 fleet.servers
      ((refl, tt), (tt, tt))

second_writer_conflicts_example :
    (upsert_with_revision_check server_fields
        (with_window (disabled_window 6) 6 (server "a"))
        1
        after_first
      ≡ raised revision_conflict)
    × (get_by_id server_fields after_first "a" ≡ some changed)
unfolding upsert_with_revision_check replace_one
second_writer_conflicts_example =
    second_writer_conflicts server_fields changed (with_window (disabled_window 6) 6 (server "a")) 1
      fleet.servers after_first ((refl, tt), (tt, tt)) refl refl refl
