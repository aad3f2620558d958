-- ===== src/Membership/Examples.antt =====
-- Runs of the reconciliation on a small fleet.
use mathlib.Core.List.{Memᴰ}
use server_scan.Prelude.{
  String, true, false, none, some, List, [], ◌∷◌, All, ◌≡◌, refl, str_leb, length,
}
use server_scan.Prelude.Sort.{insert, sort}
use server_scan.Enums.{available, installed}
use server_scan.Membership.{
  StoredServer, OpenShiftLifecycle, ClusterObservation, World, by_cluster, in_scope, reconcile,
  claim_all, claimed_by, free_all, find_by_hostname, write, same_membership,
  upsert_with_revision_check, replace_one, events,
}
use server_scan.Membership.Store.{Ends, HasDistinctServerIds}
use server_scan.Membership.Isolation.{reconcile-isolated}
use server_scan.Membership.Ownership.{is_seen, reconcile-Ends}

abbrev held : String → OpenShiftLifecycle
held cluster = record {
  lifecycle_state = installed;
  cluster_name = some cluster;
  mce_name = none;
  last_reported_at = none;
  reported_by_agent_id = none;
}

abbrev free_server : OpenShiftLifecycle
free_server = record {
  lifecycle_state = available;
  cluster_name = none;
  mce_name = none;
  last_reported_at = none;
  reported_by_agent_id = none;
}

abbrev stranger : StoredServer
stranger = record {
  id = "s3";
  name_normalized = "web-03";
  openshift = held "test";
  revision = 2;
  updated_at = none;
}

abbrev fleet : World
fleet = record {
  servers =
      record {
        id = "s1";
        name_normalized = "web-01";
        openshift = held "prod";
        revision = 4;
        updated_at = none;
      }
      ∷ record {
        id = "s2";
        name_normalized = "web-02";
        openshift = free_server;
        revision = 1;
        updated_at = none;
      }
      ∷ stranger
      ∷ [];
  audit = [];
}

abbrev observations : List ClusterObservation
observations =
    record {
      hostname = "web-02";
      lifecycle_state = installed;
      cluster_name = some "prod";
      mce_name = none;
    }
    ∷ []

fleet_ids : HasDistinctServerIds fleet.servers
unfolding str_leb
fleet_ids = ((refl, (refl, tt)), ((refl, tt), (tt, tt)))

reconcile-Ends_example :
    Ends
      (λ p.
        HasDistinctServerIds p.world.servers
        × (false ≡ true → p.world ≡ fleet)
        × (false ≡ false
            → All
                (λ s. in_scope (by_cluster "prod") s.openshift ≡ true → is_seen p.seen s ≡ true)
                p.world.servers))
      (reconcile 9 false fleet observations (by_cluster "prod") "prod")
reconcile-Ends_example =
    reconcile-Ends 9 false fleet observations (by_cluster "prod") "prod" fleet_ids

reconcile-isolated_example :
    Ends
      (λ p. Memᴰ stranger p.world.servers)
      (reconcile 9 false fleet observations (by_cluster "prod") "prod")
reconcile-isolated_example =
    reconcile-isolated 9 false fleet observations (by_cluster "prod") "prod" stranger fleet_ids
      (Memᴰ.tail (Memᴰ.tail (Memᴰ.head refl))) refl refl

-- The run frees the first server and claims the second.
run_summary :
    Ends
      (λ p. (p.summary.claimed ≡ 1) × (p.summary.freed ≡ 1) × (length p.world.audit ≡ 2))
      (reconcile 9 false fleet observations (by_cluster "prod") "prod")
unfolding reconcile claim_all claimed_by free_all find_by_hostname sort insert write same_membership
    upsert_with_revision_check replace_one events str_leb
run_summary = (refl, refl, refl)
