-- ===== src/Membership.antt =====
-- application/services/openshift_membership.py: the reconciliation of one cluster's view, against the
-- collection of servers with the revision check of infrastructure/mongodb/server_repository.py. The
-- clock stands still during a run, no one else writes, and the pages of a listing are one list.
pub mod Store
pub mod Claims
pub mod Ownership
pub mod Isolation
pub mod Examples
use server_scan.Prelude.{
  ℕ, suc, ◌+◌, String, Time, Bool, true, false, not, ◌&&◌, Option, none, some, List, [], ◌∷◌, ◌++◌,
  filter, any, length, str_eq, ◌==◌, if◌then◌else◌,
}
use server_scan.Prelude.Order.{Order, str_order, on, then_by}
use server_scan.Prelude.Sort.{sort}
use server_scan.Enums.{OpenShiftState, available, same_openshift_state}

pub record OpenShiftLifecycle : Type 0 where
  pub lifecycle_state : OpenShiftState
  pub cluster_name : Option String
  pub mce_name : Option String
  pub last_reported_at : Option Time
  pub reported_by_agent_id : Option String

-- The fields of a stored server that the service reads or writes.
pub record StoredServer : Type 0 where
  pub id : String
  pub name_normalized : String
  pub openshift : OpenShiftLifecycle
  pub revision : ℕ
  pub updated_at : Option Time

pub record ClusterObservation : Type 0 where
  pub hostname : String
  pub lifecycle_state : OpenShiftState
  pub cluster_name : Option String
  pub mce_name : Option String

-- An `OPENSHIFT_STATE_CHANGED` event
pub record StateChanged : Type 0 where
  pub server_id : String
  pub before : OpenShiftState
  pub after : OpenShiftState
  pub cluster_name : Option String

pub record MembershipSummary : Type 0 where
  pub observed : ℕ
  pub matched : ℕ
  pub claimed : ℕ
  pub freed : ℕ
  pub unmatched : List String

-- The two collections that a run writes.
pub record World : Type 0 where
  pub servers : List StoredServer
  pub audit : List StateChanged

pub data StoreError : Type 0 where
  not_found revision_conflict : StoreError

pub data Outcome {ℓ} (A : Type ℓ) : Type ℓ where
  done : A → Outcome A
  failed : StoreError → Outcome A

infixl 5 ◌>>=◌
abbrev pub ◌>>=◌ {ℓ κ} : {A : Type ℓ} {B : Type κ} → Outcome A → (A → Outcome B) → Outcome B
done a >>= f = f a
failed e >>= f = failed e

-- `scope`: `openshift.cluster_name` or `openshift.mce_name` equal to a name
pub data Scope : Type 0 where
  by_cluster by_mce : String → Scope

abbrev pub is_named : Option String → String → Bool
is_named none name = false
is_named (some s) name = str_eq s name

abbrev pub in_scope : Scope → OpenShiftLifecycle → Bool
in_scope (by_cluster name) l = is_named l.cluster_name name
in_scope (by_mce name) l = is_named l.mce_name name

-- `.sort([("name_normalized", 1), ("_id", 1)])`
abbrev pub name_order : Order StoredServer
name_order = then_by (on (λ s. s.name_normalized) str_order) (on (λ s. s.id) str_order)

abbrev pub list_servers : (StoredServer → Bool) → List StoredServer → List StoredServer
list_servers p servers = sort name_order (filter p servers)

abbrev pub first_server : List StoredServer → Option StoredServer
first_server [] = none
first_server (s ∷ ss) = some s

-- `_find_by_hostname`
unfoldable pub find_by_hostname : List StoredServer → String → Option StoredServer
find_by_hostname servers hostname =
    first_server (list_servers (λ s. str_eq s.name_normalized hostname) servers)

-- `_claimed_by`
unfoldable pub claimed_by : Scope → List StoredServer → List StoredServer
claimed_by scope servers = list_servers (λ s. in_scope scope s.openshift) servers

abbrev pub keep : StoredServer → Option (List StoredServer) → Option (List StoredServer)
keep s none = none
keep s (some ss) = some (s ∷ ss)

-- `replace_one({"_id": …, "revision": …}, doc)`; nothing matches on `none`
unfoldable pub replace_one : StoredServer → ℕ → List StoredServer → Option (List StoredServer)
replace_one doc expected [] = none
replace_one doc expected (s ∷ ss) =
    let rest = keep s (replace_one doc expected ss) in
    if str_eq s.id doc.id && (s.revision == expected) then some (doc ∷ ss) else rest

abbrev pub replaced :
    StoredServer → List StoredServer → Option (List StoredServer) → Outcome (List StoredServer)
replaced doc servers (some servers') = done servers'
replaced doc servers none =
    failed (if any (λ s. str_eq s.id doc.id) servers then revision_conflict else not_found)

unfoldable pub upsert_with_revision_check :
    StoredServer → ℕ → List StoredServer → Outcome (List StoredServer)
upsert_with_revision_check doc expected servers =
    replaced doc servers (replace_one doc expected servers)

abbrev pub same_name : Option String → Option String → Bool
same_name none none = true
same_name (some s) (some t) = str_eq s t
same_name _ _ = false

unfoldable pub same_membership : OpenShiftLifecycle → OpenShiftLifecycle → Bool
same_membership before updated =
    same_openshift_state before.lifecycle_state updated.lifecycle_state
    && (same_name before.cluster_name updated.cluster_name
        && same_name before.mce_name updated.mce_name)

unfoldable pub events : StoredServer → OpenShiftLifecycle → List StateChanged
events server updated =
    if same_openshift_state server.openshift.lifecycle_state updated.lifecycle_state
    then []
    else record {
      server_id = server.id;
      before = server.openshift.lifecycle_state;
      after = updated.lifecycle_state;
      cluster_name = updated.cluster_name;
    }
      ∷ []

-- What a run has done so far, with `seen_ids`.
pub record Progress : Type 0 where
  pub world : World
  pub summary : MembershipSummary
  pub seen : List String

pub record Written : Type 0 where
  pub world : World
  pub changed : Bool

module _ (now : Time) (dry_run : Bool) where
  abbrev pub updated_server : StoredServer → OpenShiftLifecycle → StoredServer
  updated_server server updated = record server {
    openshift = updated;
    revision = suc server.revision;
    updated_at = some now;
  }

  -- `_write`
  unfoldable pub write : World → StoredServer → OpenShiftLifecycle → Outcome Written
  write w server updated =
      if same_membership server.openshift updated
      then done (record { world = w; changed = false })
      else if dry_run
      then done (record { world = w; changed = true })
      else upsert_with_revision_check (updated_server server updated) server.revision w.servers
        >>= λ servers. done (record {
          world = record { servers = servers; audit = w.audit ++ events server updated };
          changed = true;
        })

  abbrev pub claim_of : String → ClusterObservation → OpenShiftLifecycle
  claim_of reported_by o = record {
    lifecycle_state = o.lifecycle_state;
    cluster_name = o.cluster_name;
    mce_name = o.mce_name;
    last_reported_at = some now;
    reported_by_agent_id = some reported_by;
  }

  abbrev pub free_lifecycle : OpenShiftLifecycle
  free_lifecycle = record {
    lifecycle_state = available;
    cluster_name = none;
    mce_name = none;
    last_reported_at = none;
    reported_by_agent_id = none;
  }

  abbrev pub counted : Bool → ℕ → ℕ
  counted changed n = if changed then suc n else n

  abbrev pub claimed_progress : Progress → StoredServer → Written → Progress
  claimed_progress p server written = record {
    world = written.world;
    summary = record p.summary {
      matched = suc p.summary.matched;
      claimed = counted written.changed p.summary.claimed;
    };
    seen = server.id ∷ p.seen;
  }

  -- One round of the loop over the observations.
  abbrev pub claim : String → Progress → ClusterObservation → Option StoredServer → Outcome Progress
  claim reported_by p o none = done (record p {
    summary = record p.summary { unmatched = p.summary.unmatched ++ o.hostname ∷ [] };
  })
  claim reported_by p o (some server) = write p.world server (claim_of reported_by o) >>= λ written.
      done (claimed_progress p server written)

  unfoldable pub claim_all : String → Progress → List ClusterObservation → Outcome Progress
  unfolding find_by_hostname write
  claim_all reported_by p [] = done p
  claim_all reported_by p (o ∷ os) =
      claim reported_by p o (find_by_hostname p.world.servers o.hostname) >>= λ p'.
      claim_all reported_by p' os

  abbrev pub freed_progress : Progress → Written → Progress
  freed_progress p written = record {
    world = written.world;
    summary = record p.summary { freed = counted written.changed p.summary.freed };
    seen = p.seen;
  }

  -- One round of the loop over the servers in scope.
  abbrev pub free : Progress → StoredServer → Outcome Progress
  free p server =
      if any (λ i. str_eq i server.id) p.seen
      then done p
      else write p.world server free_lifecycle >>= λ written. done (freed_progress p written)

  unfoldable pub free_all : Progress → List StoredServer → Outcome Progress
  unfolding write
  free_all p [] = done p
  free_all p (s ∷ ss) = free p s >>= λ p'. free_all p' ss

  abbrev pub start : World → ℕ → Progress
  start w observed = record {
    world = w;
    summary = record { observed = observed; matched = 0; claimed = 0; freed = 0; unmatched = [] };
    seen = [];
  }

  unfoldable pub reconcile : World → List ClusterObservation → Scope → String → Outcome Progress
  unfolding claim_all claimed_by free_all
  reconcile w observations scope reported_by =
      claim_all reported_by (start w (length observations)) observations >>= λ p.
      free_all p (claimed_by scope p.world.servers)
