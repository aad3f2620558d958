-- ===== src/Available.antt =====
-- application/services/available_servers.py: the lookup of assignable servers, with a live recheck of
-- each before it is returned. The queries, the random draw, the providers, the ingestion and the
-- capacity aliases are parameters; `W` is the state of the world that they read and change.
pub mod Search
pub mod Fill
pub mod Lookup
pub mod Examples
use server_scan.Prelude.{
  ℕ, zero, suc, ◌-◌, String, Bool, true, false, not, ◌&&◌, Option, none, some, get_or, List, [],
  ◌∷◌, ◌++◌, length, leb, ltb, ◌==◌, dict_get, dict_set, str_eq, if◌then◌else◌,
}
use server_scan.Prelude.Result.{Result, returned, raised, ◌>>=◌, or_raise}
use server_scan.Enums.{
  ManagerType, openmanage, ucs_manager, ucs_central, intersight, oneview, redfish_standalone,
  manager_type_value, OpenShiftState, available, same_openshift_state, HealthSeverity, healthy,
  warning, major, critical, unknown,
}

-- The fields of a stored server that the lookup reads.
pub record Candidate : Type 0 where
  pub id : String
  pub name : String
  pub serial : String
  pub external_ids : List (String × String)
  pub manager_id : Option String
  pub bmc_host : Option String
  pub source_provider : Option String
  pub lifecycle_state : OpenShiftState
  pub in_maintenance : Bool
  pub reachable : Bool
  pub overall : HealthSeverity

pub record ServerIdentity : Type 0 where
  pub serial : String
  pub external_id : Option String
  pub host : Option String
  pub name : String

-- `{"name": {"$regex": …}}`, or an `$or` of two
pub data NameFilter : Type 0 where
  matches : String → NameFilter
  matches_either : String → String → NameFilter

-- A filter document: the name, the caller's filters, and the clauses that the lookup adds.
pub record Filter (F : Type 0) : Type 0 where
  pub name : NameFilter
  pub extra : F
  pub assignable : Bool
  pub severities : List HealthSeverity

-- `SELECTABLE_TIERS`
abbrev pub selectable_tiers : List HealthSeverity
selectable_tiers = healthy ∷ warning ∷ major ∷ []

abbrev pub is_selectable : HealthSeverity → Bool
is_selectable healthy = true
is_selectable warning = true
is_selectable major = true
is_selectable critical = false
is_selectable unknown = false

-- `_MAX_REPLACEMENT_ROUNDS_PER_TIER`
abbrev pub max_rounds : ℕ
max_rounds = 3

unfoldable pub server_still_qualifies : Candidate → Bool
server_still_qualifies s =
    same_openshift_state s.lifecycle_state available
    && (not s.in_maintenance && (s.reachable && is_selectable s.overall))

pub data NotFound : Type 0 where
  no_such_name lost_by_manager no_longer_qualifies no_name_matches none_assignable : NotFound

-- What a lookup raises: its own error, a `ValueError` of `ManagerType`, or what a collector raises.
pub data Failure (E : Type 0) : Type 0 where
  not_found : NotFound → Failure E
  invalid_manager_type : Failure E
  dependency : E → Failure E

pub record AvailableServer : Type 0 where
  pub server : Candidate
  pub live_recheck_performed : Bool

pub record Deps (W F P R E : Type 0) : Type 0 where
  pub find_one_by_name : W → String → F → Option Candidate
  pub normalize_text : String → String
  pub expansion_for : String → Option String
  pub count : W → Filter F → ℕ
  -- the aggregation `$match`, `$sample`
  pub sample : W → Filter F → HealthSeverity → ℕ → List String → List Candidate × W
  -- `none` is a `ManagerNotConfiguredError`
  pub provider_factory : ManagerType → Option P
  pub get_one : P → ServerIdentity → W → Result E (Option R × W)
  pub ingest_one : R → ManagerType → W → Result E (Candidate × W)

-- `ManagerType(value)`; `none` is a `ValueError`
unfoldable pub manager_type_of : String → Option ManagerType
manager_type_of s =
    if str_eq s "OPENMANAGE"
    then some openmanage
    else if str_eq s "UCS_MANAGER"
    then some ucs_manager
    else if str_eq s "UCS_CENTRAL"
    then some ucs_central
    else if str_eq s "INTERSIGHT"
    then some intersight
    else if str_eq s "ONEVIEW"
    then some oneview
    else if str_eq s "REDFISH_STANDALONE"
    then some redfish_standalone
    else none

-- The world, and the providers that the request has built.
pub record Session (W P : Type 0) : Type 0 where
  pub world : W
  pub providers : List (String × Option P)

-- What `_fill_from_tiers` has done so far.
pub record Filling (W P : Type 0) : Type 0 where
  pub session : Session W P
  pub selected : List AvailableServer
  pub tried_ids : List String

abbrev pub from_dependency {ℓ} : {E : Type 0} {A : Type ℓ} → Result E A → Result (Failure E) A
from_dependency (returned a) = returned a
from_dependency (raised e) = raised (dependency e)
