-- ===== src/Maintenance.antt =====
-- application/services/maintenance_service.py with the `record` of
-- application/services/audit_service.py: maintenance windows and their trail. Calls of one request
-- are not interleaved with others here; Store/Races.antt is about those.
pub mod Writes
pub mod Trail
pub mod Opener
pub mod Examples
use server_scan.Prelude.{
  ℕ, suc, String, Time, Bool, true, false, Option, none, some, List, [], ◌∷◌, ◌++◌, if◌then◌else◌,
}
use server_scan.Prelude.Result.{Result, returned, raised, ◌>>=◌, or_raise}
use server_scan.Membership.{StoreError, not_found}
use server_scan.Store.{Versioned, get_by_id, upsert_with_revision_check}

pub record Window : Type 0 where
  pub enabled : Bool
  pub reason : Option String
  pub ticket : Option String
  pub created_by : Option String
  pub created_at : Option Time
  pub updated_at : Option Time
  pub expected_end : Option Time

-- `other` stands for the fields that the service does not touch.
pub record Server (O : Type 0) : Type 0 where
  pub id : String
  pub maintenance : Window
  pub revision : ℕ
  pub updated_at : Time
  pub other : O

pub data ActorType : Type 0 where
  system user token : ActorType

pub record Actor : Type 0 where
  pub type : ActorType
  pub id : String
  pub display : Option String

-- The event types of the service; the other ones of the registry are `other_event`.
pub data EventType : Type 0 where
  maintenance_enabled maintenance_updated maintenance_disabled other_event : EventType

pub record AuditEvent : Type 0 where
  pub id : String
  pub event_type : EventType
  pub server_id : Option String
  pub actor : Actor
  pub request_id : Option String
  pub created_at : Time
  pub payload : List (String × Option String)

pub record World (O : Type 0) : Type 0 where
  pub servers : List (Server O)
  pub audit : List AuditEvent

-- What a request gives: `actor`, `request_id`, and the instants and the id that its calls of `utcnow`
-- and `new_id` return.
pub record Request : Type 0 where
  pub actor : Actor
  pub request_id : Option String
  pub now : Time
  pub audited_at : Time
  pub event_id : String

pub record Reason : Type 0 where
  pub reason : Option String
  pub ticket : Option String
  pub expected_end : Option Time

abbrev pub server_fields : {O : Type 0} → Versioned (Server O)
server_fields = record { id_of = λ s. s.id; revision_of = λ s. s.revision }

-- `AuditService.record`
abbrev pub event_of : Request → EventType → String → List (String × Option String) → AuditEvent
event_of r event_type server_id payload = record {
  id = r.event_id;
  event_type = event_type;
  server_id = some server_id;
  actor = r.actor;
  request_id = r.request_id;
  created_at = r.audited_at;
  payload = payload;
}

abbrev pub disabled_window : Time → Window
disabled_window now = record {
  enabled = false;
  reason = none;
  ticket = none;
  created_by = none;
  created_at = none;
  updated_at = some now;
  expected_end = none;
}

abbrev pub enabled_window : Request → Reason → Window → Window
enabled_window r why window = record {
  enabled = true;
  reason = why.reason;
  ticket = why.ticket;
  created_by = if window.enabled then window.created_by else some r.actor.id;
  created_at = if window.enabled then window.created_at else some r.now;
  updated_at = some r.now;
  expected_end = why.expected_end;
}

module _ {O : Type 0} where
  abbrev pub with_window : Window → Time → Server O → Server O
  with_window window now server = record server {
    maintenance = window;
    revision = suc server.revision;
    updated_at = now;
  }

  -- `_get_or_404`
  unfoldable pub get_or_404 : World O → String → Result StoreError (Server O)
  get_or_404 w server_id = or_raise not_found (get_by_id server_fields w.servers server_id)

  -- The write of a changed server with its events.
  unfoldable pub commit :
      World O → ℕ → Server O → List AuditEvent → Result StoreError (World O × Server O)
  commit w expected_revision server events =
      upsert_with_revision_check server_fields server expected_revision w.servers >>= λ servers.
      returned (record { servers = servers; audit = w.audit ++ events }, server)

  unfoldable pub enable :
      World O → String → Reason → Request → Result StoreError (World O × Server O)
  enable w server_id why r = get_or_404 w server_id >>= λ server.
      commit w server.revision (with_window (enabled_window r why server.maintenance) r.now server)
        (event_of r
            (if server.maintenance.enabled then maintenance_updated else maintenance_enabled)
            server_id (("reason", why.reason) ∷ ("ticket", why.ticket) ∷ [])
          ∷ [])

  unfoldable pub disable : World O → String → Request → Result StoreError (World O × Server O)
  disable w server_id r = get_or_404 w server_id >>= λ server.
      commit w server.revision (with_window (disabled_window r.now) r.now server) (
        if server.maintenance.enabled
        then event_of r maintenance_disabled server_id [] ∷ []
        else [])

pub data Operation : Type 0 where
  enable_window : String → Reason → Request → Operation
  disable_window : String → Request → Operation

module _ {O : Type 0} where
  abbrev pub perform : World O → Operation → Result StoreError (World O × Server O)
  perform w (enable_window server_id why r) = enable w server_id why r
  perform w (disable_window server_id r) = disable w server_id r

  abbrev pub world_after : World O → Result StoreError (World O × Server O) → World O
  world_after w (returned (w', server)) = w'
  world_after w (raised e) = w

  -- Requests one after the other; a request that raises has written nothing.
  unfoldable pub run : World O → List Operation → World O
  run w [] = w
  run w (op ∷ ops) = run (world_after w (perform w op)) ops
