-- ===== src/Maintenance/Trail.antt =====
-- The trail of audit events tells which servers are in maintenance.
use server_scan.Prelude.{
  String, Bool, true, false, not, ◌&&◌, ◌||◌, Bool-cases, inl, inr, Option, none, some, is_some,
  Option-cases, List, [], ◌∷◌, ◌++◌, str_eq, eq_iff, ◌≡◌, refl, sym, ap, subst, ◌∙◌, arith,
  if◌then◌else◌,
}
use server_scan.Store.{get_by_id}
use server_scan.Maintenance.{
  Window, Server, EventType, maintenance_enabled, maintenance_updated, maintenance_disabled,
  other_event, AuditEvent, World, Request, Reason, server_fields, disabled_window, enabled_window,
  with_window, get_or_404, enable, disable, Operation, enable_window, disable_window, perform,
  world_after, run,
}
use server_scan.Maintenance.Writes.{get_by_id-id, IsWritten, enable-IsWritten, disable-IsWritten}

abbrev pub is_about : String → Option String → Bool
is_about server_id none = false
is_about server_id (some id) = str_eq id server_id

-- Who opened the window, after one more event.
abbrev pub opener_after : Option String → AuditEvent → EventType → Option String
opener_after before e maintenance_enabled = some e.actor.id
opener_after before e maintenance_updated = before
opener_after before e maintenance_disabled = none
opener_after before e other_event = before

-- Who has opened the window of a server, as the events tell it; none where it is closed.
abbrev pub replay : String → Option String → List AuditEvent → Option String
replay server_id before [] = before
replay server_id before (e ∷ es) =
    replay server_id
      (if is_about server_id e.server_id then opener_after before e e.event_type else before) es

replay-append :
    (server_id : String) (xs ys : List AuditEvent) (before : Option String)
    → replay server_id before (xs ++ ys) ≡ replay server_id (replay server_id before xs) ys
replay-append server_id [] ys before = refl
replay-append server_id (x ∷ xs) ys before = replay-append server_id xs ys _

-- A window that is open says who opened it and when; one that is closed says nothing.
abbrev pub is_consistent : Window → Bool
is_consistent w =
    if w.enabled
    then is_some w.created_by && is_some w.created_at
    else not (
        is_some w.reason
        || is_some w.ticket
        || is_some w.created_by
        || is_some w.created_at
        || is_some w.expected_end)

module _ {O : Type 0} where
  -- Who has opened the window, as the document tells it.
  abbrev pub opened_by : Option (Server O) → Option String
  opened_by none = none
  opened_by (some s) = if s.maintenance.enabled then s.maintenance.created_by else none

  abbrev pub consistent_server : Option (Server O) → Bool
  consistent_server none = true
  consistent_server (some s) = is_consistent s.maintenance

  -- The trail and the documents agree on every server, and every window is consistent.
  pub record IsTrailed (w : World O) : Type 0 where
    pub agrees :
        (id : String) → replay id none w.audit ≡ opened_by (get_by_id server_fields w.servers id)
    pub consistent : (id : String) → consistent_server (get_by_id server_fields w.servers id) ≡ true

  -- Events that are about one server only, and leave it as the document says, keep the trail.
  IsTrailed-written :
      (w w' : World O) (old doc : Server O) (events : List AuditEvent)
      → get_by_id server_fields w.servers doc.id ≡ some old
      → IsWritten w doc events w'
      → replay doc.id (opened_by (some old)) events ≡ opened_by (some doc)
      → ((id : String) (before : Option String)
          → str_eq doc.id id ≡ false
          → replay id before events ≡ before)
      → is_consistent doc.maintenance ≡ true
      → IsTrailed w
      → IsTrailed w'
  IsTrailed-written w w' old doc events found done about others ok trailed = record {
    agrees = λ id. elim (Bool-cases (str_eq doc.id id)) [
      | inl same ↦
          let here = (eq_iff doc.id id).0 same in
          let seen : replay doc.id none w.audit ≡ opened_by (some old) =
            trailed.agrees doc.id ∙ ap opened_by found in
          rw (done.audit, replay-append id w.audit events none, done.servers id, same)
            (subst (λ i. replay i (replay i none w.audit) events ≡ opened_by (some doc)) here
              (rw seen about))
      | inr other ↦
          rw
            (
              done.audit,
              replay-append id w.audit events none,
              done.servers id,
              other,
              trailed.agrees id,
            )
            (others id _ other)
    ];
    consistent = λ id. rw (done.servers id) (ground (arith, trailed.consistent id));
  }

  enable-IsTrailed :
      (w : World O) (id : String) (why : Reason) (r : Request)
      → IsTrailed w
      → IsTrailed (world_after w (enable w id why r))
  enable-IsTrailed w id why r trailed = elim (Option-cases (get_by_id server_fields w.servers id)) [
    | inl gone ↦ unfold enable get_or_404 in rw gone trailed
    | inr (s, found) ↦
        let (w', done, written) = enable-IsWritten w id why r s found in
        let same = get_by_id-id w.servers id s found in
        let before : is_consistent s.maintenance ≡ true =
          sym (ap consistent_server found) ∙ trailed.consistent id in
        rw done (
          IsTrailed-written w w' s (with_window (enabled_window r why s.maintenance) r.now s) _
            (subst (λ i. get_by_id server_fields w.servers i ≡ some s) (sym same) found) written
            (ground (arith, eq_iff id s.id, same))
            (λ i b other. ground (arith, eq_iff id s.id, same, eq_iff s.id i))
            (ground (arith, before)) trailed)
  ]

  disable-IsTrailed :
      (w : World O) (id : String) (r : Request)
      → IsTrailed w
      → IsTrailed (world_after w (disable w id r))
  disable-IsTrailed w id r trailed = elim (Option-cases (get_by_id server_fields w.servers id)) [
    | inl gone ↦ unfold disable get_or_404 in rw gone trailed
    | inr (s, found) ↦
        let (w', done, written) = disable-IsWritten w id r s found in
        let same = get_by_id-id w.servers id s found in
        rw done (
          IsTrailed-written w w' s (with_window (disabled_window r.now) r.now s) _
            (subst (λ i. get_by_id server_fields w.servers i ≡ some s) (sym same) found) written
            (ground (arith, eq_iff id s.id, same))
            (λ i b other. ground (arith, eq_iff id s.id, same, eq_iff s.id i)) refl trailed)
  ]

  pub perform-IsTrailed :
      (w : World O) (op : Operation) → IsTrailed w → IsTrailed (world_after w (perform w op))
  perform-IsTrailed w (enable_window id why r) trailed = enable-IsTrailed w id why r trailed
  perform-IsTrailed w (disable_window id r) trailed = disable-IsTrailed w id r trailed

  pub run-world : (w : World O) (ops : List Operation) → IsTrailed w → IsTrailed (run w ops)
  unfolding run
  run-world w [] trailed = trailed
  run-world w (op ∷ ops) trailed =
      run-world (world_after w (perform w op)) ops (perform-IsTrailed w op trailed)
