-- ===== src/Maintenance/Writes.antt =====
-- What a call of the service writes: the document of its server, and its events.
use server_scan.Prelude.{
  String, some, List, [], ◌∷◌, ◌++◌, str_eq, eq_iff, ◌≡◌, refl, sym, subst, arith, if◌then◌else◌,
}
use server_scan.Prelude.Result.{returned}
use server_scan.Store.{get_by_id, upsert_with_revision_check}
use server_scan.Store.Laws.{replace_one-current}
use server_scan.Maintenance.{
  Server, maintenance_enabled, maintenance_updated, maintenance_disabled, AuditEvent, World,
  Request, Reason, server_fields, event_of, disabled_window, enabled_window, with_window,
  get_or_404, commit, enable, disable,
}

module _ {O : Type 0} where
  pub get_by_id-id :
      (ss : List (Server O)) (id : String) (s : Server O)
      → get_by_id server_fields ss id ≡ some s
      → s.id ≡ id
  unfolding get_by_id
  get_by_id-id [] id s h = cc h
  get_by_id-id (t ∷ ss) id s h = ground (arith, eq_iff t.id id, get_by_id-id ss id s)

  pub record IsWritten (w : World O) (doc : Server O) (events : List AuditEvent) (w' : World O)
      : Type 0 where
    pub audit : w'.audit ≡ w.audit ++ events
    pub servers :
        (id : String)
        → get_by_id server_fields w'.servers id
          ≡ (if str_eq doc.id id then some doc else get_by_id server_fields w.servers id)

  commit-IsWritten :
      (w : World O) (old doc : Server O) (events : List AuditEvent)
      → get_by_id server_fields w.servers doc.id ≡ some old
      → (w' : World O) × (commit w old.revision doc events ≡ returned (w', doc))
        × IsWritten w doc events w'
  unfolding commit upsert_with_revision_check
  commit-IsWritten w old doc events h =
      let (ss, replaced, gets) = replace_one-current server_fields doc old w.servers h in
      (
        record { servers = ss; audit = w.audit ++ events },
        rw replaced refl,
        record { audit = refl; servers = gets },
      )

  pub enable-IsWritten :
      (w : World O) (id : String) (why : Reason) (r : Request) (s : Server O)
      → get_by_id server_fields w.servers id ≡ some s
      → (w' : World O) × (enable w id why r
          ≡ returned (w', with_window (enabled_window r why s.maintenance) r.now s))
        × IsWritten w
            (with_window (enabled_window r why s.maintenance) r.now s)
            (event_of r
                (if s.maintenance.enabled then maintenance_updated else maintenance_enabled)
                id
                (("reason", why.reason) ∷ ("ticket", why.ticket) ∷ [])
              ∷ [])
            w'
  unfolding enable get_or_404
  enable-IsWritten w id why r s h = rw h (
      commit-IsWritten w s (with_window (enabled_window r why s.maintenance) r.now s) _ (
        subst (λ i. get_by_id server_fields w.servers i ≡ some s)
          (sym (get_by_id-id w.servers id s h)) h))

  pub disable-IsWritten :
      (w : World O) (id : String) (r : Request) (s : Server O)
      → get_by_id server_fields w.servers id ≡ some s
      → (w' : World O) × (disable w id r
          ≡ returned (w', with_window (disabled_window r.now) r.now s))
        × IsWritten w
            (with_window (disabled_window r.now) r.now s)
            (if s.maintenance.enabled then event_of r maintenance_disabled id [] ∷ [] else [])
            w'
  unfolding disable get_or_404
  disable-IsWritten w id r s h = rw h (
      commit-IsWritten w s (with_window (disabled_window r.now) r.now s) _ (
        subst (λ i. get_by_id server_fields w.servers i ≡ some s)
          (sym (get_by_id-id w.servers id s h)) h))
