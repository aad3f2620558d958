-- ===== src/Maintenance/Opener.antt =====
-- The window that a server has after a sequence of requests: who opened it and when.
use server_scan.Prelude.{
  String, Time, true, false, Bool-cases, inl, inr, Option, none, some, is_some, Option-cases, List,
  [], ◌∷◌, str_eq, eq_iff, ◌≡◌, refl, sym, ap, ◌∙◌, arith, if◌then◌else◌,
}
use server_scan.Store.{get_by_id}
use server_scan.Maintenance.{
  Window, Server, World, Request, Reason, server_fields, disabled_window, enabled_window,
  with_window, get_or_404, enable, disable, Operation, enable_window, disable_window, perform,
  world_after, run,
}
use server_scan.Maintenance.Writes.{get_by_id-id, enable-IsWritten, disable-IsWritten}
use server_scan.Maintenance.Trail.{
  is_consistent, consistent_server, IsTrailed, perform-IsTrailed, run-world,
}

abbrev pub Opening : Type 0
Opening = Option String × Option Time

abbrev pub closed : Opening
closed = (none, none)

abbrev pub opening_of : Window → Opening
opening_of w = if w.enabled then (w.created_by, w.created_at) else closed

-- What a request leaves of the window of a stored server: one that is open keeps who opened it and when.
abbrev pub opening_after : String → Opening → Operation → Opening
opening_after id before (enable_window server_id why r) =
    if str_eq server_id id
    then (if is_some before.0 then before else (some r.actor.id, some r.now))
    else before
opening_after id before (disable_window server_id r) =
    if str_eq server_id id then closed else before

abbrev pub opening_after_all : String → Opening → List Operation → Opening
opening_after_all id before [] = before
opening_after_all id before (op ∷ ops) = opening_after_all id (opening_after id before op) ops

enabled_window-opening :
    (r : Request) (why : Reason) (window : Window)
    → is_consistent window ≡ true
    → opening_of (enabled_window r why window)
      ≡ (if is_some (opening_of window).0 then opening_of window else (some r.actor.id, some r.now))
enabled_window-opening r why window h = elim (Bool-cases window.enabled) [
  | inr off ↦ rw off refl
  | inl on ↦ let k : is_some window.created_by ≡ true = ground arith in rw (on, k) refl
]

module _ {O : Type 0} where
  -- The document of a server has the given opening.
  abbrev pub HasOpening : World O → String → Opening → Type 0
  HasOpening w id opening =
      (s : Server O) × (get_by_id server_fields w.servers id ≡ some s)
      × (opening_of s.maintenance ≡ opening)

  perform-opening :
      (w : World O) (op : Operation) (id : String) (opening : Opening)
      → IsTrailed w
      → HasOpening w id opening
      → HasOpening (world_after w (perform w op)) id (opening_after id opening op)
  perform-opening w (enable_window t why r) id opening trailed (s, found, h) =
      elim (Option-cases (get_by_id server_fields w.servers t)) [
        | inl gone ↦
            unfold enable get_or_404 in
            let other : str_eq t id ≡ false = ground (arith, eq_iff t id, gone, found) in
            rw (gone, other) (s, found, h)
        | inr (old, stored) ↦
            let (w', done, written) = enable-IsWritten w t why r old stored in
            let same = get_by_id-id w.servers t old stored in
            rw done (elim (Bool-cases (str_eq t id)) [
              | inr other ↦ rw (written.servers id, same, other) (s, found, h)
              | inl here ↦
                  let e = (eq_iff t id).0 here in
                  let one : s ≡ old = cc (found, stored, e) in
                  let sound : is_consistent old.maintenance ≡ true =
                    sym (ap consistent_server stored) ∙ trailed.consistent t in
                  let own : str_eq old.id id ≡ true = rw same here in
                  rw (written.servers id, own, here)
                    (
                      with_window (enabled_window r why old.maintenance) r.now old,
                      refl,
                      enabled_window-opening r why old.maintenance sound ∙ rw (sym one, h) refl,
                    )
            ])
      ]
  perform-opening w (disable_window t r) id opening trailed (s, found, h) =
      elim (Option-cases (get_by_id server_fields w.servers t)) [
        | inl gone ↦
            unfold disable get_or_404 in
            let other : str_eq t id ≡ false = ground (arith, eq_iff t id, gone, found) in
            rw (gone, other) (s, found, h)
        | inr (old, stored) ↦
            let (w', done, written) = disable-IsWritten w t r old stored in
            let same = get_by_id-id w.servers t old stored in
            rw done (elim (Bool-cases (str_eq t id)) [
              | inr other ↦ rw (written.servers id, same, other) (s, found, h)
              | inl here ↦
                  let own : str_eq old.id id ≡ true = rw same here in
                  rw (written.servers id, own, here)
                    (with_window (disabled_window r.now) r.now old, refl, refl)
            ])
      ]

  run-opening :
      (w : World O) (ops : List Operation) (id : String) (opening : Opening)
      → IsTrailed w
      → HasOpening w id opening
      → HasOpening (run w ops) id (opening_after_all id opening ops)
  unfolding run
  run-opening w [] id opening trailed h = h
  run-opening w (op ∷ ops) id opening trailed h =
      run-opening (world_after w (perform w op)) ops id (opening_after id opening op)
        (perform-IsTrailed w op trailed) (perform-opening w op id opening trailed h)

  -- Where the trail and the documents agree at first, they agree on every server after any sequence of
  -- requests: a window is open exactly if the events say so, then by the actor of the event that opened
  -- it, and a closed one has no reason, ticket, opener or end; and a stored server stays stored, with the
  -- actor and the instant of the request that opened its window, which later updates leave as they are.
  pub run-IsTrailed :
      (w : World O) (ops : List Operation) (id : String) (opening : Opening)
      → IsTrailed w
      → HasOpening w id opening
      → IsTrailed (run w ops) × HasOpening (run w ops) id (opening_after_all id opening ops)
  run-IsTrailed w ops id opening trailed h =
      (run-world w ops trailed, run-opening w ops id opening trailed h)
