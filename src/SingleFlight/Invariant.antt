-- ===== src/SingleFlight/Invariant.antt =====
-- What holds of the table in every state of the loop: an entry is a task of its key that is still to
-- be cleaned up, and every such task is an entry.
use server_scan.Prelude.{
  Option-cases, ℕ, ◌<◌, String, Bool, true, false, inl, inr, none, some, eq_iff, ◌==◌, ◌≡◌, arith,
}
use server_scan.SingleFlight.{
  Ending, Status, not_created, running, ended, cleaned, Loop, coalesce, create_task, await_task,
  set_status, cleanup, cancel_caller, wake, Step, call, finish, clean, cancel, resume, start, Run,
  here, then,
}

-- The task runs, or its done callback has still to run.
abbrev pub is_pending : {V : Type 0} → Status V → Bool
is_pending not_created = false
is_pending running = true
is_pending (ended e) = true
is_pending (cleaned e) = false

abbrev pub is_created : {V : Type 0} → Status V → Bool
is_created not_created = false
is_created _ = true

pub record Inv {V : Type 0} (s : Loop V) : Type 0 where
  pub entry :
      (key : String) (t : ℕ)
      → s.inflight key ≡ some t
      → ((s.tasks t).key ≡ key) × (is_pending (s.tasks t).status ≡ true)
  pub registered :
      (t : ℕ) → is_pending (s.tasks t).status ≡ true → s.inflight (s.tasks t).key ≡ some t
  pub created : (t : ℕ) → is_created (s.tasks t).status ≡ true → t < s.next
  pub waits :
      (caller t : ℕ) (key : String)
      → s.awaited caller ≡ some (key, t)
      → ((s.tasks t).key ≡ key) × (is_created (s.tasks t).status ≡ true)

module _ {V : Type 0} where
  pub start-Inv : Inv (start {V = V})
  start-Inv = record {
    entry = λ key t e. cc e;
    registered = λ t e. cc e;
    created = λ t e. cc e;
    waits = λ caller t key e. cc e;
  }

  await_task-Inv :
      (s : Loop V) (caller t : ℕ) (key : String)
      → Inv s
      → (s.tasks t).key ≡ key
      → is_created (s.tasks t).status ≡ true
      → Inv (await_task caller key t s)
  await_task-Inv s caller t key inv e h = record {
    entry = inv.entry;
    registered = inv.registered;
    created = inv.created;
    waits = λ c u k a. ground (arith, inv.waits c u k);
  }

  create_task-Inv :
      (s : Loop V) (key : String) → Inv s → s.inflight key ≡ none → Inv (create_task key s)
  create_task-Inv s key inv free = record {
    entry = λ k t e. ground (arith, eq_iff key k, inv.entry k t, inv.created t);
    registered =
        λ t e. ground (arith, eq_iff key (s.tasks t).key, eq_iff key key, inv.registered t);
    created = λ t e. ground (arith, inv.created t);
    waits = λ c t k a. ground (arith, inv.waits c t k, inv.created t);
  }

  coalesce-Inv : (s : Loop V) (caller : ℕ) (key : String) → Inv s → Inv (coalesce caller key s)
  unfolding coalesce
  coalesce-Inv s caller key inv = elim (Option-cases (s.inflight key)) [
    | inl free ↦ rw free (
        await_task-Inv (create_task key s) caller s.next key (create_task-Inv s key inv free)
          (ground arith) (ground arith))
    | inr (t, found) ↦
        let (e, h) = inv.entry key t found in
        rw found (await_task-Inv s caller t key inv e (ground arith))
  ]

  finish-Inv :
      (s : Loop V) (t : ℕ) (e : Ending V)
      → (s.tasks t).status ≡ running
      → Inv s
      → Inv (set_status t (ended e) s)
  finish-Inv s t e h inv = record {
    entry = λ k u f. ground (arith, inv.entry k u);
    registered = λ u f. ground (arith, inv.registered u);
    created = λ u f. ground (arith, inv.created u);
    waits = λ c u k a. ground (arith, inv.waits c u k);
  }

  cleanup-Inv :
      (s : Loop V) (t : ℕ) (e : Ending V)
      → (s.tasks t).status ≡ ended e
      → Inv s
      → Inv (cleanup t e s)
  unfolding cleanup
  cleanup-Inv s t e h inv =
      let here : s.inflight (s.tasks t).key ≡ some t = inv.registered t (ground arith) in
      let same : (t == t) ≡ true = ground arith in
      rw (here, same)
        (record {
          entry = λ k u f. ground (arith, eq_iff (s.tasks t).key k, inv.entry k u);
          registered =
              λ u f. ground (arith, eq_iff (s.tasks t).key (s.tasks u).key, inv.registered u);
          created = λ u f. ground (arith, inv.created u);
          waits = λ c u k a. ground (arith, inv.waits c u k);
        })

  wake-Inv : (s : Loop V) (caller : ℕ) (e : Ending V) → Inv s → Inv (wake caller e s)
  unfolding wake
  wake-Inv s caller e inv = record {
    entry = inv.entry;
    registered = inv.registered;
    created = inv.created;
    waits = λ c u k a. ground (arith, inv.waits c u k);
  }

  cancel_caller-Inv : (s : Loop V) (caller : ℕ) → Inv s → Inv (cancel_caller caller s)
  unfolding cancel_caller
  cancel_caller-Inv s caller inv = record {
    entry = inv.entry;
    registered = inv.registered;
    created = inv.created;
    waits = λ c u k a. ground (arith, inv.waits c u k);
  }

  Step-Inv : {s u : Loop V} → Step s u → Inv s → Inv u
  Step-Inv (call s caller key _) inv = coalesce-Inv s caller key inv
  Step-Inv (finish s t e h) inv = finish-Inv s t e h inv
  Step-Inv (clean s t e h) inv = cleanup-Inv s t e h inv
  Step-Inv (cancel s caller) inv = cancel_caller-Inv s caller inv
  Step-Inv (resume s caller t key e _ _) inv = wake-Inv s caller e inv

  pub Run-Inv : {s u : Loop V} → Run s u → Inv s → Inv u
  Run-Inv here inv = inv
  Run-Inv (then r st) inv = Step-Inv st (Run-Inv r inv)

  -- In every state that the loop can reach, two running computations of one key are the same task.
  pub one_computation :
      (s : Loop V)
      → Run start s
      → (t u : ℕ) → (s.tasks t).status ≡ running
      → (s.tasks u).status ≡ running
      → (s.tasks t).key ≡ (s.tasks u).key
      → t ≡ u
  one_computation s r t u h k e =
      let inv = Run-Inv r start-Inv in ground (arith, inv.registered t, inv.registered u)

  -- Once every task of a reachable state has been cleaned up, the table is empty: no key is leaked.
  pub cleaned_table_is_empty :
      (s : Loop V)
      → Run start s
      → ((t : ℕ) → is_pending (s.tasks t).status ≡ false)
      → (key : String) → s.inflight key ≡ none
  cleaned_table_is_empty s r h key = elim (Option-cases (s.inflight key)) [
    | inl free ↦ free
    | inr (t, found) ↦
        let inv = Run-Inv r start-Inv in
        let (_, pending) = inv.entry key t found in absurd (ground (arith, h t))
  ]
