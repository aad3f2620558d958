-- ===== src/SingleFlight/Progress.antt =====
-- A caller shares what is in flight, and is never left without an answer.
use server_scan.Prelude.{
  ℕ, String, true, false, Option, none, some, Option-cases, Bool-cases, ◌⊎◌, inl, inr, ◌≡◌, refl,
  arith,
}
use server_scan.SingleFlight.{
  Ending, Status, not_created, running, ended, cleaned, Loop, coalesce, create_task, await_task,
  set_status, wake, ending_of, finish, resume, start, Run, here, then,
}
use server_scan.SingleFlight.Invariant.{is_pending, is_created, start-Inv, Run-Inv}

module _ {V : Type 0} where
  -- No task of the key runs or has its done callback still to run.
  abbrev pub IsIdle : String → Loop V → Type 0
  IsIdle key s = (t : ℕ) → (s.tasks t).key ≡ key → is_pending (s.tasks t).status ≡ false

  -- Whatever the loop has done before, a caller either awaits a pending task of its key, one that runs or
  -- whose done callback has still to run, or the key has none and the caller awaits a computation of its
  -- own.
  pub coalesce_shares :
      (s : Loop V)
      → Run start s
      → (caller : ℕ) (key : String)
      → ((t : ℕ) × ((s.tasks t).key ≡ key)
          × (is_pending (s.tasks t).status ≡ true)
          × (coalesce caller key s ≡ await_task caller key t s))
        ⊎ (IsIdle key s
            × (coalesce caller key s ≡ await_task caller key s.next (create_task key s)))
  unfolding coalesce
  coalesce_shares s r caller key =
      let inv = Run-Inv r start-Inv in
      elim (Option-cases (s.inflight key)) [
        | inr (t, e) ↦ let (k, h) = inv.entry key t e in inl (t, k, h, rw e refl)
        | inl free ↦ inr (
          λ t k. elim (Bool-cases (is_pending (s.tasks t).status)) [
            | inr idle ↦ idle
            | inl h ↦ let e = rw k at (inv.registered t h) in cc (e, free)
          ],
          rw free refl,
        )
      ]

  -- The ending of a task, which is `how` if it still runs.
  abbrev pub ended_as : Ending V → Status V → Option (Ending V)
  ended_as how not_created = none
  ended_as how running = some how
  ended_as how (ended e) = some e
  ended_as how (cleaned e) = some e

  -- The loop can go on from `s` to a state in which the caller has received the ending of its task,
  -- which was created for its key.
  pub record Answered (s : Loop V) (caller t : ℕ) (key : String) (how : Ending V) : Type 0 where
    pub last : Loop V
    pub run : Run s last
    pub ending : Ending V
    pub received : last.received caller ≡ some ending
    pub of_task : ended_as how (s.tasks t).status ≡ some ending
    pub of_key : (s.tasks t).key ≡ key

  module _ (s : Loop V) (caller t : ℕ) (key : String) (how : Ending V)
      (a : s.awaited caller ≡ some (key, t)) (k : (s.tasks t).key ≡ key) where
    wake-received : (u : Loop V) (e : Ending V) → (wake caller e u).received caller ≡ some e
    unfolding wake
    wake-received u e = ground arith

    reply_now :
        (e : Ending V)
        → ending_of (s.tasks t).status ≡ some e
        → ended_as how (s.tasks t).status ≡ some e
        → Answered s caller t key how
    reply_now e h f = record {
      last = wake caller e s;
      run = then here (resume s caller t key e a h);
      ending = e;
      received = wake-received s e;
      of_task = f;
      of_key = k;
    }

    reply_later : (s.tasks t).status ≡ running → Answered s caller t key how
    reply_later h =
        let u = set_status t (ended how) s in
        let done : ending_of (u.tasks t).status ≡ some how = ground arith in
        record {
          last = wake caller how u;
          run = then (then here (finish s t how h)) (resume u caller t key how a done);
          ending = how;
          received = wake-received u how;
          of_task = rw h refl;
          of_key = k;
        }

    reply_as :
        (x : Status V) → (s.tasks t).status ≡ x → is_created x ≡ true → Answered s caller t key how
    reply_as not_created e h = cc h
    reply_as running e h = reply_later e
    reply_as (ended x) e h = reply_now x (rw e refl) (rw e refl)
    reply_as (cleaned x) e h = reply_now x (rw e refl) (rw e refl)

  -- From every reachable state the loop can answer a caller that awaits a task, however the task ends,
  -- and the answer is the ending of that task, which was created for the caller's key.
  pub await_task-Answered :
      (s : Loop V)
      → Run start s
      → (caller t : ℕ) (key : String) (how : Ending V) → s.awaited caller ≡ some (key, t)
      → Answered s caller t key how
  await_task-Answered s r caller t key how a =
      let (k, c) = (Run-Inv r start-Inv).waits caller t key a in
      reply_as s caller t key how a k (s.tasks t).status refl c
