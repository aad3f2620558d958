-- ===== src/SingleFlight.antt =====
-- infrastructure/singleflight.py: the table of computations in flight, shared by the callers that ask
-- for one key. The event loop is a step relation: between two steps any caller may arrive or be
-- cancelled, and a task that has ended is cleaned up in a later step, as done callbacks are.
pub mod Invariant
pub mod Progress
pub mod Examples
use server_scan.Prelude.{
  ℕ, suc, String, Bool, true, false, Option, none, some, List, [], ◌∷◌, str_eq, ◌==◌, ◌≡◌,
  if◌then◌else◌,
}

-- How a task ends.
pub data Ending (V : Type 0) : Type 0 where
  result : V → Ending V
  exception : String → Ending V
  cancelled : Ending V

-- `ended` until its done callback has run, `cleaned` after.
pub data Status (V : Type 0) : Type 0 where
  not_created running : Status V
  ended cleaned : Ending V → Status V

pub record Task (V : Type 0) : Type 0 where
  pub key : String
  pub status : Status V

-- `_inflight`, the tasks of the loop by number, and the callers: what each awaits and has received.
pub record Loop (V : Type 0) : Type 0 where
  pub inflight : String → Option ℕ
  pub tasks : ℕ → Task V
  pub next : ℕ
  pub awaited : ℕ → Option (String × ℕ)
  pub received : ℕ → Option (Ending V)
  pub warnings : List String

abbrev pub at_id {ℓ} : {A : Type ℓ} → ℕ → A → (ℕ → A) → ℕ → A
at_id i a f j = if i == j then a else f j

abbrev pub at_key {ℓ} : {A : Type ℓ} → String → A → (String → A) → String → A
at_key k a f j = if str_eq k j then a else f j

abbrev pub is_task : ℕ → Option ℕ → Bool
is_task t none = false
is_task t (some u) = u == t

module _ {V : Type 0} where
  abbrev pub await_task : ℕ → String → ℕ → Loop V → Loop V
  await_task caller key t s = record s { awaited = at_id caller (some (key, t)) s.awaited }

  abbrev pub create_task : String → Loop V → Loop V
  create_task key s = record s {
    inflight = at_key key (some s.next) s.inflight;
    tasks = at_id s.next (record { key = key; status = running }) s.tasks;
    next = suc s.next;
  }

  abbrev pub coalesce_with : ℕ → String → Loop V → Option ℕ → Loop V
  coalesce_with caller key s none = await_task caller key s.next (create_task key s)
  coalesce_with caller key s (some t) = await_task caller key t s

  -- `coalesce` up to its `await`
  unfoldable pub coalesce : ℕ → String → Loop V → Loop V
  coalesce caller key s = coalesce_with caller key s (s.inflight key)

  abbrev pub set_status : ℕ → Status V → Loop V → Loop V
  set_status t status s = record s {
    tasks = at_id t (record { key = (s.tasks t).key; status = status }) s.tasks;
  }

  abbrev pub warning_of : String → Ending V → List String → List String
  warning_of key (result v) log = log
  warning_of key (exception error) log = key ∷ log
  warning_of key cancelled log = log

  -- `_cleanup`
  unfoldable pub cleanup : ℕ → Ending V → Loop V → Loop V
  cleanup t ending s =
      let key = (s.tasks t).key in
      record (set_status t (cleaned ending) s) {
        inflight = if is_task t (s.inflight key) then at_key key none s.inflight else s.inflight;
        warnings = warning_of key ending s.warnings;
      }

  -- A caller is cancelled at its `await`: the shield keeps its task out of it.
  unfoldable pub cancel_caller : ℕ → Loop V → Loop V
  cancel_caller caller s = record s {
    awaited = at_id caller none s.awaited;
    received = at_id caller (some cancelled) s.received;
  }

  unfoldable pub wake : ℕ → Ending V → Loop V → Loop V
  wake caller ending s = record s {
    awaited = at_id caller none s.awaited;
    received = at_id caller (some ending) s.received;
  }

  abbrev pub ending_of : Status V → Option (Ending V)
  ending_of not_created = none
  ending_of running = none
  ending_of (ended e) = some e
  ending_of (cleaned e) = some e

  pub data Step : Loop V → Loop V → Type 0 where
    call :
        (s : Loop V) (caller : ℕ) (key : String)
        → s.awaited caller ≡ none
        → Step s (coalesce caller key s)
    -- `cancelled` where `drain` cancels the task
    finish :
        (s : Loop V) (t : ℕ) (e : Ending V)
        → (s.tasks t).status ≡ running
        → Step s (set_status t (ended e) s)
    clean :
        (s : Loop V) (t : ℕ) (e : Ending V) → (s.tasks t).status ≡ ended e → Step s (cleanup t e s)
    cancel : (s : Loop V) (caller : ℕ) → Step s (cancel_caller caller s)
    resume :
        (s : Loop V) (caller t : ℕ) (key : String) (e : Ending V)
        → s.awaited caller ≡ some (key, t)
        → ending_of (s.tasks t).status ≡ some e
        → Step s (wake caller e s)

  abbrev pub start : Loop V
  start = record {
    inflight = λ key. none;
    tasks = λ t. record { key = ""; status = not_created };
    next = 0;
    awaited = λ caller. none;
    received = λ caller. none;
    warnings = [];
  }

  pub data Run (s : Loop V) : Loop V → Type 0 where
    here : Run s s
    then : {t u : Loop V} → Run s t → Step t u → Run s u
