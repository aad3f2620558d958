-- ===== src/Available/Fill.antt =====
-- What the fill returns: servers that qualify, at most as many as were asked for.
use server_scan.Prelude.{
  Option-cases, ◌⊎◌, ℕ, zero, suc, ◌-◌, ◌<◌, ◌≤◌, String, Bool, true, false, ◌&&◌, Bool-cases, inl,
  inr, Option, none, some, List, [], ◌∷◌, ◌++◌, length, length-append, leb, ltb, ◌≡◌, refl, All,
  All-append, arith, if◌then◌else◌,
}
use server_scan.Prelude.Result.{Result, returned, raised, ◌>>=◌}
use server_scan.Enums.{HealthSeverity, ManagerType}
use server_scan.Available.{
  Candidate, Filter, max_rounds, selectable_tiers, server_still_qualifies, Failure, not_found,
  invalid_manager_type, dependency, AvailableServer, Deps, Session, Filling, from_dependency,
  manager_type_of,
}
use server_scan.Available.Search.{
  recheck, recheck_from, provider_for, identity_of, ask, ingest_fresh, selected_after,
  after_recheck, is_full, has_grown, try_candidates, after_draw, rounds, tiers, fill_from_tiers,
  sample_available_tier,
}

-- The call returns what satisfies `P`, or a collector has failed: it does not report an empty result.
abbrev pub Holds {ℓ} : {E : Type 0} {A : Type ℓ} → (A → Type 0) → Result (Failure E) A → Type 0
Holds P (returned a) = P a
Holds P (raised (not_found reason)) = ⊥
Holds P (raised invalid_manager_type) = Unit
Holds P (raised (dependency e)) = Unit

bind-Holds {ℓ κ} :
    {E : Type 0} {A : Type ℓ} {B : Type κ} (P : A → Type 0) (Q : B → Type 0)
    (m : Result (Failure E) A) (f : A → Result (Failure E) B)
    → Holds P m
    → ((a : A) → P a → Holds Q (f a))
    → Holds Q (m >>= f)
bind-Holds P Q (returned a) f h k = k a h
bind-Holds P Q (raised (not_found reason)) f h k = absurd h
bind-Holds P Q (raised invalid_manager_type) f h k = tt
bind-Holds P Q (raised (dependency e)) f h k = tt

abbrev pub Qualifies : AvailableServer → Type 0
Qualifies a = server_still_qualifies a.server ≡ true

module _ {W F P R E : Type 0} (deps : Deps W F P R E) where
  abbrev Anything {ℓ} : {A : Type ℓ} → A → Type 0
  Anything a = Unit

  from_dependency-Holds {ℓ} : {A : Type ℓ} (r : Result E A) → Holds Anything (from_dependency r)
  from_dependency-Holds (returned a) = tt
  from_dependency-Holds (raised e) = tt

  ingest_fresh-Holds :
      (m : ManagerType) (s : Session W P) (fresh : Option R × W)
      → Holds Anything (ingest_fresh deps m s fresh)
  ingest_fresh-Holds m s (none, w) = tt
  ingest_fresh-Holds m s (some fresh, w) =
      bind-Holds Anything Anything (from_dependency (deps.ingest_one fresh m w)) _
        (from_dependency-Holds (deps.ingest_one fresh m w)) (λ a _. tt)

  ask-Holds :
      (m : ManagerType) (c : Candidate) (provider : Option P × Session W P)
      → Holds Anything (ask deps m c provider)
  ask-Holds m c (none, s) = tt
  ask-Holds m c (some provider, s) =
      bind-Holds Anything Anything
        (from_dependency (deps.get_one provider (identity_of deps c) s.world)) _
        (from_dependency-Holds (deps.get_one provider (identity_of deps c) s.world))
        (λ fresh _. ingest_fresh-Holds m s fresh)

  recheck_from-Holds :
      (c : Candidate) (s : Session W P) (source : Option String)
      → Holds Anything (recheck_from deps c s source)
  recheck_from-Holds c s none = tt
  recheck_from-Holds c s (some source) = elim (Option-cases (manager_type_of source)) [
    | inl e ↦ rw e tt
    | inr (m, e) ↦ rw e (ask-Holds m c (provider_for deps m s))
  ]

  pub recheck-Holds : (c : Candidate) (s : Session W P) → Holds Anything (recheck deps c s)
  unfolding recheck
  recheck-Holds c s = recheck_from-Holds c s c.source_provider

  -- One more server at most, and only one that qualifies.
  selected_after-cases :
      (f : Filling W P) (found : Option Candidate × Bool)
      → (selected_after deps f found ≡ f.selected)
        ⊎ ((a : AvailableServer) × (selected_after deps f found ≡ f.selected ++ a ∷ [])
            × Qualifies a)
  selected_after-cases f (none, live) = inl refl
  selected_after-cases f (some s, live) = elim (Bool-cases (server_still_qualifies s)) [
    | inl e ↦ inr (record { server = s; live_recheck_performed = live }, rw e refl, e)
    | inr e ↦ inl (rw e refl)
  ]

  module _ (filters : Filter F) (wanted : ℕ) where
    -- Every selected server qualified when it was checked, and there are not too many.
    abbrev pub IsFill : Filling W P → Type 0
    IsFill f = All Qualifies f.selected × (length f.selected ≤ wanted)

    next-Holds :
        (f : Filling W P) (next : Filling W P) (rest : Result (Failure E) (Filling W P))
        → (next.selected ≡ f.selected)
          ⊎ ((a : AvailableServer) × (next.selected ≡ f.selected ++ a ∷ []) × Qualifies a)
        → All Qualifies f.selected
        → length f.selected < wanted
        → (All Qualifies next.selected → length next.selected < wanted → Holds IsFill rest)
        → Holds IsFill (
            if has_grown deps filters wanted f next && is_full deps filters wanted next
            then returned next
            else rest)
    next-Holds f next rest (inl same) h k go =
        let quiet : ltb (length f.selected) (length next.selected) ≡ false =
          rw same (ground arith) in
        rw quiet (go (rw same h) (rw same k))
    next-Holds f next rest (inr (a, grown, q)) h k go =
        let all : All Qualifies next.selected =
          rw grown (All-append Qualifies f.selected (a ∷ []) h (q, tt)) in
        let longer : length next.selected ≡ suc (length f.selected) =
          rw grown (omega (arith, length-append f.selected (a ∷ []))) in
        let grew : ltb (length f.selected) (length next.selected) ≡ true = ground arith in
        elim (Bool-cases (leb wanted (length next.selected))) [
          | inl full ↦ rw (grew, full) (all, omega arith)
          | inr room ↦ rw (grew, room) (go all (ground arith))
        ]

    try_candidates-Holds :
        (cs : List Candidate) (f : Filling W P)
        → All Qualifies f.selected
        → length f.selected < wanted
        → Holds IsFill (try_candidates deps filters wanted cs f)
    unfolding try_candidates
    try_candidates-Holds [] f h k = (h, omega arith)
    try_candidates-Holds (c ∷ cs) f h k =
        bind-Holds Anything IsFill (recheck deps c f.session) _ (recheck-Holds c f.session)
          (λ rechecked _.
            next-Holds f (after_recheck deps c f rechecked) _ (selected_after-cases f rechecked.0) h
              k (λ h' k'. try_candidates-Holds cs (after_recheck deps c f rechecked) h' k'))

    draw-Holds :
        (next : Filling W P → Result (Failure E) (Filling W P))
        → ((g : Filling W P) → IsFill g → Holds IsFill (next g))
        → (f : Filling W P) (drawn : List Candidate × W) → All Qualifies f.selected
        → length f.selected < wanted
        → Holds IsFill (after_draw deps filters wanted next f drawn)
    draw-Holds next go f ([], w) h k = (h, omega arith)
    draw-Holds next go f (c ∷ cs, w) h k =
        bind-Holds IsFill IsFill
          (try_candidates deps filters wanted (c ∷ cs)
            (record f { session = record f.session { world = w } }))
          next
          (try_candidates-Holds (c ∷ cs) (record f { session = record f.session { world = w } }) h
            k)
          go

    rounds-Holds :
        (n : ℕ) (tier : HealthSeverity) (f : Filling W P)
        → IsFill f
        → Holds IsFill (rounds deps filters wanted n tier f)
    unfolding rounds
    rounds-Holds zero tier f h = h
    rounds-Holds (suc n) tier f (h, k) = elim (Bool-cases (leb wanted (length f.selected))) [
      | inl full ↦ rw full (h, k)
      | inr room ↦
          let drawn =
            sample_available_tier deps f.session.world filters tier (wanted - length f.selected)
              f.tried_ids in
          rw room (
            draw-Holds (rounds deps filters wanted n tier) (λ g. rounds-Holds n tier g) f drawn h
              (ground arith))
    ]

    tiers-Holds :
        (ts : List HealthSeverity) (f : Filling W P)
        → IsFill f
        → Holds IsFill (tiers deps filters wanted ts f)
    unfolding tiers
    tiers-Holds [] f h = h
    tiers-Holds (tier ∷ rest) f h = elim (Bool-cases (leb wanted (length f.selected))) [
      | inl full ↦ rw full h
      | inr room ↦ rw room (
          bind-Holds IsFill IsFill (rounds deps filters wanted max_rounds tier f)
            (tiers deps filters wanted rest) (rounds-Holds max_rounds tier f h)
            (λ g. tiers-Holds rest g))
    ]

    pub fill_from_tiers-Holds :
        (s : Session W P) → Holds IsFill (fill_from_tiers deps filters wanted s)
    unfolding fill_from_tiers
    fill_from_tiers-Holds s =
        tiers-Holds selectable_tiers (record { session = s; selected = []; tried_ids = [] })
          (tt, omega arith)
