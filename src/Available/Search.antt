-- ===== src/Available/Search.antt =====
-- The methods of `AvailableServersService`.
use server_scan.Prelude.{
  ℕ, zero, suc, ◌-◌, String, Bool, true, false, ◌&&◌, Option, none, some, get_or, List, [], ◌∷◌,
  ◌++◌, length, leb, ltb, ◌==◌, dict_get, dict_set, if◌then◌else◌,
}
use server_scan.Prelude.Result.{Result, returned, raised, ◌>>=◌, or_raise}
use server_scan.Enums.{ManagerType, manager_type_value, HealthSeverity}
use server_scan.Available.{
  Candidate, ServerIdentity, NameFilter, matches, matches_either, Filter, selectable_tiers,
  max_rounds, server_still_qualifies, no_such_name, lost_by_manager, no_longer_qualifies,
  no_name_matches, none_assignable, Failure, not_found, invalid_manager_type, AvailableServer, Deps,
  manager_type_of, Session, Filling, from_dependency,
}

-- A recheck: the server as it is now, if its manager still finds it, and whether it was asked.
abbrev pub Rechecked : Type 0 → Type 0 → Type 0
Rechecked W P = (Option Candidate × Bool) × Session W P

module _ {W F P R E : Type 0} (deps : Deps W F P R E) where
  abbrev pub cached : ManagerType → Session W P → Option (Option P) → Option P × Session W P
  cached manager_type s (some provider) = (provider, s)
  cached manager_type s none =
      let provider = deps.provider_factory manager_type in
      (
        provider,
        record s { providers = dict_set (manager_type_value manager_type) provider s.providers },
      )

  -- `_provider_for`
  unfoldable pub provider_for : ManagerType → Session W P → Option P × Session W P
  provider_for manager_type s =
      cached manager_type s (dict_get (manager_type_value manager_type) s.providers)

  abbrev pub identity_of : Candidate → ServerIdentity
  identity_of s = record {
    serial = s.serial;
    external_id = dict_get (get_or s.manager_id "") s.external_ids;
    host = s.bmc_host;
    name = s.name;
  }

  abbrev pub ingest_fresh :
      ManagerType → Session W P → Option R × W → Result (Failure E) (Rechecked W P)
  ingest_fresh manager_type s (none, w) = returned ((none, true), record s { world = w })
  ingest_fresh manager_type s (some fresh, w) =
      from_dependency (deps.ingest_one fresh manager_type w) >>= λ (updated, w').
      returned ((some updated, true), record s { world = w' })

  abbrev pub ask :
      ManagerType → Candidate → Option P × Session W P → Result (Failure E) (Rechecked W P)
  ask manager_type server (none, s) = returned ((some server, false), s)
  ask manager_type server (some provider, s) =
      from_dependency (deps.get_one provider (identity_of server) s.world)
      >>= ingest_fresh manager_type s

  abbrev pub recheck_from :
      Candidate → Session W P → Option String → Result (Failure E) (Rechecked W P)
  recheck_from server s none = returned ((some server, false), s)
  recheck_from server s (some source) =
      or_raise invalid_manager_type (manager_type_of source) >>= λ manager_type.
      ask manager_type server (provider_for manager_type s)

  -- `_recheck`
  unfoldable pub recheck : Candidate → Session W P → Result (Failure E) (Rechecked W P)
  recheck server s = recheck_from server s server.source_provider

  -- `sample_available_tier` of the repository
  abbrev pub sample_available_tier :
      W → Filter F → HealthSeverity → ℕ → List String → List Candidate × W
  sample_available_tier w filters severity zero exclude_ids = ([], w)
  sample_available_tier w filters severity (suc n) exclude_ids =
      deps.sample w filters severity (suc n) exclude_ids

  abbrev pub selected_after : Filling W P → Option Candidate × Bool → List AvailableServer
  selected_after f (none, live) = f.selected
  selected_after f (some s, live) =
      if server_still_qualifies s
      then f.selected ++ record { server = s; live_recheck_performed = live } ∷ []
      else f.selected

  abbrev pub after_recheck : Candidate → Filling W P → (Rechecked W P) → Filling W P
  after_recheck candidate f (found, s) = record {
    session = s;
    selected = selected_after f found;
    tried_ids = candidate.id ∷ f.tried_ids;
  }

  module _ (filters : Filter F) (wanted : ℕ) where
    abbrev pub is_full : Filling W P → Bool
    is_full f = leb wanted (length f.selected)

    abbrev pub has_grown : Filling W P → Filling W P → Bool
    has_grown f next = ltb (length f.selected) (length next.selected)

    -- The loop over the drawn candidates, which breaks where a server that it adds is the last wanted.
    unfoldable pub try_candidates : List Candidate → Filling W P → Result (Failure E) (Filling W P)
    try_candidates [] f = returned f
    try_candidates (c ∷ cs) f = recheck c f.session >>= λ rechecked.
        let next = after_recheck c f rechecked in
        let rest = try_candidates cs next in
        if has_grown f next && is_full next then returned next else rest

    abbrev pub after_draw :
        (Filling W P → Result (Failure E) (Filling W P))
        → Filling W P
        → List Candidate × W
        → Result (Failure E) (Filling W P)
    after_draw next f ([], w) = returned (record f { session = record f.session { world = w } })
    after_draw next f (c ∷ cs, w) =
        try_candidates (c ∷ cs) (record f { session = record f.session { world = w } }) >>= next

    -- The rounds of a tier.
    unfoldable pub rounds : ℕ → HealthSeverity → Filling W P → Result (Failure E) (Filling W P)
    rounds zero tier f = returned f
    rounds (suc n) tier f =
        let go_on = after_draw (rounds n tier) f (
          sample_available_tier f.session.world filters tier (wanted - length f.selected)
            f.tried_ids) in
        if is_full f then returned f else go_on

    unfoldable pub tiers : List HealthSeverity → Filling W P → Result (Failure E) (Filling W P)
    tiers [] f = returned f
    tiers (tier ∷ rest) f =
        let go_on = rounds max_rounds tier f >>= tiers rest in
        if is_full f then returned f else go_on

    -- `_fill_from_tiers`
    unfoldable pub fill_from_tiers : Session W P → Result (Failure E) (Filling W P)
    fill_from_tiers s =
        tiers selectable_tiers (record { session = s; selected = []; tried_ids = [] })

  abbrev pub name_filter_of : String → Option String → NameFilter
  name_filter_of pattern none = matches pattern
  name_filter_of pattern (some alias) = matches_either pattern alias

  -- `lookup_by_pattern`
  unfoldable pub lookup_by_pattern : String → ℕ → F → Session W P → Result (Failure E) (Filling W P)
  lookup_by_pattern pattern wanted extra s =
      let base : Filter F = record {
        name = name_filter_of pattern (deps.expansion_for pattern);
        extra = extra;
        assignable = false;
        severities = [];
      } in
      let assignable = record base { assignable = true } in
      let matching = deps.count s.world base in
      let selectable = deps.count s.world (record assignable { severities = selectable_tiers }) in
      if matching == 0
      then raised (not_found no_name_matches)
      else if selectable == 0
      then raised (not_found none_assignable)
      else fill_from_tiers assignable wanted s

  abbrev pub qualified : (Rechecked W P) → Result (Failure E) AvailableServer
  qualified ((none, live), s) = raised (not_found lost_by_manager)
  qualified ((some server, live), s) =
      if server_still_qualifies server
      then returned (record { server = server; live_recheck_performed = live })
      else raised (not_found no_longer_qualifies)

  -- `lookup_by_name`
  unfoldable pub lookup_by_name : String → F → Session W P → Result (Failure E) AvailableServer
  lookup_by_name name extra s =
      or_raise (not_found no_such_name)
        (deps.find_one_by_name s.world (deps.normalize_text name) extra)
      >>= λ server. recheck server s >>= qualified
