-- ===== src/Available/Lookup.antt =====
-- Every way in which the two lookups end.
use server_scan.Prelude.{
  ℕ, String, true, false, Bool-cases, inl, inr, none, some, Option-cases, [], ◌==◌, ==_iff, ◌≡◌,
  ◌≢◌, ◌↔◌, refl, subst, arith,
}
use server_scan.Prelude.Result.{Result, returned, raised, ◌>>=◌}
use server_scan.Available.{
  Candidate, Filter, selectable_tiers, server_still_qualifies, Failure, not_found, no_such_name,
  lost_by_manager, no_longer_qualifies, no_name_matches, none_assignable, invalid_manager_type,
  dependency, AvailableServer, Deps, Session, Filling,
}
use server_scan.Available.Search.{
  Rechecked, recheck, qualified, name_filter_of, lookup_by_pattern, lookup_by_name,
}
use server_scan.Available.Fill.{Holds, Qualifies, IsFill, fill_from_tiers-Holds, recheck-Holds}

module _ {W F P R E : Type 0} (deps : Deps W F P R E) where
  abbrev pub base_filter : String → F → Filter F
  base_filter pattern extra = record {
    name = name_filter_of deps pattern (deps.expansion_for pattern);
    extra = extra;
    assignable = false;
    severities = [];
  }

  abbrev pub assignable_filter : String → F → Filter F
  assignable_filter pattern extra = record (base_filter pattern extra) { assignable = true }

  -- What the end of a lookup by pattern says of the collection and of the servers returned.
  abbrev pub IsPatternAnswer : W → String → ℕ → F → Result (Failure E) (Filling W P) → Type 0
  IsPatternAnswer w pattern wanted extra (returned f) =
      IsFill deps (assignable_filter pattern extra) wanted f
  IsPatternAnswer w pattern wanted extra (raised (not_found no_name_matches)) =
      deps.count w (base_filter pattern extra) ≡ 0
  IsPatternAnswer w pattern wanted extra (raised (not_found none_assignable)) =
      (deps.count w (base_filter pattern extra) ≢ 0)
      × (deps.count w (record (assignable_filter pattern extra) { severities = selectable_tiers })
          ≡ 0)
  IsPatternAnswer w pattern wanted extra (raised (not_found reason)) = ⊥
  IsPatternAnswer w pattern wanted extra (raised invalid_manager_type) = Unit
  IsPatternAnswer w pattern wanted extra (raised (dependency e)) = Unit

  answer_of_fill :
      (w : W) (pattern : String) (wanted : ℕ) (extra : F) (r : Result (Failure E) (Filling W P))
      → Holds (IsFill deps (assignable_filter pattern extra) wanted) r
      → IsPatternAnswer w pattern wanted extra r
  answer_of_fill w pattern wanted extra (returned f) h = h
  answer_of_fill w pattern wanted extra (raised (not_found reason)) h = absurd h
  answer_of_fill w pattern wanted extra (raised invalid_manager_type) h = tt
  answer_of_fill w pattern wanted extra (raised (dependency e)) h = tt

  -- A lookup by pattern returns servers that qualified when they were checked, no more than were asked
  -- for; it says that no name matches only if none does, and that none is assignable only if names
  -- match and no stored server of theirs is; all other errors are those of a collector or of a stored
  -- collector type.
  pub lookup_by_pattern-IsPatternAnswer :
      (pattern : String) (wanted : ℕ) (extra : F) (s : Session W P)
      → IsPatternAnswer s.world pattern wanted extra (lookup_by_pattern deps pattern wanted extra s)
  unfolding lookup_by_pattern
  lookup_by_pattern-IsPatternAnswer pattern wanted extra s =
      let matching = deps.count s.world (base_filter pattern extra) in
      let selectable =
        deps.count s.world
          (record (assignable_filter pattern extra) { severities = selectable_tiers }) in
      elim (Bool-cases (matching == 0)) [
        | inl none_match ↦ rw none_match ((==_iff matching 0).0 none_match)
        | inr some_match ↦ elim (Bool-cases (selectable == 0)) [
          | inl none_left ↦
              rw (some_match, none_left)
                ((λ e. ground (arith, e)), (==_iff selectable 0).0 none_left)
          | inr some_left ↦
              rw (some_match, some_left)
                (answer_of_fill s.world pattern wanted extra _
                  (fill_from_tiers-Holds deps (assignable_filter pattern extra) wanted s))
        ]
      ]

  -- The collection has a server of the name.
  abbrev pub IsStored : W → String → F → Type 0
  IsStored w name extra = deps.find_one_by_name w (deps.normalize_text name) extra ≢ none

  abbrev pub IsNameAnswer : W → String → F → Result (Failure E) AvailableServer → Type 0
  IsNameAnswer w name extra (returned a) = Qualifies a × IsStored w name extra
  IsNameAnswer w name extra (raised (not_found no_such_name)) =
      deps.find_one_by_name w (deps.normalize_text name) extra ≡ none
  IsNameAnswer w name extra (raised (not_found lost_by_manager)) = IsStored w name extra
  IsNameAnswer w name extra (raised (not_found no_longer_qualifies)) = IsStored w name extra
  IsNameAnswer w name extra (raised (not_found reason)) = ⊥
  IsNameAnswer w name extra (raised invalid_manager_type) = IsStored w name extra
  IsNameAnswer w name extra (raised (dependency e)) = IsStored w name extra

  qualified-IsNameAnswer :
      (w : W) (name : String) (extra : F) (c : Candidate) (r : Result (Failure E) (Rechecked W P))
      → deps.find_one_by_name w (deps.normalize_text name) extra ≡ some c
      → Holds (λ _. Unit) r
      → IsNameAnswer w name extra (r >>= qualified deps)
  qualified-IsNameAnswer w name extra c (returned ((none, live), s)) e h = λ f. cc (e, f)
  qualified-IsNameAnswer w name extra c (returned ((some server, live), s)) e h =
      elim (Bool-cases (server_still_qualifies server)) [
        | inl q ↦ rw q (q, λ f. cc (e, f))
        | inr q ↦ rw q (λ f. cc (e, f))
      ]
  qualified-IsNameAnswer w name extra c (raised (not_found reason)) e h = absurd h
  qualified-IsNameAnswer w name extra c (raised invalid_manager_type) e h = λ f. cc (e, f)
  qualified-IsNameAnswer w name extra c (raised (dependency x)) e h = λ f. cc (e, f)

  -- A lookup by name says that there is no such name exactly where the collection has none: every other
  -- ending is one for a stored server, namely a server that qualified when it was checked, the two
  -- other reasons of the 404, or the error of a collector or of a stored collector type.
  pub lookup_by_name-IsNameAnswer :
      (name : String) (extra : F) (s : Session W P)
      → IsNameAnswer s.world name extra (lookup_by_name deps name extra s)
        × ((lookup_by_name deps name extra s ≡ raised (not_found no_such_name))
            ↔ (deps.find_one_by_name s.world (deps.normalize_text name) extra ≡ none))
  unfolding lookup_by_name
  lookup_by_name-IsNameAnswer name extra s =
      elim (Option-cases (deps.find_one_by_name s.world (deps.normalize_text name) extra)) [
        | inl gone ↦ rw gone (gone, ((λ _. refl), (λ _. refl)))
        | inr (c, found) ↦
            let answer =
              qualified-IsNameAnswer s.world name extra c (recheck deps c s) found
                (recheck-Holds deps c s) in
            rw found (
              answer,
              (
                λ e. let f = subst (IsNameAnswer s.world name extra) e answer in cc (f, found),
                λ f. cc f,
              ),
            )
      ]
