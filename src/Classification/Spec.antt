-- ===== src/Classification/Spec.antt =====
-- What the rules say of one server, apart from the loop that finds it out.
use server_scan.Prelude.{
  String, Bool, true, false, not, ◌&&◌, Option, none, some, is_some, List, [], ◌∷◌, ◌++◌, refl, ◌≡◌,
  if◌then◌else◌, arith, ◌⊎◌, inl, inr,
}
use server_scan.Classification.{
  ClassifiableServer, ClassificationRule, RegexEngine, Search, hit, timed_out, Scan, Round, go_on,
  stop, scan, is_classifiable, extract_field, on_match, on_search, on_value, round, tied,
  same_installation_type,
}

abbrev pub hit_on : String → Search → Option String
hit_on value hit = some value
hit_on value _ = none

abbrev pub searched : RegexEngine → ClassificationRule → Option String → Option String
searched engine r none = none
searched engine r (some value) = hit_on value (engine.search r.pattern value r.flags)

abbrev pub is_timeout : Search → Bool
is_timeout timed_out = true
is_timeout _ = false

abbrev pub gave_up : RegexEngine → ClassificationRule → Option String → Bool
gave_up engine r none = false
gave_up engine r (some value) = is_timeout (engine.search r.pattern value r.flags)

module _ (server : ClassifiableServer) (engine : RegexEngine) where
  -- The value on which the rule's pattern matches, if its field is known and set.
  unfoldable pub matched_value : ClassificationRule → Option String
  matched_value r =
      if is_classifiable r.field then searched engine r (extract_field server r.field) else none

  -- The first rule of a list that matches.
  unfoldable pub first_match : List ClassificationRule → Option (ClassificationRule × String)
  first_match [] = none
  first_match (r ∷ rs) = elim (matched_value r) [
    | some value ↦ some (r, value)
    | none ↦ first_match rs
  ]

  pub round_hit :
      (s : Scan) (r : ClassificationRule) (value : String)
      → matched_value r ≡ some value
      → round server engine s r ≡ on_match s r value s.winner
  unfolding matched_value round on_value on_search
  round_hit s r value h = ground arith

  -- The search for the rule's pattern gives up.
  unfoldable pub times_out : ClassificationRule → Bool
  times_out r =
      if is_classifiable r.field then gave_up engine r (extract_field server r.field) else false

  abbrev pub errors_after : List String → ClassificationRule → List String
  errors_after errors r = if times_out r then errors ++ r.id ∷ [] else errors

  -- A rule that does not match changes at most the list of timeouts.
  pub round_miss :
      (s : Scan) (r : ClassificationRule)
      → matched_value r ≡ none
      → round server engine s r ≡ go_on (record s { errors = errors_after s.errors r })
  unfolding matched_value times_out round on_value on_search
  round_miss s r h = ground arith

module _ (server : ClassifiableServer) (engine : RegexEngine) where
  -- A search that matches did not give up.
  pub times_out-matched :
      (r : ClassificationRule) (value : String)
      → matched_value server engine r ≡ some value
      → times_out server engine r ≡ false
  unfolding matched_value times_out
  times_out-matched r value h = ground arith

pub Round-cases : (r : Round) → ((s : Scan) × (r ≡ go_on s)) ⊎ ((s : Scan) × (r ≡ stop s))
Round-cases (go_on s) = inl (s, refl)
Round-cases (stop s) = inr (s, refl)

module _ (server : ClassifiableServer) (engine : RegexEngine) where
  pub scan-go_on :
      (s s' : Scan) (r : ClassificationRule) (rs : List ClassificationRule)
      → round server engine s r ≡ go_on s'
      → scan server engine s (r ∷ rs) ≡ scan server engine s' rs
  unfolding scan
  scan-go_on s s' r rs h = rw (h, scan)

  pub scan-stop :
      (s s' : Scan) (r : ClassificationRule) (rs : List ClassificationRule)
      → round server engine s r ≡ stop s'
      → scan server engine s (r ∷ rs) ≡ s'
  unfolding scan
  scan-stop s s' r rs h = rw (h, scan)

-- A rule that matches, ties with the winner and wants another type.
unfoldable pub disputes :
    ClassifiableServer → RegexEngine → ClassificationRule → ClassificationRule → Bool
disputes server engine w r =
    is_some (matched_value server engine r)
    && (tied r w && not (same_installation_type r.installation_type w.installation_type))
