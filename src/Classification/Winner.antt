-- ===== src/Classification/Winner.antt =====
-- Which rule the classifier picks: the best of all that match, whatever the order of the rules.
use mathlib.Core.List.{Memᴰ, Permᴰ}
use server_scan.Prelude.{
  String, Time, true, none, some, is_some, str_leb_antisymm, List, [], ◌∷◌, refl, subst, ◌⊎◌, ◌≡◌,
  ◌≢◌, ◌↔◌, All, All-map, All-perm, All-of_filter, All-to_filter, filter-perm, All-Memᴰ, filter,
  arith, Option-cases, inl, inr,
}
use server_scan.Prelude.Sort.{IsSorted}
use server_scan.Prelude.Sort.Laws.{le_refl, sort-IsSorted, sort-All, sort-perm}
use server_scan.Prelude.Sort.Unique.{
  Apart, HasDistinctKeys, HasDistinctKeys-filter, sort-eq_of_perm,
}
use server_scan.Classification.{
  ClassifiableServer, ClassificationRule, RegexEngine, Scan, go_on, stop, start, on_match, round,
  scan, is_candidate, candidates, sort_key, result_of, classify,
}
use server_scan.Classification.Spec.{
  matched_value, first_match, round_hit, round_miss, errors_after, Round-cases, scan-go_on,
  scan-stop,
}

module _ (server : ClassifiableServer) (engine : RegexEngine) where
  round_kept :
      (s s' : Scan) (r : ClassificationRule) {p : ClassificationRule × String}
      → s.winner ≡ some p
      → round server engine s r ≡ go_on s'
      → s'.winner ≡ some p
  unfolding on_match
  round_kept s s' r h e = elim (Option-cases (matched_value server engine r)) [
    | inl miss ↦ ground (arith, round_miss server engine s r miss)
    | inr (v, found) ↦ ground (arith, round_hit server engine s r v found)
  ]

  round_stopped :
      (s s' : Scan) (r : ClassificationRule) → round server engine s r ≡ stop s' → s' ≡ s
  unfolding on_match
  round_stopped s s' r e = elim (Option-cases (matched_value server engine r)) [
    | inl miss ↦ ground (arith, round_miss server engine s r miss)
    | inr (v, found) ↦ ground (arith, round_hit server engine s r v found)
  ]

  -- Once there is a winner, it stays.
  winner_kept :
      (s : Scan) (rs : List ClassificationRule) {p : ClassificationRule × String}
      → s.winner ≡ some p
      → (scan server engine s rs).winner ≡ some p
  unfolding scan
  winner_kept s [] h = h
  winner_kept s (r ∷ rs) h = elim (Round-cases (round server engine s r)) [
    | inl (s', e) ↦
        rw (scan-go_on server engine s s' r rs e) (winner_kept s' rs (round_kept s s' r h e))
    | inr (s', e) ↦ rw (scan-stop server engine s s' r rs e) (rw (round_stopped s s' r e) h)
  ]

  -- Before there is one, the first rule that matches becomes it.
  scan-winner :
      (s : Scan) (rs : List ClassificationRule)
      → s.winner ≡ none
      → (scan server engine s rs).winner ≡ first_match server engine rs
  unfolding first_match on_match
  scan-winner s [] h = unfold scan in h
  scan-winner s (r ∷ rs) h = elim (Option-cases (matched_value server engine r)) [
    | inl miss ↦
        let s' : Scan = record s { errors = errors_after server engine s.errors r } in
        rw
          (
            scan-go_on server engine s s' r rs (round_miss server engine s r miss),
            miss,
            first_match,
          )
          (scan-winner s' rs h)
    | inr (v, found) ↦
        let s' : Scan = record s { winner = some (r, v) } in
        let e : round server engine s r ≡ go_on s' =
          ground (arith, round_hit server engine s r v found) in
        rw (scan-go_on server engine s s' r rs e, found, first_match) (winner_kept s' rs refl)
  ]

  pub first_match-cases :
      (r : ClassificationRule) (rs : List ClassificationRule) {w : ClassificationRule} {v : String}
      → first_match server engine (r ∷ rs) ≡ some (w, v)
      → (matched_value server engine r ≡ none) × (first_match server engine rs ≡ some (w, v))
        ⊎ (r ≡ w) × (matched_value server engine r ≡ some v)
  unfolding first_match
  first_match-cases r rs h = ground arith

  first_match-All :
      (P : ClassificationRule → Type 0) (rs : List ClassificationRule) {w : ClassificationRule}
      {v : String}
      → first_match server engine rs ≡ some (w, v)
      → All P rs
      → P w × (matched_value server engine w ≡ some v)
  first_match-All P [] h a = unfold first_match in cc
  first_match-All P (r ∷ rs) {v = v} h (p, a) = elim (first_match-cases r rs h) [
    | inl (miss, later) ↦ first_match-All P rs later a
    | inr (e, found) ↦ (subst P e p, subst (λ q. matched_value server engine q ≡ some v) e found)
  ]

  -- In a sorted list no rule that matches comes before the first one.
  first_match-IsBelow :
      (rs : List ClassificationRule) {w : ClassificationRule} {v : String}
      → first_match server engine rs ≡ some (w, v)
      → IsSorted sort_key rs
      → All (λ r. is_some (matched_value server engine r) ≡ true → sort_key.le w r ≡ true) rs
  first_match-IsBelow [] h s = tt
  first_match-IsBelow (r ∷ rs) {w} h (below, s) = elim (first_match-cases r rs h) [
    | inl (miss, later) ↦ (λ m. cc (miss, m), first_match-IsBelow rs later s)
    | inr (e, found) ↦
        subst
          (λ q.
            All (λ r'. is_some (matched_value server engine r') ≡ true → sort_key.le q r' ≡ true)
              (r ∷ rs))
          e ((λ _. le_refl sort_key r), All-map _ rs (λ r' k _. k) below)
  ]

  first_match-none :
      (rs : List ClassificationRule)
      → first_match server engine rs ≡ none
      → All (λ r. matched_value server engine r ≡ none) rs
  unfolding first_match
  first_match-none [] h = tt
  first_match-none (r ∷ rs) h = elim (Option-cases (matched_value server engine r)) [
    | inl miss ↦ (miss, first_match-none rs (rw (miss, first_match) at h))
    | inr (v, found) ↦ let e = rw (found, first_match) at h in cc e
  ]

module _ (server : ClassifiableServer) (engine : RegexEngine) where
  first_match_of_none :
      (rs : List ClassificationRule)
      → All (λ r. matched_value server engine r ≡ none) rs
      → first_match server engine rs ≡ none
  unfolding first_match
  first_match_of_none [] h = refl
  first_match_of_none (r ∷ rs) (miss, h) = rw (miss, first_match) (first_match_of_none rs h)

-- The rule `w` is among the rules, is a candidate for the server and matches it, and no other
-- candidate that matches stands before it in the resolution order.
pub record IsBest (server : ClassifiableServer) (engine : RegexEngine)
    (rules : List ClassificationRule) (w : ClassificationRule) : Type 0 where
  pub among : Memᴰ w rules
  pub candidate : is_candidate server w ≡ true
  pub matching : is_some (matched_value server engine w) ≡ true
  pub first :
      All
        (λ r.
          is_candidate server r ≡ true
          → is_some (matched_value server engine r) ≡ true
          → sort_key.le w r ≡ true)
        rules

abbrev pub HasDistinctIds : List ClassificationRule → Type 0
HasDistinctIds [] = Unit
HasDistinctIds (r ∷ rs) = All (λ r'. r.id ≢ r'.id) rs × HasDistinctIds rs

Apart-of_ids : (r r' : ClassificationRule) → r.id ≢ r'.id → Apart sort_key r r'
Apart-of_ids r r' h = ground (arith, str_leb_antisymm r.id r'.id)

HasDistinctKeys-of_ids :
    (rs : List ClassificationRule) → HasDistinctIds rs → HasDistinctKeys sort_key rs
HasDistinctKeys-of_ids [] h = tt
HasDistinctKeys-of_ids (r ∷ rs) (p, h) =
    (All-map _ rs (Apart-of_ids r) p, HasDistinctKeys-of_ids rs h)

-- Where no two rules share an id, two permutations of the rules give one classification, its
-- conflicts and errors included.
pub classify_order_independent :
    (now : Time) (server : ClassifiableServer) {rules rules' : List ClassificationRule}
    (engine : RegexEngine)
    → Permᴰ rules rules'
    → HasDistinctIds rules
    → classify now server rules engine ≡ classify now server rules' engine
unfolding classify candidates
classify_order_independent now server {rules} engine d h =
    let same =
      sort-eq_of_perm sort_key (filter-perm (is_candidate server) d)
        (HasDistinctKeys-filter sort_key _ rules (HasDistinctKeys-of_ids rules h)) in
    rw same

module _ (now : Time) (server : ClassifiableServer) (rules : List ClassificationRule)
    (engine : RegexEngine) where
  pub candidates-IsSorted : IsSorted sort_key (candidates server rules)
  unfolding candidates
  candidates-IsSorted = sort-IsSorted sort_key _

  -- What holds of the candidates holds of each rule that is one, and the other way round.
  pub candidates-All :
      (P : ClassificationRule → Type 0)
      → All (λ r. is_candidate server r ≡ true → P r) rules
      → All P (candidates server rules)
  unfolding candidates
  candidates-All P h = sort-All sort_key P _ (All-to_filter P _ rules h)

  All-candidates :
      (P : ClassificationRule → Type 0)
      → All P (candidates server rules)
      → All (λ r. is_candidate server r ≡ true → P r) rules
  unfolding candidates
  All-candidates P h =
      All-of_filter P _ rules
        (All-perm P (sort-perm sort_key (filter (is_candidate server) rules)) h)

  pub winner-IsBest :
      {w : ClassificationRule} {v : String}
      → first_match server engine (candidates server rules) ≡ some (w, v)
      → IsBest server engine rules w
  winner-IsBest {w} {v} h =
      let all =
        candidates-All (λ r. Memᴰ r rules × (is_candidate server r ≡ true))
          (All-map _ rules (λ r m c. (m, c)) (All-Memᴰ rules)) in
      let ((among, candidate), matching) = first_match-All server engine _ _ h all in
      record {
        among = among;
        candidate = candidate;
        matching = rw matching;
        first = All-candidates _ (first_match-IsBelow server engine _ h candidates-IsSorted);
      }

  pub scan-first_match :
      (scan server engine start (candidates server rules)).winner
      ≡ first_match server engine (candidates server rules)
  scan-first_match = scan-winner server engine start (candidates server rules) refl

  -- If a server is classified by the rule id `i`, some rule with that id is among the rules, is
  -- a candidate, matches the server and has no matching candidate before it in the resolution
  -- order, and the result has the installation type and the priority of that rule.
  pub classify-IsBest :
      {i : String}
      → (classify now server rules engine).rule_id ≡ some i
      → (w : ClassificationRule) × IsBest server engine rules w
        × (w.id ≡ i)
        × ((classify now server rules engine).installation_type ≡ w.installation_type)
        × ((classify now server rules engine).priority ≡ some w.priority)
  unfolding classify result_of
  classify-IsBest h = elim (Option-cases (first_match server engine (candidates server rules))) [
    | inl missing ↦ absurd (ground (arith, scan-first_match))
    | inr ((w, v), found) ↦ (
      w,
      winner-IsBest found,
      ground (arith, scan-first_match),
      ground (arith, scan-first_match),
      ground (arith, scan-first_match),
    )
  ]

  -- A server is classified by no rule exactly when none of the rules that are candidates for it
  -- matches.
  pub classify-none :
      ((classify now server rules engine).rule_id ≡ none)
      ↔ All (λ r. is_candidate server r ≡ true → matched_value server engine r ≡ none) rules
  unfolding classify result_of
  classify-none = (
    λ h. All-candidates _ (first_match-none server engine _ (ground (arith, scan-first_match))),
    λ all.
        let missing = first_match_of_none server engine _ (candidates-All _ all) in
        ground (arith, scan-first_match),
  )
