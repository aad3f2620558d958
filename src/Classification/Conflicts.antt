-- ===== src/Classification/Conflicts.antt =====
-- Which disagreements the classifier reports beside the winner.
use mathlib.Core.List.{append-nil, append_assoc}
use server_scan.Prelude.{
  ℕ, ℤ, String, Time, true, false, none, some, is_some, List, [], ◌∷◌, ◌++◌, map, refl, sym, subst,
  ◌≡◌, ◌⊎◌, All, All-map, filter, arith, Option-cases, Bool-cases, inl, inr, if◌then◌else◌,
}
use server_scan.Enums.{same_installation_type_refl}
use server_scan.Prelude.Sort.{IsSorted, IsBelow}
use server_scan.Classification.{
  ClassifiableServer, ClassificationRule, ClassificationConflict, RegexEngine, Scan, go_on, stop,
  start, on_match, round, scan, candidates, sort_key, result_of, classify, is_candidate, tied,
  conflict_of, specificity, same_installation_type,
}
use server_scan.Classification.Spec.{
  matched_value, first_match, round_hit, round_miss, errors_after, scan-go_on, scan-stop, disputes,
  times_out, times_out-matched,
}
use server_scan.Classification.Winner.{
  IsBest, first_match-cases, scan-first_match, winner-IsBest, candidates-IsSorted, candidates-All,
}

-- Past a rule of a lower precedence than the winner's, no rule of a sorted list ties with it.
untied_below :
    (w r q : ClassificationRule)
    → sort_key.le w r ≡ true
    → sort_key.le r q ≡ true
    → tied r w ≡ false
    → tied q w ≡ false
unfolding tied
untied_below w r q h k u = ground arith

module _ (server : ClassifiableServer) (engine : RegexEngine) where
  disputes_untied :
      (w : ClassificationRule) (rs : List ClassificationRule)
      → All (λ r. tied r w ≡ false) rs
      → filter (disputes server engine w) rs ≡ []
  unfolding disputes
  disputes_untied w [] h = refl
  disputes_untied w (r ∷ rs) (u, h) = ground (arith, disputes_untied w rs h)

  -- One round, once there is a winner: it stops at a rule of lower precedence that matches, and
  -- else it adds the rule if the rule disputes the winner's type.
  round-cases :
      (s : Scan) (r w : ClassificationRule) {v : String}
      → s.winner ≡ some (w, v)
      → ((round server engine s r ≡ stop s) × (tied r w ≡ false))
        ⊎ ((s' : Scan) × (round server engine s r ≡ go_on s')
            × (s'.winner ≡ some (w, v))
            × (s'.conflicts ≡ (
                if disputes server engine w r
                then s.conflicts ++ conflict_of r ∷ []
                else s.conflicts))
            × (s'.errors ≡ errors_after server engine s.errors r))
  unfolding on_match disputes
  round-cases s r w {v} h = elim (Option-cases (matched_value server engine r)) [
    | inl miss ↦ inr (
      record s { errors = errors_after server engine s.errors r },
      round_miss server engine s r miss,
      h,
      ground arith,
      refl,
    )
    | inr (v', found) ↦ elim (Bool-cases (tied r w)) [
      | inr low ↦ inl (ground (arith, round_hit server engine s r v' found), low)
      | inl same ↦
          elim (Bool-cases (same_installation_type r.installation_type w.installation_type)) [
            | inl agree ↦ inr (
              s,
              ground (arith, round_hit server engine s r v' found),
              h,
              ground arith,
              rw (times_out-matched server engine r v' found),
            )
            | inr differ ↦ inr (
              record s { conflicts = s.conflicts ++ conflict_of r ∷ [] },
              ground (arith, round_hit server engine s r v' found),
              h,
              ground arith,
              rw (times_out-matched server engine r v' found),
            )
          ]
    ]
  ]

  filter_conflicts :
      (w r : ClassificationRule) (rs : List ClassificationRule) (cs : List ClassificationConflict)
      → (if disputes server engine w r then cs ++ conflict_of r ∷ [] else cs)
          ++ map conflict_of (filter (disputes server engine w) rs)
        ≡ cs ++ map conflict_of (filter (disputes server engine w) (r ∷ rs))
  filter_conflicts w r rs cs = elim (Bool-cases (disputes server engine w r)) [
    | inl h ↦ rw h (append_assoc cs (conflict_of r ∷ []) _)
    | inr h ↦ rw h
  ]

  scan-conflicts :
      (s : Scan) (rs : List ClassificationRule) {w : ClassificationRule} {v : String}
      → s.winner ≡ some (w, v)
      → IsBelow sort_key w rs
      → IsSorted sort_key rs
      → (scan server engine s rs).conflicts
        ≡ s.conflicts ++ map conflict_of (filter (disputes server engine w) rs)
  scan-conflicts s [] h b k = unfold scan in sym (append-nil s.conflicts)
  scan-conflicts s (r ∷ rs) {w} h (b, bs) (below, k) = elim (round-cases s r w h) [
    | inl (halted, low) ↦
        let later : All (λ q. tied q w ≡ false) (r ∷ rs) =
          (low, All-map _ rs (λ q c. untied_below w r q b c low) below) in
        rw (scan-stop server engine s s r rs halted, disputes_untied w (r ∷ rs) later)
          (sym (append-nil s.conflicts))
    | inr (s', e, kept, added, late) ↦
        rw (scan-go_on server engine s s' r rs e, scan-conflicts s' rs kept bs k, added)
          (filter_conflicts w r rs s.conflicts)
  ]

  disputes_self : (w : ClassificationRule) → disputes server engine w w ≡ false
  unfolding disputes
  disputes_self w = ground (arith, same_installation_type_refl w.installation_type)

  first_conflicts :
      (s : Scan) (rs : List ClassificationRule) {w : ClassificationRule} {v : String}
      → s.winner ≡ none
      → IsSorted sort_key rs
      → first_match server engine rs ≡ some (w, v)
      → (scan server engine s rs).conflicts
        ≡ s.conflicts ++ map conflict_of (filter (disputes server engine w) rs)
  unfolding on_match
  first_conflicts s [] h k m = unfold first_match in cc
  first_conflicts s (r ∷ rs) {w} {v} h (below, k) m =
      elim (first_match-cases server engine r rs m) [
        | inl (miss, later) ↦
            let s' : Scan = record s { errors = errors_after server engine s.errors r } in
            let dull : disputes server engine w r ≡ false = unfold disputes in rw miss in
            rw (scan-go_on server engine s s' r rs (round_miss server engine s r miss), dull)
              (first_conflicts s' rs h k later)
        | inr (e, found) ↦
            let s' : Scan = record s { winner = some (r, v) } in
            let first : round server engine s r ≡ go_on s' =
              ground (arith, round_hit server engine s r v found) in
            subst
              (λ q.
                (scan server engine s (r ∷ rs)).conflicts
                ≡ s.conflicts ++ map conflict_of (filter (disputes server engine q) (r ∷ rs)))
              e
              (rw (scan-go_on server engine s s' r rs first, disputes_self r)
                (scan-conflicts s' rs refl below k))
      ]

  errors_after-append :
      (r : ClassificationRule) (rs : List ClassificationRule) (es : List String)
      → errors_after server engine es r ++ map (λ r. r.id) (filter (times_out server engine) rs)
        ≡ es ++ map (λ r. r.id) (filter (times_out server engine) (r ∷ rs))
  errors_after-append r rs es = elim (Bool-cases (times_out server engine r)) [
    | inl h ↦ rw h (append_assoc es (r.id ∷ []) _)
    | inr h ↦ rw h
  ]

  -- A match of lower precedence is what stops the search; without one it visits every rule.
  scan-errors :
      (s : Scan) (rs : List ClassificationRule) {w : ClassificationRule} {v : String}
      → s.winner ≡ some (w, v)
      → All (λ r. is_some (matched_value server engine r) ≡ true → tied r w ≡ true) rs
      → (scan server engine s rs).errors
        ≡ s.errors ++ map (λ r. r.id) (filter (times_out server engine) rs)
  scan-errors s [] h a = unfold scan in sym (append-nil s.errors)
  scan-errors s (r ∷ rs) {w} h (t, a) = elim (Option-cases (matched_value server engine r)) [
    | inl miss ↦
        let s' : Scan = record s { errors = errors_after server engine s.errors r } in
        rw
          (
            scan-go_on server engine s s' r rs (round_miss server engine s r miss),
            scan-errors s' rs h a,
          )
          (errors_after-append r rs s.errors)
    | inr (v', found) ↦ elim (round-cases s r w h) [
      | inl (halted, low) ↦ cc (low, t (rw found))
      | inr (s', e, kept, added, late) ↦
          rw (scan-go_on server engine s s' r rs e, scan-errors s' rs kept a, late)
            (errors_after-append r rs s.errors)
    ]
  ]

  first_errors :
      (s : Scan) (rs : List ClassificationRule) {w : ClassificationRule} {v : String}
      → s.winner ≡ none
      → first_match server engine rs ≡ some (w, v)
      → All (λ r. is_some (matched_value server engine r) ≡ true → tied r w ≡ true) rs
      → (scan server engine s rs).errors
        ≡ s.errors ++ map (λ r. r.id) (filter (times_out server engine) rs)
  unfolding on_match
  first_errors s [] h m a = unfold first_match in cc
  first_errors s (r ∷ rs) {w} {v} h m (t, a) = elim (first_match-cases server engine r rs m) [
    | inl (miss, later) ↦
        let s' : Scan = record s { errors = errors_after server engine s.errors r } in
        rw
          (
            scan-go_on server engine s s' r rs (round_miss server engine s r miss),
            first_errors s' rs h later a,
          )
          (errors_after-append r rs s.errors)
    | inr (e, found) ↦
        let s' : Scan = record s { winner = some (r, v) } in
        let first : round server engine s r ≡ go_on s' =
          ground (arith, round_hit server engine s r v found) in
        let ties =
          subst
            (λ q. All (λ r'. is_some (matched_value server engine r') ≡ true → tied r' q ≡ true) rs)
            (sym e) a in
        rw (
          scan-go_on server engine s s' r rs first,
          scan-errors s' rs refl ties,
          times_out-matched server engine r v found,
        )
  ]

module _ (now : Time) (server : ClassifiableServer) (rules : List ClassificationRule)
    (engine : RegexEngine) where
  -- If a server is classified by the rule id `i`, then for a best rule with that id the
  -- conflicts are, in the resolution order, exactly the candidates that match, have that rule's
  -- priority and specificity, and ask for another installation type.
  pub classify-conflicts :
      {i : String}
      → (classify now server rules engine).rule_id ≡ some i
      → (w : ClassificationRule) × IsBest server engine rules w
        × (w.id ≡ i)
        × ((classify now server rules engine).conflicts
            ≡ map conflict_of (filter (disputes server engine w) (candidates server rules)))
  unfolding classify result_of
  classify-conflicts h = elim (Option-cases (first_match server engine (candidates server rules))) [
    | inl missing ↦ absurd (ground (arith, scan-first_match now server rules engine))
    | inr ((w, v), found) ↦ (
      w,
      winner-IsBest now server rules engine found,
      ground (arith, scan-first_match now server rules engine),
      ground (
        arith,
        scan-first_match now server rules engine,
        first_conflicts server engine start _ refl (candidates-IsSorted now server rules engine)
            found,
      ),
    )
  ]

  tied_of :
      (r w : ClassificationRule) {p : ℤ} {n : ℕ}
      → w.priority ≡ p
      → specificity w.scope ≡ n
      → (r.priority ≡ p) × (specificity r.scope ≡ n)
      → tied r w ≡ true
  unfolding tied
  tied_of r w e f (e', f') = rw (e, f, e', f') (ground arith)

  -- Where every candidate that matches has the priority and the specificity of the result, the
  -- errors name every candidate whose search timed out, in the resolution order, those of a
  -- lower precedence than the winner's included.
  pub classify-errors :
      {p : ℤ} {n : ℕ}
      → (classify now server rules engine).priority ≡ some p
      → (classify now server rules engine).specificity ≡ some n
      → All
          (λ r.
            is_candidate server r ≡ true
            → is_some (matched_value server engine r) ≡ true
            → (r.priority ≡ p) × (specificity r.scope ≡ n))
          rules
      → (classify now server rules engine).errors
        ≡ map (λ r. r.id) (filter (times_out server engine) (candidates server rules))
  unfolding classify result_of
  classify-errors {p} {n} h k all =
      elim (Option-cases (first_match server engine (candidates server rules))) [
        | inl missing ↦ absurd (ground (arith, scan-first_match now server rules engine))
        | inr ((w, v), found) ↦
            let e : w.priority ≡ p = ground (arith, scan-first_match now server rules engine) in
            let f : specificity w.scope ≡ n =
              ground (arith, scan-first_match now server rules engine) in
            let ties : All (λ r. is_some (matched_value server engine r) ≡ true → tied r w ≡ true)
                (candidates server rules) =
              candidates-All now server rules engine _
                (All-map _ rules (λ r q c m. tied_of r w e f (q c m)) all) in
            ground (
              arith,
              scan-first_match now server rules engine,
              first_errors server engine start _ refl found ties,
            )
      ]
