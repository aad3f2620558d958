-- ===== src/Health/Condition/Leaves.antt =====
-- Going from the leaves of a condition to the whole.
use server_scan.Prelude.{String, true, false, not, ◌≡◌, arith, if◌then◌else◌}
use server_scan.Health.Values.{Value, ok, Error}
use server_scan.Health.Values.Laws.{Raises, bind-Raises}
use server_scan.Health.Metrics.{MetricRegistry, Facts, get}
use server_scan.Health.Condition.{
  Condition, Conditions, all_conditions, any_condition, negation, leaf, nil, cons, valid,
  validate_condition, validate_children, validate_leaf,
}
use server_scan.Health.Condition.Evaluate.{
  evaluate_condition, evaluate_all, evaluate_any, evaluate_leaf,
}

-- A predicate on a leaf's metric, operator, value and `equals`.
abbrev pub OnLeaf : Type 1
OnLeaf = String → String → Value → Value → Type 0

abbrev mutual
  pub AllLeaves : OnLeaf → Condition → Type 0
  AllLeaves L (all_conditions cs) = AllLeavesOf L cs
  AllLeaves L (any_condition cs) = AllLeavesOf L cs
  AllLeaves L (negation c) = AllLeaves L c
  AllLeaves L (leaf m o v e) = L m o v e

  pub AllLeavesOf : OnLeaf → Conditions → Type 0
  AllLeavesOf L nil = Unit
  AllLeavesOf L (cons c cs) = AllLeaves L c × AllLeavesOf L cs

module _ {L K M : OnLeaf}
    (f : (m o : String) (v e : Value) → L m o v e → K m o v e → M m o v e) where
  mutual
    pub AllLeaves-zip : (c : Condition) → AllLeaves L c → AllLeaves K c → AllLeaves M c
    AllLeaves-zip (all_conditions cs) h k = AllLeavesOf-zip cs h k
    AllLeaves-zip (any_condition cs) h k = AllLeavesOf-zip cs h k
    AllLeaves-zip (negation c) h k = AllLeaves-zip c h k
    AllLeaves-zip (leaf m o v e) h k = f m o v e h k

    AllLeavesOf-zip : (cs : Conditions) → AllLeavesOf L cs → AllLeavesOf K cs → AllLeavesOf M cs
    AllLeavesOf-zip nil h k = tt
    AllLeavesOf-zip (cons c cs) (h, hs) (k, ks) = (AllLeaves-zip c h k, AllLeavesOf-zip cs hs ks)

module _ (registry : MetricRegistry) where
  abbrev pub IsValidLeaf : OnLeaf
  IsValidLeaf m o v e = validate_leaf o v (get registry m) ≡ valid

  mutual
    unfolding validate_condition

    pub valid-AllLeaves :
        (c : Condition) → validate_condition registry c ≡ valid → AllLeaves IsValidLeaf c
    valid-AllLeaves (all_conditions cs) h = valid-AllLeavesOf cs (ground arith)
    valid-AllLeaves (any_condition cs) h = valid-AllLeavesOf cs (ground arith)
    valid-AllLeaves (negation c) h = valid-AllLeaves c (ground arith)
    valid-AllLeaves (leaf m o v e) h = ground arith

    valid-AllLeavesOf :
        (cs : Conditions) → validate_children registry cs ≡ valid → AllLeavesOf IsValidLeaf cs
    valid-AllLeavesOf nil h = tt
    valid-AllLeavesOf (cons c cs) h =
        (valid-AllLeaves c (ground arith), valid-AllLeavesOf cs (ground arith))

-- A condition raises no other exceptions than its leaves.
module _ (registry : MetricRegistry) (facts : Facts) (P : Error → Type 0) where
  abbrev pub LeafRaises : OnLeaf
  LeafRaises m o v e = Raises P (evaluate_leaf registry facts m o v e)

  mutual
    unfolding evaluate_condition

    pub evaluate-Raises :
        (c : Condition) → AllLeaves LeafRaises c → Raises P (evaluate_condition registry facts c)
    evaluate-Raises (all_conditions cs) h = evaluate_all-Raises cs h
    evaluate-Raises (any_condition cs) h = evaluate_any-Raises cs h
    evaluate-Raises (negation c) h =
        bind-Raises P _ (λ b. ok (not b)) (evaluate-Raises c h) (λ b. tt)
    evaluate-Raises (leaf m o v e) h = h

    evaluate_all-Raises :
        (cs : Conditions) → AllLeavesOf LeafRaises cs → Raises P (evaluate_all registry facts cs)
    evaluate_all-Raises nil h = tt
    evaluate_all-Raises (cons c cs) (h, hs) =
        let rest = evaluate_all-Raises cs hs in
        bind-Raises P _ _ (evaluate-Raises c h) (λ b.
          elim b as (λ d. Raises P (if d then evaluate_all registry facts cs else ok false)) [
            | true ↦ rest
            | false ↦ tt
          ])

    evaluate_any-Raises :
        (cs : Conditions) → AllLeavesOf LeafRaises cs → Raises P (evaluate_any registry facts cs)
    evaluate_any-Raises nil h = tt
    evaluate_any-Raises (cons c cs) (h, hs) =
        let rest = evaluate_any-Raises cs hs in
        bind-Raises P _ _ (evaluate-Raises c h) (λ b.
          elim b as (λ d. Raises P (if d then ok true else evaluate_any registry facts cs)) [
            | true ↦ tt
            | false ↦ rest
          ])
