-- ===== src/Health/Evaluate/Resolution.antt =====
-- The outcome of the resolution of families: which policy wins a key.
use mathlib.Core.List.{Memᴰ, Permᴰ}
use server_scan.Prelude.{
  String, true, none, some, List, [], ◌∷◌, filter, ◌≡◌, ◌≢◌, ◌↔◌, refl, sym, ap, ◌∙◌, subst, All,
  All-map, All-Memᴰ, All-perm, All-of_filter, All-to_filter, str_eq, eq_iff, dict_get, arith,
}
use server_scan.Prelude.Sort.{sort, IsSorted}
use server_scan.Prelude.Sort.Laws.{le_refl, sort-IsSorted, sort-All, sort-perm}
use server_scan.Health.Policy.{HealthPolicy}
use server_scan.Health.Evaluate.{Dimensions, family_sort_key, applies, resolve_families}
use server_scan.Health.Evaluate.Index.{index, resolve_families-index}
use server_scan.Health.Evaluate.Groups.{
  first, group_at-index, has_key, index-HasMembers, insert-first, winners-group_at,
}

-- The winner of a key is the first, in the order of the family, of the policies that have the key
-- and apply to the server; a key that none of them has wins nothing.
pub resolve_families-winner :
    (policies : List HealthPolicy) (d : Dimensions) (k : String)
    → dict_get k (resolve_families policies d).winners
      ≡ first
          (sort family_sort_key (filter (λ p. str_eq p.policy_key k) (filter (applies d) policies)))
resolve_families-winner policies d k =
    let ps = filter (applies d) policies in
    rw (resolve_families-index policies d)
      (winners-group_at k (index ps) (index-HasMembers ps) ∙ ap first (group_at-index k ps))

first-sort :
    (xs : List HealthPolicy) {w : HealthPolicy} (P : HealthPolicy → Type 0)
    → first (sort family_sort_key xs) ≡ some w
    → All P xs
    → P w × All (λ p. family_sort_key.le w p ≡ true) xs
first-sort xs {w} P h a =
    go (sort family_sort_key xs) h (sort-IsSorted family_sort_key xs)
      (sort-All family_sort_key P xs a) (sort-perm family_sort_key xs)
  where
    go :
        (ys : List HealthPolicy)
        → first ys ≡ some w
        → IsSorted family_sort_key ys
        → All P ys
        → Permᴰ ys xs
        → P w × All (λ p. family_sort_key.le w p ≡ true) xs
    go [] e s a d = cc e
    go (y ∷ ys) e (below, s) (p, a) d =
        let f : y ≡ w = ground arith in
        subst (λ v. P v × All (λ p. family_sort_key.le v p ≡ true) xs) f
          (p, All-perm _ d (le_refl family_sort_key y, below))

-- The policy `w` is among the policies, applies to the server and has the key, and none of those
-- that do stands before it in the order of the family.
pub record IsWinner (policies : List HealthPolicy) (d : Dimensions) (k : String) (w : HealthPolicy)
    : Type 0 where
  pub among : Memᴰ w policies
  pub applying : applies d w ≡ true
  pub of_key : w.policy_key ≡ k
  pub first_of_key :
      All (λ p. applies d p ≡ true → p.policy_key ≡ k → family_sort_key.le w p ≡ true) policies

module _ (policies : List HealthPolicy) (d : Dimensions) (k : String) where
  keyed : List HealthPolicy
  keyed = filter (has_key k) (filter (applies d) policies)

  keyed-All :
      (P : HealthPolicy → Type 0)
      → All P policies
      → All (λ p. P p × (applies d p ≡ true) × (p.policy_key ≡ k)) keyed
  unfolding keyed
  keyed-All P h = All-to_filter _ (has_key k) (filter (applies d) policies) (
      All-to_filter _ (applies d) policies
        (All-map _ policies (λ p q a e. (q, a, (eq_iff p.policy_key k).0 e)) h))

  All-keyed :
      (P : HealthPolicy → Type 0)
      → All P keyed
      → All (λ p. applies d p ≡ true → p.policy_key ≡ k → P p) policies
  unfolding keyed
  All-keyed P h =
      All-map _ policies (λ p q a e. q a ((eq_iff p.policy_key k).1 e))
        (All-of_filter _ (applies d) policies
          (All-of_filter P (has_key k) (filter (applies d) policies) h))

  -- A policy that wins a key is among the policies, applies to the server and has the key, and
  -- no policy that does stands before it in the order of the family.
  pub resolve_families-IsWinner :
      {w : HealthPolicy}
      → dict_get k (resolve_families policies d).winners ≡ some w
      → IsWinner policies d k w
  unfolding keyed
  resolve_families-IsWinner h =
      let e = sym (resolve_families-winner policies d k) ∙ h in
      let ((among, applying, of_key), below) =
        first-sort keyed _ e (keyed-All _ (All-Memᴰ policies)) in
      record {
        among = among;
        applying = applying;
        of_key = of_key;
        first_of_key = All-keyed _ below;
      }

  first-sort-none : (xs : List HealthPolicy) → first (sort family_sort_key xs) ≡ none → xs ≡ []
  unfolding sort
  first-sort-none [] h = refl
  first-sort-none (x ∷ xs) h = absurd (insert-first x (sort family_sort_key xs) h)

  keyed-none : All (λ p. applies d p ≡ true → p.policy_key ≢ k) policies → keyed ≡ []
  keyed-none h = nothing keyed (All-map _ keyed (λ p (q, a, e). q a e) (keyed-All _ h))
    where
      nothing : (xs : List HealthPolicy) → All (λ _. ⊥) xs → xs ≡ []
      nothing [] a = refl
      nothing (x ∷ xs) (a, _) = absurd a

  -- A key has no winner exactly when no policy that applies to the server has it.
  pub resolve_families-none :
      (dict_get k (resolve_families policies d).winners ≡ none)
      ↔ All (λ p. applies d p ≡ true → p.policy_key ≢ k) policies
  unfolding keyed
  resolve_families-none = (
    λ h.
        let e = first-sort-none keyed (sym (resolve_families-winner policies d k) ∙ h) in
        All-keyed (λ p. ⊥) (subst (All (λ p. ⊥)) (sym e) tt),
    λ a.
        resolve_families-winner policies d k
        ∙ ap (λ xs. first (sort family_sort_key xs)) (keyed-none a)
        ∙ unfold sort in refl,
  )
