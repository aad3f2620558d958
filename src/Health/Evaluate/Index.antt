-- ===== src/Health/Evaluate/Index.antt =====
-- The families as an index that each policy is put into, in any order: sorting by key, grouping
-- neighbours and sorting each group comes to the same.
use mathlib.Core.List.{Permᴰ}
use server_scan.Prelude.{
  String, true, false, List, [], ◌∷◌, ◌≡◌, ◌≢◌, refl, sym, ap, ◌∙◌, All, str_eq, eq_iff, str_leb,
  str_leb_antisymm, arith, filter, filter-perm, All-map, Time, Bool-cases, inl, inr,
}
use server_scan.Prelude.Sort.{insert, sort}
use server_scan.Prelude.Sort.Unique.{
  Apart, HasDistinctKeys, HasDistinctKeys-perm, HasDistinctKeys-filter,
}
use server_scan.Health.Policy.{HealthPolicy}
use server_scan.Health.Metrics.{Facts, MetricRegistry}
use server_scan.Health.Template.{Formatter}
use server_scan.Health.Evaluate.{
  Dimensions, Families, no_families, add_family, resolve_groups, resolve_families, applies,
  evaluate_health, family_sort_key, key_order, group_by_key,
}
use server_scan.Health.Evaluate.Put.{
  Groups, Lt, Lt-cases, Lt-str_eq, Lt-trans, join, put, put-after, put-before, put-same, put_comm,
  settle, settle-add,
}

unfoldable pub index : List HealthPolicy → Groups
index [] = []
index (p ∷ ps) = put p (index ps)

index-perm :
    {ps qs : List HealthPolicy}
    → Permᴰ ps qs
    → HasDistinctKeys family_sort_key ps
    → index ps ≡ index qs
unfolding index
index-perm Permᴰ.nil h = refl
index-perm (Permᴰ.cons e d) (p, h) = cc (e, index-perm d h)
index-perm (Permᴰ.swap {a} {b} {l} e f) ((p, ps), h) = cc (e, f, put_comm a b (index l) p)
index-perm (Permᴰ.trans d e) h =
    index-perm d h ∙ index-perm e (HasDistinctKeys-perm family_sort_key d h)

module _ (q : HealthPolicy) (k : String) (g : List HealthPolicy) (gs : Groups) where
  join-same :
      str_eq k q.policy_key ≡ true → join q ((k, g) ∷ gs) ≡ (k, insert family_sort_key q g) ∷ gs
  unfolding join
  join-same e = rw e refl

  join-other :
      str_eq k q.policy_key ≡ false → join q ((k, g) ∷ gs) ≡ (q.policy_key, q ∷ []) ∷ (k, g) ∷ gs
  unfolding join
  join-other e = rw e refl

  -- A policy that is not after the first group joins as it is put.
  join_eq_put : str_leb q.policy_key k ≡ true → join q ((k, g) ∷ gs) ≡ put q ((k, g) ∷ gs)
  unfolding put join
  join_eq_put h = elim (Bool-cases (str_eq k q.policy_key)) [
    | inl e ↦ rw e refl
    | inr e ↦ rw (e, h) refl
  ]

join-put_cons :
    (q p : HealthPolicy) (k : String) (g : List HealthPolicy) (gs : Groups)
    → Lt q.policy_key p.policy_key
    → join q (put p ((k, g) ∷ gs)) ≡ put p (join q ((k, g) ∷ gs))
join-put_cons q p k g gs h =
    let after = put-after p q.policy_key (q ∷ []) ((k, g) ∷ gs) h in
    elim (Lt-cases k p.policy_key) [
      | inl e ↦
          let (_, f) = Lt-str_eq q.policy_key k (rw e h) in
          cc (
            after,
            put-same p k g gs e,
            join-other q k (insert family_sort_key p g) gs f,
            join-other q k g gs f,
          )
      | inr (inl e) ↦ elim (Bool-cases (str_eq k q.policy_key)) [
        | inl f ↦ cc (
          put-after p k g gs e,
          join-same q k g (put p gs) f,
          join-same q k g gs f,
          put-after p k (insert family_sort_key q g) gs e,
        )
        | inr f ↦
            cc (after, put-after p k g gs e, join-other q k g (put p gs) f, join-other q k g gs f)
      ]
      | inr (inr e) ↦
          let (_, f) = Lt-str_eq q.policy_key p.policy_key h in
          let (_, f') = Lt-str_eq q.policy_key k (Lt-trans _ _ _ h e) in
          cc (
            after,
            put-before p k g gs e,
            join-other q p.policy_key (p ∷ []) ((k, g) ∷ gs) f,
            join-other q k g gs f',
          )
    ]

-- A policy of a later key passes a join.
join-put :
    (q p : HealthPolicy) (gs : Groups)
    → Lt q.policy_key p.policy_key
    → join q (put p gs) ≡ put p (join q gs)
join-put q p [] h =
    let a : put p [] ≡ (p.policy_key, p ∷ []) ∷ [] = unfold put in refl in
    let b : join q [] ≡ (q.policy_key, q ∷ []) ∷ [] = unfold join in refl in
    let (_, f) = Lt-str_eq q.policy_key p.policy_key h in
    cc (a, b, join-other q p.policy_key (p ∷ []) [] f, put-after p q.policy_key (q ∷ []) [] h)
join-put q p ((k, g) ∷ gs) h = join-put_cons q p k g gs h

join_eq_put-add :
    (p q : HealthPolicy) (gs : Groups)
    → str_leb p.policy_key q.policy_key ≡ true
    → join p (join q gs) ≡ put p (join q gs)
join_eq_put-add p q [] h =
    let b : join q [] ≡ (q.policy_key, q ∷ []) ∷ [] = unfold join in refl in
    rw b (join_eq_put p q.policy_key (q ∷ []) [] h)
join_eq_put-add p q ((k, g) ∷ gs) h = elim (Bool-cases (str_eq k q.policy_key)) [
  | inl e ↦
      rw (join-same q k g gs e)
        (join_eq_put p k (insert family_sort_key q g) gs (rw ((eq_iff k q.policy_key).0 e) h))
  | inr e ↦ rw (join-other q k g gs e) (join_eq_put p q.policy_key (q ∷ []) ((k, g) ∷ gs) h)
]

settled : List HealthPolicy → Groups
settled ps = settle (group_by_key ps)

settled-cons : (p : HealthPolicy) (ps : List HealthPolicy) → settled (p ∷ ps) ≡ join p (settled ps)
unfolding settled group_by_key
settled-cons p ps = settle-add p (group_by_key ps)

-- Grouping neighbours after a policy took its place by key puts it into its group.
settled-insert :
    (p : HealthPolicy) (ps : List HealthPolicy)
    → settled (insert key_order p ps) ≡ put p (settled ps)
settled-insert p [] = unfold settled group_by_key insert put sort in refl
settled-insert p (q ∷ ps) = elim (Bool-cases (str_leb p.policy_key q.policy_key)) [
  | inl e ↦
      let a : insert key_order p (q ∷ ps) ≡ p ∷ q ∷ ps = unfold insert in rw e refl in
      rw (a, settled-cons p (q ∷ ps), settled-cons q ps) (join_eq_put-add p q (settled ps) e)
  | inr e ↦
      let a : insert key_order p (q ∷ ps) ≡ q ∷ insert key_order p ps =
        unfold insert in rw e refl in
      rw (a, settled-cons q (insert key_order p ps), settled-cons q ps, settled-insert p ps)
        (join-put q p (settled ps) e)
]

settled-sort : (ps : List HealthPolicy) → settled (sort key_order ps) ≡ index ps
settled-sort [] = unfold settled group_by_key sort index in refl
settled-sort (p ∷ ps) =
    let a : sort key_order (p ∷ ps) ≡ insert key_order p (sort key_order ps) =
      unfold sort in refl in
    let b : index (p ∷ ps) ≡ put p (index ps) = unfold index in refl in
    rw (a, b, ← settled-sort ps) (settled-insert p (sort key_order ps))

-- The winner and the shadowed policies of groups whose members are in order.
unfoldable pub families_of : Groups → Families
families_of [] = no_families
families_of ((key, group) ∷ groups) = add_family key group (families_of groups)

resolve_groups-settle : (gs : Groups) → resolve_groups gs ≡ families_of (settle gs)
unfolding families_of
resolve_groups-settle [] = refl
resolve_groups-settle ((k, g) ∷ gs) = rw (resolve_groups-settle gs) refl

pub resolve_families-index :
    (policies : List HealthPolicy) (d : Dimensions)
    → resolve_families policies d ≡ families_of (index (filter (applies d) policies))
unfolding resolve_families settled
resolve_families-index policies d =
    resolve_groups-settle (group_by_key (sort key_order (filter (applies d) policies)))
    ∙ ap families_of (settled-sort (filter (applies d) policies))

abbrev pub HasDistinctIds : List HealthPolicy → Type 0
HasDistinctIds [] = Unit
HasDistinctIds (p ∷ ps) = All (λ q. p.id ≢ q.id) ps × HasDistinctIds ps

Apart-of_ids : (p q : HealthPolicy) → p.id ≢ q.id → Apart family_sort_key p q
Apart-of_ids p q h = ground (arith, str_leb_antisymm p.id q.id)

HasDistinctKeys-of_ids :
    (ps : List HealthPolicy) → HasDistinctIds ps → HasDistinctKeys family_sort_key ps
HasDistinctKeys-of_ids [] h = tt
HasDistinctKeys-of_ids (p ∷ ps) (q, h) =
    (All-map _ ps (Apart-of_ids p) q, HasDistinctKeys-of_ids ps h)

-- Where no two policies share an id, two permutations of the policies give a server the same
-- winners and the same shadowed policies.
pub resolve_families_order_independent :
    {policies policies' : List HealthPolicy} (d : Dimensions)
    → Permᴰ policies policies'
    → HasDistinctIds policies
    → resolve_families policies d ≡ resolve_families policies' d
resolve_families_order_independent {policies} {policies'} d e h =
    let apart =
      HasDistinctKeys-filter family_sort_key (applies d) policies
        (HasDistinctKeys-of_ids policies h) in
    let same = index-perm (filter-perm (applies d) e) apart in
    resolve_families-index policies d
    ∙ ap families_of same
    ∙ sym (resolve_families-index policies' d)

-- Where no two policies share an id, two permutations of the policies give a server one health,
-- or one exception.
pub evaluate_health_order_independent :
    (now : Time) (formatter : Formatter) (facts : Facts) {policies policies' : List HealthPolicy}
    (registry : MetricRegistry) (d : Dimensions)
    → Permᴰ policies policies'
    → HasDistinctIds policies
    → evaluate_health now formatter facts policies registry d
      ≡ evaluate_health now formatter facts policies' registry d
unfolding evaluate_health
evaluate_health_order_independent now formatter facts registry d e h =
    rw (resolve_families_order_independent d e h)
