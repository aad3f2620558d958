-- ===== src/Health/Evaluate/Groups.antt =====
-- What the index of the policies holds under a key, and who wins it.
use server_scan.Prelude.{
  String, Bool, true, false, Option, none, some, List, [], ◌∷◌, filter, ◌≡◌, ◌≢◌, refl, ◌∙◌, subst,
  All, All-map, str_eq, eq_iff, dict_get, if◌then◌else◌, arith, Bool-cases, inl, inr,
}
use server_scan.Prelude.Sort.{insert, sort}
use server_scan.Health.Policy.{HealthPolicy}
use server_scan.Health.Evaluate.{family_sort_key}
use server_scan.Health.Evaluate.Index.{index, families_of}
use server_scan.Health.Evaluate.Put.{
  Groups, put, Lt, Lt-str_eq, Lt-trans, Lt-cases, put-same, put-before, put-after, insert-nil,
}

-- The group of a key, empty where there is none.
unfoldable pub group_at : String → Groups → List HealthPolicy
group_at k [] = []
group_at k ((k', g) ∷ gs) = let rest = group_at k gs in if str_eq k' k then g else rest

-- The keys ascend.
abbrev pub Ascends : Groups → Type 0
Ascends [] = Unit
Ascends ((k, g) ∷ gs) = All (λ h. Lt k h.0) gs × Ascends gs

pub put-All :
    (P : String → Type 0) (p : HealthPolicy) (gs : Groups)
    → P p.policy_key
    → All (λ h. P h.0) gs
    → All (λ h. P h.0) (put p gs)
unfolding put
put-All P p [] h a = (h, tt)
put-All P p ((k, g) ∷ gs) h (a, b) = elim (Lt-cases k p.policy_key) [
  | inl e ↦ rw (put-same p k g gs e) (a, b)
  | inr (inl e) ↦ rw (put-after p k g gs e) (a, put-All P p gs h b)
  | inr (inr e) ↦ rw (put-before p k g gs e) (h, (a, b))
]

pub put-Ascends : (p : HealthPolicy) (gs : Groups) → Ascends gs → Ascends (put p gs)
put-Ascends p [] h = unfold put in (tt, tt)
put-Ascends p ((k, g) ∷ gs) (a, b) = elim (Lt-cases k p.policy_key) [
  | inl e ↦ rw (put-same p k g gs e) (a, b)
  | inr (inl e) ↦ rw (put-after p k g gs e) (put-All (Lt k) p gs e a, put-Ascends p gs b)
  | inr (inr e) ↦
      rw (put-before p k g gs e) ((e, All-map _ gs (λ h l. Lt-trans _ _ _ e l) a), (a, b))
]

pub index-Ascends : (ps : List HealthPolicy) → Ascends (index ps)
unfolding index
index-Ascends [] = tt
index-Ascends (p ∷ ps) = put-Ascends p (index ps) (index-Ascends ps)

pub group_at-absent : (k : String) (gs : Groups) → All (λ h. Lt k h.0) gs → group_at k gs ≡ []
unfolding group_at
group_at-absent k [] h = refl
group_at-absent k ((k', g) ∷ gs) (l, h) =
    let (_, e) = Lt-str_eq k k' l in rw e (group_at-absent k gs h)

module _ (k : String) (k' : String) (g : List HealthPolicy) (gs : Groups) where
  pub group_at-same : str_eq k' k ≡ true → group_at k ((k', g) ∷ gs) ≡ g
  unfolding group_at
  group_at-same e = rw e refl

  pub group_at-other : str_eq k' k ≡ false → group_at k ((k', g) ∷ gs) ≡ group_at k gs
  unfolding group_at
  group_at-other e = rw e refl

-- Putting a policy changes the group of its key alone.
pub group_at-put_own :
    (k : String) (p : HealthPolicy) (gs : Groups)
    → p.policy_key ≡ k
    → Ascends gs
    → group_at k (put p gs) ≡ insert family_sort_key p (group_at k gs)
group_at-put_own k p [] e a =
    let b : put p [] ≡ (p.policy_key, p ∷ []) ∷ [] = unfold put in refl in
    let c : group_at k [] ≡ [] = unfold group_at in refl in
    cc (b, c, insert-nil p, group_at-same k p.policy_key (p ∷ []) [] ((eq_iff p.policy_key k).1 e))
group_at-put_own k p ((k', g) ∷ gs) e (a, b) = elim (Lt-cases k' p.policy_key) [
  | inl f ↦
      let t = (eq_iff k' k).1 (f ∙ e) in
      cc (
        put-same p k' g gs f,
        group_at-same k k' g gs t,
        group_at-same k k' (insert family_sort_key p g) gs t,
      )
  | inr (inl f) ↦
      let (t, _) = Lt-str_eq k' k (subst (Lt k') e f) in
      cc (
        put-after p k' g gs f,
        group_at-other k k' g gs t,
        group_at-other k k' g (put p gs) t,
        group_at-put_own k p gs e b,
      )
  | inr (inr f) ↦
      let l : Lt k k' = subst (λ s. Lt s k') e f in
      cc (
        put-before p k' g gs f,
        insert-nil p,
        group_at-same k p.policy_key (p ∷ []) ((k', g) ∷ gs) ((eq_iff p.policy_key k).1 e),
        group_at-absent k ((k', g) ∷ gs) (l, All-map _ gs (λ h m. Lt-trans _ _ _ l m) a),
      )
]

pub group_at-put_other :
    (k : String) (p : HealthPolicy) (gs : Groups)
    → str_eq p.policy_key k ≡ false
    → group_at k (put p gs) ≡ group_at k gs
group_at-put_other k p [] e =
    let b : put p [] ≡ (p.policy_key, p ∷ []) ∷ [] = unfold put in refl in
    cc (b, group_at-other k p.policy_key (p ∷ []) [] e)
group_at-put_other k p ((k', g) ∷ gs) e = elim (Lt-cases k' p.policy_key) [
  | inl f ↦
      let t : str_eq k' k ≡ false = rw f e in
      cc (
        put-same p k' g gs f,
        group_at-other k k' g gs t,
        group_at-other k k' (insert family_sort_key p g) gs t,
      )
  | inr (inl f) ↦ elim (Bool-cases (str_eq k' k)) [
    | inl t ↦
        cc (put-after p k' g gs f, group_at-same k k' g gs t, group_at-same k k' g (put p gs) t)
    | inr t ↦ cc (
      put-after p k' g gs f,
      group_at-other k k' g gs t,
      group_at-other k k' g (put p gs) t,
      group_at-put_other k p gs e,
    )
  ]
  | inr (inr f) ↦
      cc (put-before p k' g gs f, group_at-other k p.policy_key (p ∷ []) ((k', g) ∷ gs) e)
]

abbrev pub has_key : String → HealthPolicy → Bool
has_key k p = str_eq p.policy_key k

-- The group of a key has all its policies, in the order of the family.
pub group_at-index :
    (k : String) (ps : List HealthPolicy)
    → group_at k (index ps) ≡ sort family_sort_key (filter (has_key k) ps)
group_at-index k [] = unfold index group_at sort in refl
group_at-index k (p ∷ ps) =
    let a : index (p ∷ ps) ≡ put p (index ps) = unfold index in refl in
    let later = group_at-index k ps in
    elim (Bool-cases (has_key k p)) [
      | inl e ↦
          let b : sort family_sort_key (filter (has_key k) (p ∷ ps))
              ≡ insert family_sort_key p (sort family_sort_key (filter (has_key k) ps)) =
            unfold sort in rw e refl in
          let own =
            group_at-put_own k p (index ps) ((eq_iff p.policy_key k).0 e) (index-Ascends ps) in
          cc (a, b, later, own)
      | inr e ↦
          let b : sort family_sort_key (filter (has_key k) (p ∷ ps))
              ≡ sort family_sort_key (filter (has_key k) ps) =
            unfold sort in rw e refl in
          cc (a, b, later, group_at-put_other k p (index ps) e)
    ]

abbrev pub first : List HealthPolicy → Option HealthPolicy
first [] = none
first (p ∷ ps) = some p

abbrev pub HasMembers : Groups → Type 0
HasMembers gs = All (λ h. first h.1 ≢ none) gs

pub insert-first :
    (p : HealthPolicy) (ps : List HealthPolicy) → first (insert family_sort_key p ps) ≢ none
unfolding insert
insert-first p [] e = cc e
insert-first p (q ∷ ps) e = ground arith

pub put-HasMembers : (p : HealthPolicy) (gs : Groups) → HasMembers gs → HasMembers (put p gs)
put-HasMembers p [] h = unfold put in (λ e. cc e, tt)
put-HasMembers p ((k, g) ∷ gs) (a, b) = elim (Lt-cases k p.policy_key) [
  | inl e ↦ rw (put-same p k g gs e) (insert-first p g, b)
  | inr (inl e) ↦ rw (put-after p k g gs e) (a, put-HasMembers p gs b)
  | inr (inr e) ↦ rw (put-before p k g gs e) ((λ e. cc e), (a, b))
]

pub index-HasMembers : (ps : List HealthPolicy) → HasMembers (index ps)
unfolding index
index-HasMembers [] = tt
index-HasMembers (p ∷ ps) = put-HasMembers p (index ps) (index-HasMembers ps)

pub winners-group_at :
    (k : String) (gs : Groups)
    → HasMembers gs
    → dict_get k (families_of gs).winners ≡ first (group_at k gs)
unfolding families_of group_at
winners-group_at k [] h = refl
winners-group_at k ((k', []) ∷ gs) (a, b) = absurd (a refl)
winners-group_at k ((k', w ∷ g) ∷ gs) (a, b) = elim (Bool-cases (str_eq k' k)) [
  | inl e ↦ rw e refl
  | inr e ↦ rw e (winners-group_at k gs b)
]
