-- ===== src/Health/Evaluate/Put.antt =====
-- Groups of policies by key, and a policy put into its group: the order of two does not matter.
use server_scan.Prelude.{
  String, true, false, List, [], ◌∷◌, ◌≡◌, refl, sym, ◌∙◌, subst, str_eq, eq_iff, str_leb,
  str_leb_total, str_leb_trans, str_leb_antisymm, if◌then◌else◌, arith, Bool-cases, ◌⊎◌, inl, inr,
}
use server_scan.Prelude.Sort.{insert, sort}
use server_scan.Prelude.Sort.Unique.{Apart, insert_comm}
use server_scan.Health.Policy.{HealthPolicy}
use server_scan.Health.Evaluate.{family_sort_key, add_to_group}

abbrev pub Groups : Type 0
Groups = List (String × List HealthPolicy)

-- Each group in the order of its family.
abbrev pub settle : Groups → Groups
settle [] = []
settle ((k, g) ∷ gs) = (k, sort family_sort_key g) ∷ settle gs

-- A policy at its place in the groups, which are in the order of the keys.
unfoldable pub put : HealthPolicy → Groups → Groups
put p [] = (p.policy_key, p ∷ []) ∷ []
put p ((k, g) ∷ gs) =
    let later = (k, g) ∷ put p gs in
    if str_eq k p.policy_key
    then (k, insert family_sort_key p g) ∷ gs
    else if str_leb p.policy_key k
    then (p.policy_key, p ∷ []) ∷ (k, g) ∷ gs
    else later

-- A policy in front of settled groups of which the first may be its own.
unfoldable pub join : HealthPolicy → Groups → Groups
join p [] = (p.policy_key, p ∷ []) ∷ []
join p ((k, g) ∷ gs) =
    if str_eq k p.policy_key
    then (k, insert family_sort_key p g) ∷ gs
    else (p.policy_key, p ∷ []) ∷ (k, g) ∷ gs

pub settle-add : (p : HealthPolicy) (gs : Groups) → settle (add_to_group p gs) ≡ join p (settle gs)
unfolding sort insert join
settle-add p [] = refl
settle-add p ((k, g) ∷ gs) = elim (Bool-cases (str_eq k p.policy_key)) [
  | inl e ↦ rw e
  | inr e ↦ rw e
]

pub insert-nil : (p : HealthPolicy) → insert family_sort_key p [] ≡ p ∷ []
unfolding insert
insert-nil p = refl

pub str_leb_refl : (s : String) → str_leb s s ≡ true
str_leb_refl s = ground (arith, str_leb_total s s)

-- `s < t`
abbrev pub Lt : String → String → Type 0
Lt s t = str_leb t s ≡ false

pub Lt-str_eq : (s t : String) → Lt s t → (str_eq s t ≡ false) × (str_eq t s ≡ false)
Lt-str_eq s t h = (
  elim (Bool-cases (str_eq s t)) [
    | inl e ↦ let k = rw ((eq_iff s t).0 e) at h in cc (k, str_leb_refl t)
    | inr e ↦ e
  ],
  elim (Bool-cases (str_eq t s)) [
    | inl e ↦ let k = rw ((eq_iff t s).0 e) at h in cc (k, str_leb_refl s)
    | inr e ↦ e
  ],
)

pub Lt-trans : (s t u : String) → Lt s t → Lt t u → Lt s u
Lt-trans s t u h k = ground (arith, str_leb_total t u, str_leb_trans t u s)

pub Lt-cases : (s t : String) → (s ≡ t) ⊎ (Lt s t) ⊎ (Lt t s)
Lt-cases s t = elim (Bool-cases (str_leb t s)) [
  | inr h ↦ inr (inl h)
  | inl h ↦ elim (Bool-cases (str_leb s t)) [
    | inr k ↦ inr (inr k)
    | inl k ↦ inl (str_leb_antisymm s t k h)
  ]
]

module _ (p : HealthPolicy) (k : String) (g : List HealthPolicy) (gs : Groups) where
  pub put-same : k ≡ p.policy_key → put p ((k, g) ∷ gs) ≡ (k, insert family_sort_key p g) ∷ gs
  unfolding put
  put-same e = rw ((eq_iff k p.policy_key).1 e) refl

  pub put-before : Lt p.policy_key k → put p ((k, g) ∷ gs) ≡ (p.policy_key, p ∷ []) ∷ (k, g) ∷ gs
  unfolding put
  put-before h =
      let (_, e) = Lt-str_eq p.policy_key k h in
      let b : str_leb p.policy_key k ≡ true = ground (arith, str_leb_total p.policy_key k) in
      rw (e, b) refl

  pub put-after : Lt k p.policy_key → put p ((k, g) ∷ gs) ≡ (k, g) ∷ put p gs
  unfolding put
  put-after h = let (e, _) = Lt-str_eq k p.policy_key h in rw (e, h) refl

-- Two policies with different keys are put in either order.
pub put_comm_nil :
    (p q : HealthPolicy) → Lt p.policy_key q.policy_key → put p (put q []) ≡ put q (put p [])
put_comm_nil p q h =
    let a : put q [] ≡ (q.policy_key, q ∷ []) ∷ [] = unfold put in refl in
    let b : put p [] ≡ (p.policy_key, p ∷ []) ∷ [] = unfold put in refl in
    cc (a, b, put-before p q.policy_key (q ∷ []) [] h, put-after q p.policy_key (p ∷ []) [] h)

module _ (p q : HealthPolicy) (k : String) (g : List HealthPolicy) (gs : Groups) where
  pub put_comm_cons :
      Lt p.policy_key q.policy_key
      → put p (put q gs) ≡ put q (put p gs)
      → put p (put q ((k, g) ∷ gs)) ≡ put q (put p ((k, g) ∷ gs))
  put_comm_cons h later = elim (Lt-cases k p.policy_key) [
    | inl e ↦
        let l : Lt k q.policy_key = rw e h in
        cc (
          put-after q k g gs l,
          put-same p k g (put q gs) e,
          put-same p k g gs e,
          put-after q k (insert family_sort_key p g) gs l,
        )
    | inr (inl e) ↦
        let f = Lt-trans k p.policy_key q.policy_key e h in
        cc (
          put-after q k g gs f,
          put-after p k g gs e,
          put-after p k g (put q gs) e,
          put-after q k g (put p gs) f,
          later,
        )
    | inr (inr e) ↦
        let a = put-before p k g gs e in
        let b = put-after q p.policy_key (p ∷ []) ((k, g) ∷ gs) h in
        elim (Lt-cases k q.policy_key) [
          | inl f ↦ cc (a, b, put-same q k g gs f, put-before p k (insert family_sort_key q g) gs e)
          | inr (inl f) ↦ cc (a, b, put-after q k g gs f, put-before p k g (put q gs) e)
          | inr (inr f) ↦
              cc (a, b, put-before q k g gs f, put-before p q.policy_key (q ∷ []) ((k, g) ∷ gs) h)
        ]
  ]

pub put_comm_distinct :
    (p q : HealthPolicy) (gs : Groups)
    → Lt p.policy_key q.policy_key
    → put p (put q gs) ≡ put q (put p gs)
put_comm_distinct p q [] h = put_comm_nil p q h
put_comm_distinct p q ((k, g) ∷ gs) h = put_comm_cons p q k g gs h (put_comm_distinct p q gs h)

-- Two policies with one key are put in either order, where their sort keys differ.
pub put_comm_equal :
    (p q : HealthPolicy) (gs : Groups)
    → p.policy_key ≡ q.policy_key
    → Apart family_sort_key p q
    → put p (put q gs) ≡ put q (put p gs)
put_comm_equal p q [] e h =
    let a : put q [] ≡ (q.policy_key, q ∷ []) ∷ [] = unfold put in refl in
    let b : put p [] ≡ (p.policy_key, p ∷ []) ∷ [] = unfold put in refl in
    let c = insert_comm family_sort_key p q [] h in
    cc (
      a,
      b,
      c,
      insert-nil p,
      insert-nil q,
      e,
      put-same p q.policy_key (q ∷ []) [] (sym e),
      put-same q p.policy_key (p ∷ []) [] e,
    )
put_comm_equal p q ((k, g) ∷ gs) e h = elim (Lt-cases k p.policy_key) [
  | inl a ↦
      let b : k ≡ q.policy_key = a ∙ e in
      cc (
        put-same p k g gs a,
        put-same q k g gs b,
        put-same p k (insert family_sort_key q g) gs a,
        put-same q k (insert family_sort_key p g) gs b,
        insert_comm family_sort_key p q g h,
      )
  | inr (inl a) ↦
      let b : Lt k q.policy_key = subst (λ s. Lt k s) e a in
      cc (
        put-after p k g gs a,
        put-after q k g gs b,
        put-after p k g (put q gs) a,
        put-after q k g (put p gs) b,
        put_comm_equal p q gs e h,
      )
  | inr (inr a) ↦
      let b : Lt q.policy_key k = subst (λ s. Lt s k) e a in
      cc (
        put-before p k g gs a,
        put-before q k g gs b,
        insert_comm family_sort_key p q [] h,
        insert-nil p,
        insert-nil q,
        e,
        put-same p q.policy_key (q ∷ []) ((k, g) ∷ gs) (sym e),
        put-same q p.policy_key (p ∷ []) ((k, g) ∷ gs) e,
      )
]

pub put_comm :
    (p q : HealthPolicy) (gs : Groups)
    → Apart family_sort_key p q
    → put p (put q gs) ≡ put q (put p gs)
put_comm p q gs h = elim (Lt-cases p.policy_key q.policy_key) [
  | inl e ↦ put_comm_equal p q gs e h
  | inr (inl l) ↦ put_comm_distinct p q gs l
  | inr (inr l) ↦ sym (put_comm_distinct q p gs l)
]
