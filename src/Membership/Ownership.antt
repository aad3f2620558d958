-- ===== src/Membership/Ownership.antt =====
-- The loop that frees servers: after it the cluster holds no server that the run did not see.
use mathlib.Core.List.Memᴰ
use mathlib.Core.List.{Memᴰ}
use mathlib.Core.List.Permᴰ
use server_scan.Prelude.{
  String, Time, Bool, true, false, List, [], ◌∷◌, filter, any, ◌≡◌, refl, sym, ap, subst, All,
  All-map, All-Memᴰ, All-perm, All-of_filter, str_eq, eq_iff, Bool-cases, inl, inr, ◌⊎◌, arith,
}
use server_scan.Prelude.Sort.Laws.{sort-perm}
use server_scan.Prelude.Sort.Unique.{Apart, HasDistinctKeys-filter, HasDistinctKeys-perm}
use server_scan.Membership.{
  StoredServer, OpenShiftLifecycle, ClusterObservation, World, Scope, by_cluster, by_mce, in_scope,
  name_order, claimed_by, replaced, same_membership, updated_server, Written, Progress,
  free_lifecycle, free, free_all, reconcile,
}
use server_scan.Membership.Store.{
  Apart-str_eq, Ends, Ends-map, HasDistinctServerIds, IsEffect, bind-Ends, id_order, put, put-All,
  put-Memᴰ, write-Ends,
}
use server_scan.Membership.Claims.{IsClean, claim_all-Ends, IsClean-effect, list_servers-All}

-- A server that freeing does not change is in no scope, nor is one that was freed.
same_membership-free :
    (scope : Scope) (l : OpenShiftLifecycle) (now : Time) (dry_run : Bool)
    → same_membership l (free_lifecycle now dry_run) ≡ true
    → in_scope scope l ≡ false
unfolding same_membership
same_membership-free (by_cluster n) l now dry_run h = ground arith
same_membership-free (by_mce n) l now dry_run h = ground arith

in_scope-free :
    (scope : Scope) (now : Time) (dry_run : Bool)
    → in_scope scope (free_lifecycle now dry_run) ≡ false
in_scope-free (by_cluster n) now dry_run = refl
in_scope-free (by_mce n) now dry_run = refl

abbrev pub is_seen : List String → StoredServer → Bool
is_seen seen s = any (λ i. str_eq i s.id) seen

module _ (now : Time) (dry_run : Bool) (w₀ : World) (scope : Scope) (seen : List String) where
  -- Each server in scope was seen or is still to come.
  unfoldable pub Covers : List StoredServer → List StoredServer → Type 0
  Covers rest servers =
      All (λ d. in_scope scope d.openshift ≡ true → (is_seen seen d ≡ true) ⊎ Memᴰ d rest) servers

  -- Where a server is dealt with, those that come after it cover the rest.
  Covers-drop :
      (s : StoredServer) (rest servers : List StoredServer)
      → ((d : StoredServer) → d ≡ s → in_scope scope d.openshift ≡ true → is_seen seen d ≡ true)
      → Covers (s ∷ rest) servers
      → Covers rest servers
  unfolding Covers
  Covers-drop s rest servers f c = All-map _ servers (λ d h i. narrow d i (h i)) c
    where
      narrow :
          (d : StoredServer)
          → in_scope scope d.openshift ≡ true
          → (is_seen seen d ≡ true) ⊎ Memᴰ d (s ∷ rest)
          → (is_seen seen d ≡ true) ⊎ Memᴰ d rest
      narrow d i (inl h) = inl h
      narrow d i (inr (Memᴰ.head e)) = inl (f d e i)
      narrow d i (inr (Memᴰ.tail m)) = inr m

  Covers-put :
      (s : StoredServer) (rest servers : List StoredServer)
      → Covers (s ∷ rest) servers
      → Covers rest (put (updated_server now dry_run s (free_lifecycle now dry_run)) servers)
  unfolding Covers
  Covers-put s rest servers c =
      put-All _ _ servers (λ i. cc (i, in_scope-free scope now dry_run))
        (All-map _ servers (λ d h apart i. narrow d apart (h i)) c)
    where
      narrow :
          (d : StoredServer)
          → str_eq d.id s.id ≡ false
          → (is_seen seen d ≡ true) ⊎ Memᴰ d (s ∷ rest)
          → (is_seen seen d ≡ true) ⊎ Memᴰ d rest
      narrow d apart (inl h) = inl h
      narrow d apart (inr (Memᴰ.head e)) =
          let same = (eq_iff d.id s.id).1 (ap (λ t. t.id) e) in cc (apart, same)
      narrow d apart (inr (Memᴰ.tail m)) = inr m

  -- What holds between the rounds of the second loop.
  unfoldable pub Between : World → List StoredServer → Type 0
  Between w rest =
      IsClean now dry_run w₀ w
      × HasDistinctServerIds rest
      × All (λ s. Memᴰ s w.servers) rest
      × (dry_run ≡ false → Covers rest w.servers)

  -- The servers still to come stay in the collection through the write of one before them.
  put-All_Memᴰ :
      (s doc : StoredServer) (ts servers : List StoredServer)
      → doc.id ≡ s.id
      → All (Apart id_order s) ts
      → All (λ t. Memᴰ t servers) ts
      → All (λ t. Memᴰ t (put doc servers)) ts
  put-All_Memᴰ s doc [] servers e a ms = tt
  put-All_Memᴰ s doc (t ∷ ts) servers e (b, a) (m, ms) =
      let apart = subst (λ i. str_eq t.id i ≡ false) (sym e) (Apart-str_eq s t b).1 in
      (put-Memᴰ doc apart m, put-All_Memᴰ s doc ts servers e a ms)

  module _ (w : World) (s : StoredServer) (rest : List StoredServer) (r : Written)
      (effect : IsEffect now dry_run w s (free_lifecycle now dry_run) r) where
    effect-All_Memᴰ :
        All (Apart id_order s) rest
        → All (λ t. Memᴰ t w.servers) rest
        → All (λ t. Memᴰ t r.world.servers) rest
    unfolding IsEffect
    effect-All_Memᴰ a ms = elim effect [
      | inl (same, _) ↦ subst (λ v. All (λ t. Memᴰ t v.servers) rest) (sym same) ms
      | inr (inl (same, _)) ↦ subst (λ v. All (λ t. Memᴰ t v.servers) rest) (sym same) ms
      | inr (inr (_, replaced)) ↦
          subst (λ ss. All (λ t. Memᴰ t ss) rest) (sym replaced)
            (put-All_Memᴰ s _ rest w.servers refl a ms)
    ]

    effect-Covers : dry_run ≡ false → Covers (s ∷ rest) w.servers → Covers rest r.world.servers
    unfolding IsEffect
    effect-Covers wet covers = elim effect [
      | inl (same, kept) ↦
          subst (λ v. Covers rest v.servers) (sym same)
            (Covers-drop s rest w.servers (λ d f i. out d f i kept) covers)
      | inr (inl (same, dry)) ↦ cc (wet, dry)
      | inr (inr (_, replaced)) ↦
          subst (Covers rest) (sym replaced) (Covers-put s rest w.servers covers)
    ]
      where
        out :
            (d : StoredServer)
            → d ≡ s
            → in_scope scope d.openshift ≡ true
            → same_membership s.openshift (free_lifecycle now dry_run) ≡ true
            → is_seen seen d ≡ true
        out d e i kept =
            let j = subst (λ t. in_scope scope t.openshift ≡ true) e i in
            cc (j, same_membership-free scope s.openshift now dry_run kept)

    Between-effect : Between w (s ∷ rest) → Between r.world rest
    unfolding Between
    Between-effect (c, (a, h), (m, ms), covers) = (
      IsClean-effect now dry_run w₀ w s (free_lifecycle now dry_run) r c effect,
      h,
      effect-All_Memᴰ a ms,
      λ wet. effect-Covers wet (covers wet),
    )

  Between-seen :
      (w : World) (s : StoredServer) (rest : List StoredServer)
      → is_seen seen s ≡ true
      → Between w (s ∷ rest)
      → Between w rest
  unfolding Between
  Between-seen w s rest e (c, (_, h), (_, ms), covers) = (
    c,
    h,
    ms,
    λ wet.
        Covers-drop s rest w.servers (λ d f i. subst (λ t. is_seen seen t ≡ true) (sym f) e)
          (covers wet),
  )

  free-Ends :
      (p : Progress) (s : StoredServer) (rest : List StoredServer)
      → p.seen ≡ seen
      → Between p.world (s ∷ rest)
      → Ends (λ p'. Between p'.world rest × (p'.seen ≡ seen)) (free now dry_run p s)
  free-Ends p s rest same b = elim (Bool-cases (is_seen p.seen s)) [
    | inl e ↦ rw e (Between-seen p.world s rest (subst (λ i. is_seen i s ≡ true) same e) b, same)
    | inr e ↦ rw e (
        bind-Ends (IsEffect now dry_run p.world s (free_lifecycle now dry_run)) _ _ _
          (write-Ends now dry_run p.world s _ (distinct b) (here b))
          (λ r effect. (Between-effect p.world s rest r effect b, same)))
  ]
    where
      distinct : Between p.world (s ∷ rest) → HasDistinctServerIds p.world.servers
      distinct b = unfold Between IsClean in b.0.0

      here : Between p.world (s ∷ rest) → Memᴰ s p.world.servers
      here b = unfold Between in (let (_, _, (m, _), _) = b in m)

  free_all-Ends :
      (p : Progress) (rest : List StoredServer)
      → p.seen ≡ seen
      → Between p.world rest
      → Ends (λ p'. Between p'.world [] × (p'.seen ≡ seen)) (free_all now dry_run p rest)
  unfolding free_all
  free_all-Ends p [] same b = (b, same)
  free_all-Ends p (s ∷ rest) same b =
      bind-Ends (λ p'. Between p'.world rest × (p'.seen ≡ seen)) _ _ _ (free-Ends p s rest same b)
        (λ p' (b', same'). free_all-Ends p' rest same' b')

  start-Between : (w : World) → IsClean now dry_run w₀ w → Between w (claimed_by scope w.servers)
  unfolding Between IsClean Covers claimed_by
  start-Between w (h, dry) =
      let p : StoredServer → Bool = λ s. in_scope scope s.openshift in
      let perm = sort-perm name_order (filter p w.servers) in
      (
        (h, dry),
        HasDistinctKeys-perm id_order (Permᴰ.symm perm)
            (HasDistinctKeys-filter id_order p w.servers h),
        list_servers-All (λ s. Memᴰ s w.servers) p w.servers (All-Memᴰ w.servers),
        λ wet.
            All-map _ w.servers (λ d m i. inr (m i))
              (All-of_filter (λ d. Memᴰ d (claimed_by scope w.servers)) p w.servers
                (All-perm _ perm (All-Memᴰ _))),
      )

-- Over servers with distinct ids a reconciliation ends without an error and keeps the ids
-- distinct. A dry run writes nothing. After a run that is not dry, every server that is in the
-- scope is one that the run saw.
pub reconcile-Ends :
    (now : Time) (dry_run : Bool) (w : World) (observations : List ClusterObservation)
    (scope : Scope) (reported_by : String)
    → HasDistinctServerIds w.servers
    → Ends
        (λ p.
          HasDistinctServerIds p.world.servers
          × (dry_run ≡ true → p.world ≡ w)
          × (dry_run ≡ false
              → All
                  (λ s. in_scope scope s.openshift ≡ true → is_seen p.seen s ≡ true)
                  p.world.servers))
        (reconcile now dry_run w observations scope reported_by)
unfolding reconcile IsClean Between Covers
reconcile-Ends now dry_run w observations scope reported_by h =
    bind-Ends (λ p. IsClean now dry_run w p.world) _ _ _
      (claim_all-Ends now dry_run w reported_by _ observations (h, λ _. refl))
      (λ p c.
        Ends-map _ _ (free_all now dry_run p (claimed_by scope p.world.servers))
          (λ p' (b, e). finish p p' b e)
          (free_all-Ends now dry_run w scope p.seen p _ refl
            (start-Between now dry_run w scope p.seen p.world c)))
  where
    finish :
        (p p' : Progress)
        → Between now dry_run w scope p.seen p'.world []
        → p'.seen ≡ p.seen
        → HasDistinctServerIds p'.world.servers
          × (dry_run ≡ true → p'.world ≡ w)
          × (dry_run ≡ false
              → All
                  (λ s. in_scope scope s.openshift ≡ true → is_seen p'.seen s ≡ true)
                  p'.world.servers)
    finish p p' ((h, dry), _, _, covers) e = (
      h,
      dry,
      λ wet.
          All-map _ p'.world.servers
            (λ s c i. elim (c i) [
              | inl k ↦ subst (λ l. is_seen l s ≡ true) (sym e) k
              | inr m ↦ absurd (Memᴰ.not-nil m)
            ])
            (covers wet),
    )
