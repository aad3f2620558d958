-- ===== src/Membership/Claims.antt =====
-- The loop over the observations: it ends, and keeps the ids of the servers distinct.
use mathlib.Core.List.{Memᴰ}
use server_scan.Prelude.{
  String, Time, Bool, true, Option, none, some, List, [], ◌∷◌, ◌≡◌, refl, sym, subst, All, All-Memᴰ,
  All-filter, str_eq, inl, inr, arith,
}
use server_scan.Prelude.Sort.Laws.{sort-All}
use server_scan.Membership.{
  StoredServer, OpenShiftLifecycle, ClusterObservation, World, name_order, list_servers,
  first_server, find_by_hostname, Written, Progress, claim_of, claim, claim_all,
}
use server_scan.Membership.Store.{
  Ends, HasDistinctServerIds, IsEffect, bind-Ends, put-HasDistinctServerIds, write-Ends,
}

pub first_server-All :
    (P : StoredServer → Type 0) (ss : List StoredServer) {s : StoredServer}
    → first_server ss ≡ some s
    → All P ss
    → P s
first_server-All P [] e a = cc e
first_server-All P (t ∷ ss) e (p, a) = subst P (ground arith) p

pub list_servers-All :
    (P : StoredServer → Type 0) (p : StoredServer → Bool) (ss : List StoredServer)
    → All P ss
    → All P (list_servers p ss)
list_servers-All P p ss a = sort-All name_order P _ (All-filter P p ss a)

pub found-Memᴰ :
    (ss : List StoredServer) (hostname : String) {s : StoredServer}
    → find_by_hostname ss hostname ≡ some s
    → Memᴰ s ss
unfolding find_by_hostname
found-Memᴰ ss hostname e =
    first_server-All _ _ e
      (list_servers-All _ (λ s. str_eq s.name_normalized hostname) ss (All-Memᴰ ss))

module _ (now : Time) (dry_run : Bool) (w₀ : World) where
  -- No two servers share an id, and a dry run has written nothing.
  unfoldable pub IsClean : World → Type 0
  IsClean w = HasDistinctServerIds w.servers × (dry_run ≡ true → w ≡ w₀)

  pub IsClean-effect :
      (w : World) (server : StoredServer) (updated : OpenShiftLifecycle) (r : Written)
      → IsClean w
      → IsEffect now dry_run w server updated r
      → IsClean r.world
  unfolding IsClean IsEffect
  IsClean-effect w server updated r (h, dry) (inl (e, _)) =
      subst (λ v. HasDistinctServerIds v.servers × (dry_run ≡ true → v ≡ w₀)) (sym e) (h, dry)
  IsClean-effect w server updated r (h, dry) (inr (inl (e, _))) =
      subst (λ v. HasDistinctServerIds v.servers × (dry_run ≡ true → v ≡ w₀)) (sym e) (h, dry)
  IsClean-effect w server updated r (h, dry) (inr (inr (wet, e))) = (
    subst HasDistinctServerIds (sym e) (put-HasDistinctServerIds _ w.servers h),
    λ d. cc (wet, d),
  )

  pub claim-Ends :
      (reported_by : String) (p : Progress) (o : ClusterObservation) (found : Option StoredServer)
      → IsClean p.world
      → ((s : StoredServer) → found ≡ some s → Memᴰ s p.world.servers)
      → Ends (λ p'. IsClean p'.world) (claim now dry_run reported_by p o found)
  claim-Ends reported_by p o none c m = c
  claim-Ends reported_by p o (some s) c m =
      bind-Ends (IsEffect now dry_run p.world s (claim_of now dry_run reported_by o)) _ _ _
        (write-Ends now dry_run p.world s _ (distinct c) (m s refl))
        (λ r e. IsClean-effect p.world s _ r c e)
    where
      distinct : IsClean p.world → HasDistinctServerIds p.world.servers
      distinct c = unfold IsClean in c.0

  pub claim_all-Ends :
      (reported_by : String) (p : Progress) (os : List ClusterObservation)
      → IsClean p.world
      → Ends (λ p'. IsClean p'.world) (claim_all now dry_run reported_by p os)
  unfolding claim_all
  claim_all-Ends reported_by p [] c = c
  claim_all-Ends reported_by p (o ∷ os) c =
      bind-Ends (λ p'. IsClean p'.world) _ _ _
        (claim-Ends reported_by p o (find_by_hostname p.world.servers o.hostname) c
          (λ s e. found-Memᴰ p.world.servers o.hostname e))
        (λ p' c'. claim_all-Ends reported_by p' os c')
