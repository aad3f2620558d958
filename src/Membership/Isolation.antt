-- ===== src/Membership/Isolation.antt =====
-- A run leaves every server alone that is in no way its own.
use mathlib.Core.List.{Memᴰ}
use server_scan.Prelude.{
  ℕ, String, Time, Bool, true, false, ◌&&◌, Option, none, some, List, [], ◌∷◌, any, length, ◌≡◌,
  refl, sym, ◌∙◌, subst, All, All-map, All-Memᴰ, All-at, All-filter_self, All-to_filter, str_eq,
  ◌==◌, Bool-cases, inl, inr, ◌⊎◌, arith,
}
use server_scan.Prelude.Sort.Laws.{sort-All}
use server_scan.Prelude.Sort.Unique.{Apart}
use server_scan.Membership.{
  StoredServer, OpenShiftLifecycle, ClusterObservation, World, Outcome, done, failed, ◌>>=◌, Scope,
  in_scope, name_order, find_by_hostname, claimed_by, keep, replace_one, replaced,
  upsert_with_revision_check, same_membership, updated_server, write, Progress, claim_of,
  free_lifecycle, claim, claim_all, free, free_all, start, reconcile,
}
use server_scan.Membership.Store.{Ends, bind-Ends, id_order, HasDistinctServerIds, Apart-str_eq}
use server_scan.Membership.Claims.{IsClean, claim-Ends, found-Memᴰ, first_server-All}
use server_scan.Membership.Ownership.{is_seen, reconcile-Ends}

-- If the run ends, its result satisfies `P`.
abbrev Holds {ℓ} : {A : Type ℓ} → (A → Type 0) → Outcome A → Type 0
Holds P (done a) = P a
Holds P (failed e) = Unit

bind-Holds {ℓ κ} :
    {A : Type ℓ} {B : Type κ} (P : A → Type 0) (Q : B → Type 0) (m : Outcome A) (f : A → Outcome B)
    → Holds P m
    → ((a : A) → P a → Holds Q (f a))
    → Holds Q (m >>= f)
bind-Holds P Q (done a) f h k = k a h
bind-Holds P Q (failed e) f h k = tt

Ends-of_Holds {ℓ} :
    {A : Type ℓ} (P Q : A → Type 0) (m : Outcome A) → Ends P m → Holds Q m → Ends Q m
Ends-of_Holds P Q (done a) h k = k
Ends-of_Holds P Q (failed e) h k = h

Holds-of_Ends {ℓ} : {A : Type ℓ} (P : A → Type 0) (m : Outcome A) → Ends P m → Holds P m
Holds-of_Ends P (done a) h = h
Holds-of_Ends P (failed e) h = tt

both {ℓ} :
    {A : Type ℓ} (P Q : A → Type 0) (m : Outcome A) → Ends P m → Holds Q m → Ends (λ a. P a × Q a) m
both P Q (done a) h k = (h, k)
both P Q (failed e) h k = h

-- Two servers of a collection with one id are one.
one_server :
    {s t : StoredServer} {ss : List StoredServer}
    → Memᴰ s ss
    → Memᴰ t ss
    → HasDistinctServerIds ss
    → str_eq s.id t.id ≡ true
    → s ≡ t
one_server (Memᴰ.head e) (Memᴰ.head f) h k = e ∙ sym f
one_server {s} {t} (Memᴰ.head {x = u} e) (Memᴰ.tail m) (a, h) k =
    let apart = (Apart-str_eq u t (All-at (Apart id_order u) m a)).0 in
    let other = subst (λ v. str_eq v.id t.id ≡ false) (sym e) apart in cc (other, k)
one_server {s} {t} (Memᴰ.tail m) (Memᴰ.head {x = u} f) (a, h) k =
    let apart = (Apart-str_eq u s (All-at (Apart id_order u) m a)).1 in
    let other = subst (λ v. str_eq s.id v.id ≡ false) (sym f) apart in cc (other, k)
one_server (Memᴰ.tail m) (Memᴰ.tail n) (a, h) k = one_server m n h k

module _ (d : StoredServer) where
  abbrev IsKept : Option (List StoredServer) → Type 0
  IsKept none = Unit
  IsKept (some ss) = Memᴰ d ss

  keep-IsKept_head : (s : StoredServer) (o : Option (List StoredServer)) → d ≡ s → IsKept (keep s o)
  keep-IsKept_head s none e = tt
  keep-IsKept_head s (some ss) e = Memᴰ.head e

  keep-IsKept_tail :
      (s : StoredServer) (o : Option (List StoredServer)) → IsKept o → IsKept (keep s o)
  keep-IsKept_tail s none h = tt
  keep-IsKept_tail s (some ss) h = Memᴰ.tail h

  replace_one-IsKept :
      (doc : StoredServer) (n : ℕ) {ss : List StoredServer}
      → str_eq d.id doc.id ≡ false
      → Memᴰ d ss
      → IsKept (replace_one doc n ss)
  unfolding replace_one
  replace_one-IsKept doc n e (Memᴰ.head {x = s} {xs = ss} f) =
      let k = subst (λ t. str_eq t.id doc.id ≡ false) f e in
      rw k (keep-IsKept_head s (replace_one doc n ss) f)
  replace_one-IsKept doc n e (Memᴰ.tail {x = s} {xs = ss} m) =
      elim (Bool-cases (str_eq s.id doc.id && (s.revision == n))) [
        | inl k ↦ rw k (Memᴰ.tail m)
        | inr k ↦ rw k (keep-IsKept_tail s (replace_one doc n ss) (replace_one-IsKept doc n e m))
      ]

  replaced-Holds :
      (doc : StoredServer) (ss : List StoredServer) (o : Option (List StoredServer))
      → IsKept o
      → Holds (λ ss'. Memᴰ d ss') (replaced doc ss o)
  replaced-Holds doc ss none h = tt
  replaced-Holds doc ss (some ss') h = h

  -- A write of another server keeps it.
  write-Holds :
      (now : Time) (dry_run : Bool) (w : World) (s : StoredServer) (updated : OpenShiftLifecycle)
      → str_eq d.id s.id ≡ false
      → Memᴰ d w.servers
      → Holds (λ r. Memᴰ d r.world.servers) (write now dry_run w s updated)
  unfolding write upsert_with_revision_check
  write-Holds now dry_run w s updated e m =
      elim (Bool-cases (same_membership s.openshift updated)) [
        | inl same ↦ rw same m
        | inr differs ↦ elim (Bool-cases dry_run) [
          | inl dry ↦ rw (differs, dry) m
          | inr wet ↦
              let doc = updated_server now dry_run s updated in
              rw (differs, wet)
                (bind-Holds (λ ss. Memᴰ d ss) _ _ _
                  (replaced-Holds doc w.servers (replace_one doc s.revision w.servers)
                    (replace_one-IsKept doc s.revision e m))
                  (λ ss k. k))
        ]
      ]

  free_all-Holds :
      (now : Time) (dry_run : Bool) (p : Progress) (rest : List StoredServer)
      → All (λ s. str_eq d.id s.id ≡ false) rest
      → Memᴰ d p.world.servers
      → Holds (λ p'. Memᴰ d p'.world.servers) (free_all now dry_run p rest)
  unfolding free_all
  free_all-Holds now dry_run p [] a m = m
  free_all-Holds now dry_run p (s ∷ rest) (e, a) m =
      bind-Holds (λ p'. Memᴰ d p'.world.servers) _ _ _ (one (Bool-cases (is_seen p.seen s)))
        (λ p' m'. free_all-Holds now dry_run p' rest a m')
    where
      one :
          (is_seen p.seen s ≡ true) ⊎ (is_seen p.seen s ≡ false)
          → Holds (λ p'. Memᴰ d p'.world.servers) (free now dry_run p s)
      one (inl k) = rw k m
      one (inr k) = rw k (
          bind-Holds (λ r. Memᴰ d r.world.servers) _ _ _
            (write-Holds now dry_run p.world s (free_lifecycle now dry_run) e m) (λ r k. k))

  -- A server that a hostname finds is not one of another name.
  found-other :
      (ss : List StoredServer) (hostname : String) {s : StoredServer}
      → HasDistinctServerIds ss
      → Memᴰ d ss
      → str_eq d.name_normalized hostname ≡ false
      → find_by_hostname ss hostname ≡ some s
      → str_eq d.id s.id ≡ false
  unfolding find_by_hostname
  found-other ss hostname {s} h m other found =
      let named =
        first_server-All (λ t. str_eq t.name_normalized hostname ≡ true) _ found
          (sort-All name_order _ _
            (All-filter_self {0, 0} (λ t. str_eq t.name_normalized hostname) ss)) in
      elim (Bool-cases (str_eq d.id s.id)) [
        | inr e ↦ e
        | inl e ↦
            let same =
              one_server m (found-Memᴰ ss hostname (unfold find_by_hostname in found)) h e in
            let wrong = subst (λ t. str_eq t.name_normalized hostname ≡ true) (sym same) named in
            cc (other, wrong)
      ]

  module _ (now : Time) (dry_run : Bool) (w₀ : World) (reported_by : String) where
    claim-Holds :
        (p : Progress) (o : ClusterObservation) (found : Option StoredServer)
        → ((s : StoredServer) → found ≡ some s → str_eq d.id s.id ≡ false)
        → Memᴰ d p.world.servers
        → Holds (λ p'. Memᴰ d p'.world.servers) (claim now dry_run reported_by p o found)
    claim-Holds p o none f m = m
    claim-Holds p o (some s) f m =
        bind-Holds (λ r. Memᴰ d r.world.servers) _ _ _
          (write-Holds now dry_run p.world s (claim_of now dry_run reported_by o) (f s refl) m)
          (λ r k. k)

    claim_all-kept :
        (p : Progress) (os : List ClusterObservation)
        → IsClean now dry_run w₀ p.world
        → Memᴰ d p.world.servers
        → any (λ o. str_eq d.name_normalized o.hostname) os ≡ false
        → Ends
            (λ p'. IsClean now dry_run w₀ p'.world × Memᴰ d p'.world.servers)
            (claim_all now dry_run reported_by p os)
    unfolding claim_all
    claim_all-kept p [] c m h = (c, m)
    claim_all-kept p (o ∷ os) c m h =
        let found = find_by_hostname p.world.servers o.hostname in
        let round =
          claim-Ends now dry_run w₀ reported_by p o found c
            (λ s e. found-Memᴰ p.world.servers o.hostname e) in
        let kept =
          claim-Holds p o found
            (λ s e. found-other p.world.servers o.hostname (distinct p.world c) m (ground arith) e)
            m in
        bind-Ends (λ p'. IsClean now dry_run w₀ p'.world × Memᴰ d p'.world.servers) _ _ _
          (both _ _ (claim now dry_run reported_by p o found) round kept)
          (λ p' (c', m'). claim_all-kept p' os c' m' (ground arith))
      where
        distinct : (w : World) → IsClean now dry_run w₀ w → HasDistinctServerIds w.servers
        distinct w c = unfold IsClean in c.0

-- Over servers with distinct ids, a server that is not in the scope and whose normalized name no
-- observation gives is unchanged in the collection after a reconciliation, which ends without an
-- error.
pub reconcile-isolated :
    (now : Time) (dry_run : Bool) (w : World) (observations : List ClusterObservation)
    (scope : Scope) (reported_by : String) (d : StoredServer)
    → HasDistinctServerIds w.servers
    → Memᴰ d w.servers
    → in_scope scope d.openshift ≡ false
    → any (λ o. str_eq d.name_normalized o.hostname) observations ≡ false
    → Ends (λ p. Memᴰ d p.world.servers) (reconcile now dry_run w observations scope reported_by)
unfolding reconcile IsClean claimed_by
reconcile-isolated now dry_run w observations scope reported_by d h m outside unseen =
    let p₀ = start now dry_run w (length observations) in
    let P : Progress → Type 0 = λ p. IsClean now dry_run w p.world × Memᴰ d p.world.servers in
    let Q : Progress → Type 0 = λ p. Memᴰ d p.world.servers in
    let first =
      claim_all-kept d now dry_run w reported_by p₀ observations (h, λ _. refl) m unseen in
    Ends-of_Holds _ _ (reconcile now dry_run w observations scope reported_by)
      (reconcile-Ends now dry_run w observations scope reported_by h)
      (bind-Holds P Q (claim_all now dry_run reported_by p₀ observations)
        (λ p. free_all now dry_run p (claimed_by scope p.world.servers))
        (Holds-of_Ends P (claim_all now dry_run reported_by p₀ observations) first)
        (λ p (c, k).
          free_all-Holds d now dry_run p (claimed_by scope p.world.servers) (apart p.world c.0 k)
            k))
  where
    other :
        (s : StoredServer)
        → (str_eq d.id s.id ≡ true → d ≡ s)
        → in_scope scope s.openshift ≡ true
        → str_eq d.id s.id ≡ false
    other s one inside = elim (Bool-cases (str_eq d.id s.id)) [
      | inr e ↦ e
      | inl e ↦
          let same = subst (λ t. in_scope scope t.openshift ≡ false) (one e) outside in
          cc (same, inside)
    ]

    apart :
        (v : World)
        → HasDistinctServerIds v.servers
        → Memᴰ d v.servers
        → All (λ s. str_eq d.id s.id ≡ false) (claimed_by scope v.servers)
    apart v h k = sort-All name_order _ _ (
        All-to_filter _ (λ s. in_scope scope s.openshift) v.servers
          (All-map _ v.servers (λ s n inside. other s (one_server k n h) inside)
            (All-Memᴰ v.servers)))
