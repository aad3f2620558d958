-- ===== src/Membership/Store.antt =====
-- The collection of servers under a write that checks the revision.
use mathlib.Core.List.{Memᴰ}
use server_scan.Prelude.{
  Time, Bool, true, false, ◌&&◌, some, List, [], ◌∷◌, ◌≡◌, refl, sym, ap, subst, All, All-map,
  All-at, str_eq, eq_iff, str_leb, str_leb_total, str_leb_antisymm, ◌==◌, Bool-cases, inl, inr, ◌⊎◌,
  if◌then◌else◌, arith,
}
use server_scan.Prelude.Order.{Order, on, str_order}
use server_scan.Prelude.Sort.Unique.{Apart, HasDistinctKeys}
use server_scan.Membership.{
  StoredServer, OpenShiftLifecycle, World, Outcome, done, failed, ◌>>=◌, replace_one,
  upsert_with_revision_check, same_membership, updated_server, write, Written,
}

-- The run ends, and its result satisfies `P`.
abbrev pub Ends {ℓ} : {A : Type ℓ} → (A → Type 0) → Outcome A → Type 0
Ends P (done a) = P a
Ends P (failed e) = ⊥

pub bind-Ends {ℓ κ} :
    {A : Type ℓ} {B : Type κ} (P : A → Type 0) (Q : B → Type 0) (m : Outcome A) (f : A → Outcome B)
    → Ends P m
    → ((a : A) → P a → Ends Q (f a))
    → Ends Q (m >>= f)
bind-Ends P Q (done a) f h k = k a h
bind-Ends P Q (failed e) f h k = absurd h

pub Ends-map {ℓ} :
    {A : Type ℓ} (P Q : A → Type 0) (m : Outcome A) → ((a : A) → P a → Q a) → Ends P m → Ends Q m
Ends-map P Q (done a) f h = f a h
Ends-map P Q (failed e) f h = h

abbrev pub id_order : Order StoredServer
id_order = on (λ s. s.id) str_order

abbrev pub HasDistinctServerIds : List StoredServer → Type 0
HasDistinctServerIds ss = HasDistinctKeys id_order ss

pub Apart-str_eq :
    (s t : StoredServer)
    → Apart id_order s t
    → (str_eq s.id t.id ≡ false) × (str_eq t.id s.id ≡ false)
Apart-str_eq s t h = (
  ground (arith, eq_iff s.id t.id, str_leb_total s.id s.id),
  ground (arith, eq_iff t.id s.id, str_leb_total s.id s.id),
)

-- The collection with the document in the place of the one with its id.
unfoldable pub put : StoredServer → List StoredServer → List StoredServer
put doc [] = []
put doc (s ∷ ss) = (if str_eq s.id doc.id then doc else s) ∷ put doc ss

pub put-absent :
    (doc : StoredServer) (ss : List StoredServer)
    → All (λ s. str_eq s.id doc.id ≡ false) ss
    → put doc ss ≡ ss
unfolding put
put-absent doc [] h = refl
put-absent doc (s ∷ ss) (e, h) = rw e (ap (◌∷◌ s) (put-absent doc ss h))

pub put-All :
    (P : StoredServer → Type 0) (doc : StoredServer) (ss : List StoredServer)
    → P doc
    → All (λ s. str_eq s.id doc.id ≡ false → P s) ss
    → All P (put doc ss)
unfolding put
put-All P doc [] p h = tt
put-All P doc (s ∷ ss) p (q, h) = elim (Bool-cases (str_eq s.id doc.id)) [
  | inl e ↦ rw e (p, put-All P doc ss p h)
  | inr e ↦ rw e (q e, put-All P doc ss p h)
]

pub put-Memᴰ :
    (doc : StoredServer) {s : StoredServer} {ss : List StoredServer}
    → str_eq s.id doc.id ≡ false
    → Memᴰ s ss
    → Memᴰ s (put doc ss)
unfolding put
put-Memᴰ doc e (Memᴰ.head f) =
    let k = subst (λ t. str_eq t.id doc.id ≡ false) f e in Memᴰ.head (rw k f)
put-Memᴰ doc e (Memᴰ.tail m) = Memᴰ.tail (put-Memᴰ doc e m)

pub Apart-of_str_eq : (s t : StoredServer) → str_eq s.id t.id ≡ false → Apart id_order s t
Apart-of_str_eq s t e = ground (arith, eq_iff s.id t.id, str_leb_antisymm s.id t.id)

-- The servers apart from one that has the id of the document are not the document's.
pub absent_of_Apart :
    (doc s : StoredServer) (ss : List StoredServer)
    → s.id ≡ doc.id
    → All (Apart id_order s) ss
    → All (λ t. str_eq t.id doc.id ≡ false) ss
absent_of_Apart doc s ss e a =
    All-map _ ss (λ t h. subst (λ i. str_eq t.id i ≡ false) e ((Apart-str_eq s t h).1)) a

pub put-HasDistinctServerIds :
    (doc : StoredServer) (ss : List StoredServer)
    → HasDistinctServerIds ss
    → HasDistinctServerIds (put doc ss)
unfolding put
put-HasDistinctServerIds doc [] h = tt
put-HasDistinctServerIds doc (s ∷ ss) (a, h) = elim (Bool-cases (str_eq s.id doc.id)) [
  | inl e ↦
      let same = (eq_iff s.id doc.id).0 e in
      let b : All (Apart id_order doc) ss =
        subst (λ i. All (λ t. (str_leb i t.id && str_leb t.id i) ≡ false) ss) same a in
      rw (e, put-absent doc ss (absent_of_Apart doc s ss same a)) (b, h)
  | inr e ↦ rw e (
    put-All (Apart id_order s) doc ss (Apart-of_str_eq s doc e) (All-map _ ss (λ t h _. h) a),
    put-HasDistinctServerIds doc ss h,
  )
]

pub replace_one-here :
    (doc s : StoredServer) (ss : List StoredServer)
    → doc.id ≡ s.id
    → All (Apart id_order s) ss
    → replace_one doc s.revision (s ∷ ss) ≡ some (put doc (s ∷ ss))
unfolding replace_one put
replace_one-here doc s ss e a =
    let same : str_eq s.id doc.id ≡ true = (eq_iff s.id doc.id).1 (sym e) in
    let current : (s.revision == s.revision) ≡ true = ground arith in
    rw (same, current, put-absent doc ss (absent_of_Apart doc s ss (sym e) a)) refl

-- A server of the collection is replaced by its successor.
pub replace_one-put :
    (doc : StoredServer) {s : StoredServer} {ss : List StoredServer}
    → doc.id ≡ s.id
    → Memᴰ s ss
    → HasDistinctServerIds ss
    → replace_one doc s.revision ss ≡ some (put doc ss)
unfolding replace_one put
replace_one-put doc {s} e (Memᴰ.head {x = t} {xs = ss} f) (a, h) =
    let b = subst (λ t. All (Apart id_order t) ss) (sym f) a in
    subst (λ t. replace_one doc s.revision (t ∷ ss) ≡ some (put doc (t ∷ ss))) f
      (replace_one-here doc s ss e b)
replace_one-put doc {s} e (Memᴰ.tail {x = t} {xs = ss} m) (a, h) =
    let k : str_eq t.id doc.id ≡ false =
      subst (λ i. str_eq t.id i ≡ false) (sym e)
        (Apart-str_eq t s (All-at (Apart id_order t) m a)).0 in
    rw (k, replace_one-put doc e m h) refl

module _ (now : Time) (dry_run : Bool) (w : World) (server : StoredServer)
    (updated : OpenShiftLifecycle) where
  -- What a write does: nothing where nothing changes or the run is dry, or one replacement.
  unfoldable pub IsEffect : Written → Type 0
  IsEffect r =
      ((r.world ≡ w) × (same_membership server.openshift updated ≡ true))
      ⊎ ((r.world ≡ w) × (dry_run ≡ true))
      ⊎ ((dry_run ≡ false)
          × (r.world.servers ≡ put (updated_server now dry_run server updated) w.servers))

  pub write-Ends :
      HasDistinctServerIds w.servers
      → Memᴰ server w.servers
      → Ends IsEffect (write now dry_run w server updated)
  unfolding IsEffect write upsert_with_revision_check
  write-Ends h m = elim (Bool-cases (same_membership server.openshift updated)) [
    | inl e ↦ rw e (inl (refl, e))
    | inr e ↦ elim (Bool-cases dry_run) [
      | inl dry ↦ rw (e, dry) (inr (inl (refl, refl)))
      | inr wet ↦
          let doc = updated_server now dry_run server updated in
          let found = replace_one-put doc refl m h in rw (e, wet, found) (inr (inr (refl, refl)))
    ]
  ]
