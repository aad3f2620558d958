-- ===== src/Health/Facts/Laws.antt =====
-- The facts of a server: what the counts of disks and of fabric paths come to, and that every fact
-- has the type that the registry gives its metric.
use mathlib.Core.List.{Memᴰ}
use server_scan.Prelude.{
  ℤ, ◌+◌, ◌≤◌, String, Bool, true, false, not, none, some, List, [], ◌∷◌, map, filter, length, any,
  all, count, str_eq, eqb_ℤ, eqb_ℤ_iff, ltb_ℤ, leb_ℤ, ◌≡◌, refl, sym, ◌∙◌, subst, All, All-of_all,
  All-Memᴰ, length-filter_le, eq_iff, Bool-cases, inl, inr, arith,
}
use server_scan.Health.Values.{str}
use server_scan.Health.Metrics.{core_metrics, build_default_registry, get_fact}
use server_scan.Enums.{link_state_value}
use server_scan.Health.Condition.Total.{Conforms, has_type, is_str}
use server_scan.Health.Facts.{
  Server, StorageDrive, extract_facts, os_disks, data_disks, os_disk_capacity, smallest_of, min_ℤ,
  known_capacities, has_capacity, present, distinct, ConnectivityAttachment,
  compute_connectivity_facts,
}

all_texts : (ss : List String) → all is_str (map str ss) ≡ true
all_texts [] = refl
all_texts (s ∷ ss) = all_texts ss

-- The registry has the core metrics.
pub build_default_registry_lem : build_default_registry ≡ some (record { metrics = core_metrics })
unfolding build_default_registry
build_default_registry_lem = refl

-- Every core metric reads out of the facts of a server a value of its type.
pub extract_facts-Conforms :
    (lower : String → String) (server : Server)
    → Conforms (record { metrics = core_metrics }) (extract_facts lower server)
unfolding extract_facts get_fact has_type
extract_facts-Conforms lower server =
    let drives = all_texts (present (map (λ d. d.health) server.hardware.storage.drives)) in
    let links = all_texts (map (λ i. link_state_value i.link_state) server.network.interfaces) in
    let facts = extract_facts lower server in
    All-of_all (λ m. has_type m.type (m.resolver facts)) core_metrics (rw (drives, links) refl)

-- The OS disks and the data disks of a server are together as many as its drives.
pub os_disks-length :
    (drives : List StorageDrive)
    → length (os_disks drives) + length (data_disks drives) ≡ length drives
unfolding os_disks data_disks
os_disks-length drives = split (has_capacity (os_disk_capacity drives)) drives
  where
    split :
        (p : StorageDrive → Bool) (ds : List StorageDrive)
        → length (filter p ds) + length (filter (λ d. not (p d)) ds) ≡ length ds
    split p [] = omega arith
    split p (d ∷ ds) = ground (arith, split p ds)

min_ℤ_le : (c : ℤ) (ds : List ℤ) → leb_ℤ (min_ℤ c ds) c ≡ true
min_ℤ_le c [] = ground arith
min_ℤ_le c (d ∷ ds) = ground (arith, min_ℤ_le d ds, min_ℤ_le c ds)

min_ℤ_bounds :
    (m : ℤ) (c : ℤ) (ds : List ℤ) → leb_ℤ m (min_ℤ c ds) ≡ true → All (λ d. leb_ℤ m d ≡ true) ds
min_ℤ_bounds m c [] h = tt
min_ℤ_bounds m c (d ∷ ds) h = elim (Bool-cases (ltb_ℤ d c)) [
  | inl e ↦ let k = rw e at h in (ground (arith, min_ℤ_le d ds), min_ℤ_bounds m d ds k)
  | inr e ↦ let k = rw e at h in (ground (arith, min_ℤ_le c ds), min_ℤ_bounds m c ds k)
]

min_ℤ_among : (P : ℤ → Type 0) (c : ℤ) (ds : List ℤ) → P c → All P ds → P (min_ℤ c ds)
min_ℤ_among P c [] h a = h
min_ℤ_among P c (d ∷ ds) h (k, a) = elim (Bool-cases (ltb_ℤ d c)) [
  | inl e ↦ rw e (min_ℤ_among P d ds k a)
  | inr e ↦ rw e (min_ℤ_among P c ds h a)
]

any-same : (P : ℤ → Type 0) (x : ℤ) (xs : List ℤ) → any (eqb_ℤ x) xs ≡ true → All P xs → P x
any-same P x [] h a = cc h
any-same P x (y ∷ ys) h (p, a) = elim (Bool-cases (eqb_ℤ x y)) [
  | inl e ↦ subst P (sym ((eqb_ℤ_iff x y).0 e)) p
  | inr e ↦ any-same P x ys (rw e at h) a
]

All-of_distinct : (P : ℤ → Type 0) (xs : List ℤ) → All P (distinct eqb_ℤ xs) → All P xs
All-of_distinct P [] h = tt
All-of_distinct P (x ∷ xs) h = elim (Bool-cases (any (eqb_ℤ x) xs)) [
  | inl e ↦ let a = All-of_distinct P xs (rw e at h) in (any-same P x xs e a, a)
  | inr e ↦ let (p, a) = rw e at h in (p, All-of_distinct P xs a)
]

All-distinct : (P : ℤ → Type 0) (xs : List ℤ) → All P xs → All P (distinct eqb_ℤ xs)
All-distinct P [] h = tt
All-distinct P (x ∷ xs) (p, h) = elim (Bool-cases (any (eqb_ℤ x) xs)) [
  | inl e ↦ rw e (All-distinct P xs h)
  | inr e ↦ rw e (p, All-distinct P xs h)
]

-- Where all are one, at most one is distinct.
one_distinct : (c : ℤ) (xs : List ℤ) → All (λ x. x ≡ c) xs → smallest_of (distinct eqb_ℤ xs) ≡ none
one_distinct c [] h = refl
one_distinct c (x ∷ []) h = refl
one_distinct c (x ∷ y ∷ ys) (p, (q, h)) =
    let e : eqb_ℤ x y ≡ true = (eqb_ℤ_iff x y).1 (p ∙ sym q) in
    let a : any (eqb_ℤ x) (y ∷ ys) ≡ true = rw e refl in rw a (one_distinct c (y ∷ ys) (q, h))

smallest_of-bounds :
    (xs : List ℤ) (P : ℤ → Type 0) {c : ℤ}
    → smallest_of xs ≡ some c
    → All P xs
    → P c × All (λ d. leb_ℤ c d ≡ true) xs
smallest_of-bounds [] P h a = cc
smallest_of-bounds (x ∷ []) P h a = cc
smallest_of-bounds (x ∷ y ∷ ys) P {c} h (p, a) =
    let e : min_ℤ x (y ∷ ys) ≡ c = ground arith in
    let m = min_ℤ x (y ∷ ys) in
    subst (λ c. P c × All (λ d. leb_ℤ c d ≡ true) (x ∷ y ∷ ys)) e
      (
        min_ℤ_among P x (y ∷ ys) p a,
        (min_ℤ_le x (y ∷ ys), min_ℤ_bounds m x (y ∷ ys) (ground arith)),
      )

-- A capacity that marks the OS disks is one of those that are reported and not 0, none of them
-- is smaller, and not all of them are equal to it.
pub os_disk_capacity-least :
    (drives : List StorageDrive) {c : ℤ}
    → os_disk_capacity drives ≡ some c
    → Memᴰ c (known_capacities drives)
      × All (λ d. leb_ℤ c d ≡ true) (known_capacities drives)
      × ¬ All (λ d. d ≡ c) (known_capacities drives)
unfolding os_disk_capacity
os_disk_capacity-least drives {c} h =
    let xs = known_capacities drives in
    let (among, bounds) =
      smallest_of-bounds (distinct eqb_ℤ xs) (λ x. Memᴰ x xs) h (All-distinct _ xs (All-Memᴰ xs)) in
    (among, All-of_distinct _ xs bounds, λ one. cc (h, one_distinct c xs one))

-- The paths that are up and those that are down are together at most all paths, and those at
-- most all attachments.
pub compute_connectivity_facts_bound :
    (attachments : List ConnectivityAttachment)
    → let facts = compute_connectivity_facts attachments in
      (facts.fabric_paths_up + facts.fabric_paths_down ≤ facts.fabric_paths_total)
      × (facts.fabric_paths_total ≤ length attachments)
unfolding compute_connectivity_facts
compute_connectivity_facts_bound attachments = (
  two (filter (λ a. str_eq a.interface_kind "PHYSICAL") attachments),
  length-filter_le _ attachments,
)
  where
    two :
        (ds : List ConnectivityAttachment)
        → count (λ a. str_eq a.oper_state "UP") ds + count (λ a. str_eq a.oper_state "DOWN") ds
          ≤ length ds
    two [] = omega arith
    two (a ∷ ds) = elim (Bool-cases (str_eq a.oper_state "UP")) [
      | inl e ↦
          let d : str_eq a.oper_state "DOWN" ≡ false = rw ((eq_iff a.oper_state "UP").0 e) refl in
          rw (e, d) (omega (arith, two ds))
      | inr e ↦ elim (Bool-cases (str_eq a.oper_state "DOWN")) [
        | inl d ↦ rw (e, d) (omega (arith, two ds))
        | inr d ↦ rw (e, d) (omega (arith, two ds))
      ]
    ]
