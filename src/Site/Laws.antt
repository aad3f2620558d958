-- ===== src/Site/Laws.antt =====
-- The table of the sites that a name holds.
use server_scan.Prelude.{
  zero, suc, length, take, ℕ, String, true, false, Bool-cases, inl, inr, get_or, List, [], ◌∷◌, all,
  All, All-append, str_eq, eq_iff, contains, leb, dict_get, dict_set, ◌≡◌, refl, sym, arith,
}
use server_scan.Site.{
  smaller, note, note_all, hit_at, runs, all_runs, inside, all_inside, hits, matches, max_tokens,
  join,
}

-- One entry stays one while all hits are of its code.
pub note_all-same :
    (code : String) (hs : List (String × ℕ)) (i : ℕ)
    → all (λ h. str_eq h.0 code) hs ≡ true
    → (j : ℕ) × (note_all ((code, i) ∷ []) hs ≡ (code, j) ∷ [])
unfolding note_all
note_all-same code [] i h = (i, refl)
note_all-same code ((c, k) ∷ hs) i h =
    let same : str_eq c code ≡ true = ground arith in
    let rest : all (λ h. str_eq h.0 code) hs ≡ true = ground arith in
    let e : c ≡ code = (eq_iff c code).0 same in
    let back : str_eq code c ≡ true = (eq_iff code c).1 (sym e) in
    let (j, f) = note_all-same code hs (smaller i k) rest in (j, rw back f)

-- At least two entries.
abbrev pub HasTwo : List (String × ℕ) → Type 0
HasTwo [] = ⊥
HasTwo (p ∷ []) = ⊥
HasTwo (p ∷ q ∷ ps) = Unit

dict_set-HasTwo :
    (c : String) (k : ℕ) (ps : List (String × ℕ)) → HasTwo ps → HasTwo (dict_set c k ps)
dict_set-HasTwo c k [] h = absurd h
dict_set-HasTwo c k ((d, i) ∷ []) h = absurd h
dict_set-HasTwo c k ((d, i) ∷ (e, j) ∷ ps) h = ground (arith, h)

note_all-HasTwo : (hs ps : List (String × ℕ)) → HasTwo ps → HasTwo (note_all ps hs)
unfolding note_all
note_all-HasTwo [] ps h = h
note_all-HasTwo ((c, k) ∷ hs) ps h =
    note_all-HasTwo hs (note ps (c, k))
      (dict_set-HasTwo c (smaller (get_or (dict_get c ps) k) k) ps h)

pub note_all-other :
    (code : String) (hs : List (String × ℕ)) (i : ℕ)
    → all (λ h. str_eq h.0 code) hs ≡ false
    → HasTwo (note_all ((code, i) ∷ []) hs)
unfolding note_all
note_all-other code [] i h = cc h
note_all-other code ((c, k) ∷ hs) i h = elim (Bool-cases (str_eq code c)) [
  | inl same ↦
      let e : code ≡ c = (eq_iff code c).0 same in
      let back : str_eq c code ≡ true = (eq_iff c code).1 (sym e) in
      let rest : all (λ h. str_eq h.0 code) hs ≡ false = ground arith in
      rw same (note_all-other code hs (smaller i k) rest)
  | inr other ↦ rw other (note_all-HasTwo hs ((code, i) ∷ (c, smaller k k) ∷ []) tt)
]

module _ (P : String → Type 0) where
  -- The values of a table, and the sites of hits or of a table of positions, satisfy `P`.
  abbrev pub Values : List (String × String) → Type 0
  Values d = All (λ p. P p.1) d

  abbrev pub Sites : List (String × ℕ) → Type 0
  Sites hs = All (λ h. P h.0) hs

  pub dict_set-Values :
      (k v : String) (d : List (String × String)) → P v → Values d → Values (dict_set k v d)
  dict_set-Values k v [] p h = (p, tt)
  dict_set-Values k v ((j, w) ∷ d) p (q, h) = elim (Bool-cases (str_eq j k)) [
    | inl e ↦ rw e (p, h)
    | inr e ↦ rw e (q, dict_set-Values k v d p h)
  ]

  hit_at-Sites :
      (start : ℕ) (k : String) (d : List (String × String))
      → Values d
      → Sites (hit_at start (dict_get k d))
  hit_at-Sites start k [] h = tt
  hit_at-Sites start k ((j, w) ∷ d) (q, h) = elim (Bool-cases (str_eq j k)) [
    | inl e ↦ rw e (q, tt)
    | inr e ↦ rw e (hit_at-Sites start k d h)
  ]

  runs-Sites :
      (d : List (String × String)) (size start : ℕ) (ts : List String)
      → Values d
      → Sites (runs d size start ts)
  unfolding runs
  runs-Sites d size start [] h = tt
  runs-Sites d size start (t ∷ ts) h =
      let here = hit_at-Sites start (join (take size (t ∷ ts))) d h in
      let rest = runs-Sites d size (suc start) ts h in
      elim (Bool-cases (leb size (length (t ∷ ts)))) [
        | inl e ↦ rw e (
            All-append (λ h. P h.0) (hit_at start (dict_get (join (take size (t ∷ ts))) d)) _ here
              rest)
        | inr e ↦ rw e rest
      ]

  all_runs-Sites :
      (d : List (String × String)) (left size : ℕ) (ts : List String)
      → Values d
      → Sites (all_runs d left size ts)
  unfolding all_runs
  all_runs-Sites d zero size ts h = tt
  all_runs-Sites d (suc left) size ts h =
      All-append (λ h. P h.0) (runs d size 0 ts) _ (runs-Sites d size 0 ts h)
        (all_runs-Sites d left (suc size) ts h)

  inside-Sites :
      (d : List (String × String)) (index : ℕ) (t : String) → Values d → Sites (inside d index t)
  unfolding inside
  inside-Sites [] index t h = tt
  inside-Sites ((k, v) ∷ d) index t (q, h) = elim (Bool-cases (contains k t)) [
    | inl e ↦ rw e (q, inside-Sites d index t h)
    | inr e ↦ rw e (inside-Sites d index t h)
  ]

  all_inside-Sites :
      (d : List (String × String)) (index : ℕ) (ts : List String)
      → Values d
      → Sites (all_inside d index ts)
  unfolding all_inside
  all_inside-Sites d index [] h = tt
  all_inside-Sites d index (t ∷ ts) h =
      All-append (λ h. P h.0) (inside d index t) _ (inside-Sites d index t h)
        (all_inside-Sites d (suc index) ts h)

  dict_set-Sites :
      (k : String) (v : ℕ) (ps : List (String × ℕ)) → P k → Sites ps → Sites (dict_set k v ps)
  dict_set-Sites k v [] p h = (p, tt)
  dict_set-Sites k v ((j, w) ∷ ps) p (q, h) = elim (Bool-cases (str_eq j k)) [
    | inl e ↦ rw e (q, h)
    | inr e ↦ rw e (q, dict_set-Sites k v ps p h)
  ]

  note_all-Sites : (hs ps : List (String × ℕ)) → Sites hs → Sites ps → Sites (note_all ps hs)
  unfolding note_all
  note_all-Sites [] ps h k = k
  note_all-Sites ((c, i) ∷ hs) ps (p, h) k =
      note_all-Sites hs (note ps (c, i)) h
        (dict_set-Sites c (smaller (get_or (dict_get c ps) i) i) ps p k)

  -- A site that is found is a value of the table that was searched.
  pub matches-Sites :
      (ts : List String) (d : List (String × String)) → Values d → Sites (matches ts d)
  unfolding matches hits
  matches-Sites ts d h =
      note_all-Sites (hits ts d) []
        (All-append (λ h. P h.0) (all_runs d (max_tokens d) 1 ts) _
          (all_runs-Sites d (max_tokens d) 1 ts h) (all_inside-Sites d 0 ts h))
        tt
