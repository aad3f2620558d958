-- ===== src/Store/Laws.antt =====
-- A write lands on the revision that its writer has read, or not at all.
use server_scan.Prelude.{
  ℕ, String, true, false, Bool-cases, inl, inr, none, some, Option-cases, subst, List, [], ◌∷◌, All,
  All-map, any, str_eq, eq_iff, ◌==◌, ◌≡◌, refl, arith, if◌then◌else◌,
}
use server_scan.Prelude.Result.{Result, returned, raised}
use server_scan.Membership.{StoreError, not_found, revision_conflict}
use server_scan.Store.{Versioned, get_by_id, replace_one, upsert_with_revision_check}

module _ {D : Type 0} (fields : Versioned D) where
  -- Ids are the primary key.
  abbrev pub HasDistinctIds : List D → Type 0
  HasDistinctIds [] = Unit
  HasDistinctIds (d ∷ ds) =
      All (λ e. str_eq (fields.id_of d) (fields.id_of e) ≡ false) ds × HasDistinctIds ds

  -- A write on the revision that is stored is carried out, and changes the document of its id only.
  pub replace_one-current :
      (doc old : D) (ds : List D)
      → get_by_id fields ds (fields.id_of doc) ≡ some old
      → (ds' : List D) × (replace_one fields doc (fields.revision_of old) ds ≡ some ds')
        × ((id : String)
            → get_by_id fields ds' id
              ≡ (if str_eq (fields.id_of doc) id then some doc else get_by_id fields ds id))
  unfolding get_by_id replace_one
  replace_one-current doc old [] h = cc h
  replace_one-current doc old (d ∷ ds) h =
      elim (Bool-cases (str_eq (fields.id_of d) (fields.id_of doc))) [
        | inl same ↦
            let e : some d ≡ some old = rw same at h in
            let current : (fields.revision_of d == fields.revision_of old) ≡ true = ground arith in
            (
              doc ∷ ds,
              rw (same, current) refl,
              λ id. ground (arith, eq_iff (fields.id_of d) (fields.id_of doc)),
            )
        | inr other ↦
            let e : get_by_id fields ds (fields.id_of doc) ≡ some old = rw other at h in
            let (ds', found, gets) = replace_one-current doc old ds e in
            (
              d ∷ ds',
              rw (other, found) refl,
              λ id. ground (
                arith,
                gets id,
                eq_iff (fields.id_of d) id,
                eq_iff (fields.id_of doc) id,
                eq_iff (fields.id_of d) (fields.id_of doc),
              ),
            )
      ]

  replace_one-absent :
      (doc : D) (expected : ℕ) (ds : List D)
      → All (λ d. str_eq (fields.id_of d) (fields.id_of doc) ≡ false) ds
      → replace_one fields doc expected ds ≡ none
  unfolding replace_one
  replace_one-absent doc expected [] h = refl
  replace_one-absent doc expected (d ∷ ds) (e, h) =
      rw (e, replace_one-absent doc expected ds h) refl

  replace_one-stale :
      (doc old : D) (expected : ℕ) (ds : List D)
      → HasDistinctIds ds
      → get_by_id fields ds (fields.id_of doc) ≡ some old
      → (fields.revision_of old == expected) ≡ false
      → replace_one fields doc expected ds ≡ none
  unfolding get_by_id replace_one
  replace_one-stale doc old expected [] distinct h k = refl
  replace_one-stale doc old expected (d ∷ ds) (apart, distinct) h k =
      elim (Bool-cases (str_eq (fields.id_of d) (fields.id_of doc))) [
        | inl same ↦
            let e : some d ≡ some old = rw same at h in
            let other : (fields.revision_of d == expected) ≡ false = ground arith in
            let absent = replace_one-absent doc expected ds (
              All-map _ ds
                (λ x a. ground (
                  arith,
                  eq_iff (fields.id_of d) (fields.id_of doc),
                  eq_iff (fields.id_of d) (fields.id_of x),
                  eq_iff (fields.id_of x) (fields.id_of doc),
                ))
                apart) in
            rw (same, other, absent) refl
        | inr other ↦
            let e : get_by_id fields ds (fields.id_of doc) ≡ some old = rw other at h in
            rw (other, replace_one-stale doc old expected ds distinct e k) refl
      ]

  absent_of_get :
      (ds : List D) (id : String)
      → get_by_id fields ds id ≡ none
      → All (λ d. str_eq (fields.id_of d) id ≡ false) ds
  unfolding get_by_id
  absent_of_get [] id h = tt
  absent_of_get (d ∷ ds) id h = elim (Bool-cases (str_eq (fields.id_of d) id)) [
    | inl same ↦ let e : some d ≡ none = rw same at h in cc e
    | inr other ↦ (other, absent_of_get ds id (rw other at h))
  ]

  any_of_get :
      (ds : List D) (id : String) (old : D)
      → get_by_id fields ds id ≡ some old
      → any (λ d. str_eq (fields.id_of d) id) ds ≡ true
  unfolding get_by_id
  any_of_get [] id old h = cc h
  any_of_get (d ∷ ds) id old h = ground (arith, any_of_get ds id old)

  not_any_of_absent :
      (ds : List D) (id : String)
      → All (λ d. str_eq (fields.id_of d) id ≡ false) ds
      → any (λ d. str_eq (fields.id_of d) id) ds ≡ false
  not_any_of_absent [] id h = refl
  not_any_of_absent (d ∷ ds) id (e, h) = rw (e, not_any_of_absent ds id h) refl

  -- What a compare-and-set of a collection that maps ids to documents does.
  pub data IsOutcome (doc : D) (expected : ℕ) (ds : List D)
      : Result StoreError (List D) → Type 0 where
    absent :
        get_by_id fields ds (fields.id_of doc) ≡ none → IsOutcome doc expected ds (raised not_found)
    stale :
        (old : D)
        → get_by_id fields ds (fields.id_of doc) ≡ some old
        → (fields.revision_of old == expected) ≡ false
        → IsOutcome doc expected ds (raised revision_conflict)
    written :
        (old : D) (ds' : List D)
        → get_by_id fields ds (fields.id_of doc) ≡ some old
        → fields.revision_of old ≡ expected
        → ((id : String)
            → get_by_id fields ds' id
              ≡ (if str_eq (fields.id_of doc) id then some doc else get_by_id fields ds id))
        → IsOutcome doc expected ds (returned ds')

  -- The write is a compare-and-set of a map from ids to documents: a missing id and a revision that is
  -- no longer current are told apart and change nothing, and else exactly the document of its id changes.
  pub upsert_with_revision_check-IsOutcome :
      (doc : D) (expected : ℕ) (ds : List D)
      → HasDistinctIds ds
      → IsOutcome doc expected ds (upsert_with_revision_check fields doc expected ds)
  unfolding upsert_with_revision_check
  upsert_with_revision_check-IsOutcome doc expected ds distinct =
      elim (Option-cases (get_by_id fields ds (fields.id_of doc))) [
        | inl gone ↦
            let away = absent_of_get ds (fields.id_of doc) gone in
            rw
              (
                replace_one-absent doc expected ds away,
                not_any_of_absent ds (fields.id_of doc) away,
              )
              (absent gone)
        | inr (old, found) ↦ elim (Bool-cases (fields.revision_of old == expected)) [
          | inl current ↦
              let e : fields.revision_of old ≡ expected = ground arith in
              let (ds', replaced, gets) = replace_one-current doc old ds found in
              let replaced' : replace_one fields doc expected ds ≡ some ds' =
                subst (λ r. replace_one fields doc r ds ≡ some ds') e replaced in
              rw replaced' (written old ds' found e gets)
          | inr old_revision ↦
              rw
                (
                  replace_one-stale doc old expected ds distinct found old_revision,
                  any_of_get ds (fields.id_of doc) old found,
                )
                (stale old found old_revision)
        ]
      ]
