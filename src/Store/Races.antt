-- ===== src/Store/Races.antt =====
-- Two writers that have read the same revision: the second is told of the first.
use server_scan.Prelude.{
  ℕ, suc, String, false, ◌&&◌, Bool-cases, inl, inr, none, some, Option-cases, List, [], ◌∷◌, All,
  str_eq, eq_iff, ◌==◌, ◌≡◌, refl, ap, subst, ◌∙◌, arith,
}
use server_scan.Prelude.Result.{Result, returned, raised}
use server_scan.Membership.{StoreError, revision_conflict}
use server_scan.Store.{Versioned, get_by_id, replace_one, upsert_with_revision_check}
use server_scan.Store.Laws.{
  HasDistinctIds, IsOutcome, absent, stale, written, upsert_with_revision_check-IsOutcome,
}

module _ {D : Type 0} (fields : Versioned D) where
  replace_one-All :
      (id : String) (doc : D) (expected : ℕ) (ds ds' : List D)
      → replace_one fields doc expected ds ≡ some ds'
      → All (λ e. str_eq id (fields.id_of e) ≡ false) ds
      → All (λ e. str_eq id (fields.id_of e) ≡ false) ds'
  unfolding replace_one
  replace_one-All id doc expected [] ds' h k = cc h
  replace_one-All id doc expected (d ∷ ds) ds' h (p, k) =
      elim (Bool-cases
        (str_eq (fields.id_of d) (fields.id_of doc) && (fields.revision_of d == expected))) [
          | inl here ↦
              let e : some (doc ∷ ds) ≡ some ds' = rw here at h in
              let f : doc ∷ ds ≡ ds' = cc e in
              let q : str_eq id (fields.id_of doc) ≡ false =
                ground (arith, eq_iff (fields.id_of d) (fields.id_of doc)) in
              subst (All (λ e. str_eq id (fields.id_of e) ≡ false)) f (q, k)
          | inr there ↦ elim (Option-cases (replace_one fields doc expected ds)) [
            | inl missing ↦ let e : none ≡ some ds' = rw (there, missing) at h in cc e
            | inr (rest, found) ↦
                let e : some (d ∷ rest) ≡ some ds' = rw (there, found) at h in
                let f : d ∷ rest ≡ ds' = cc e in
                subst (All (λ e. str_eq id (fields.id_of e) ≡ false)) f
                  (p, replace_one-All id doc expected ds rest found k)
          ]
        ]

  pub replace_one-HasDistinctIds :
      (doc : D) (expected : ℕ) (ds ds' : List D)
      → replace_one fields doc expected ds ≡ some ds'
      → HasDistinctIds fields ds
      → HasDistinctIds fields ds'
  unfolding replace_one
  replace_one-HasDistinctIds doc expected [] ds' h d = cc h
  replace_one-HasDistinctIds doc expected (d ∷ ds) ds' h (apart, distinct) =
      elim (Bool-cases
        (str_eq (fields.id_of d) (fields.id_of doc) && (fields.revision_of d == expected))) [
          | inl here ↦
              let e : some (doc ∷ ds) ≡ some ds' = rw here at h in
              let f : doc ∷ ds ≡ ds' = cc e in
              let same : fields.id_of d ≡ fields.id_of doc =
                (eq_iff (fields.id_of d) (fields.id_of doc)).0 (ground arith) in
              subst (HasDistinctIds fields) f
                (subst (λ i. All (λ e. str_eq i (fields.id_of e) ≡ false) ds) same apart, distinct)
          | inr there ↦ elim (Option-cases (replace_one fields doc expected ds)) [
            | inl missing ↦ let e : none ≡ some ds' = rw (there, missing) at h in cc e
            | inr (rest, found) ↦
                let e : some (d ∷ rest) ≡ some ds' = rw (there, found) at h in
                let f : d ∷ rest ≡ ds' = cc e in
                subst (HasDistinctIds fields) f (
                  replace_one-All (fields.id_of d) doc expected ds rest found apart,
                  replace_one-HasDistinctIds doc expected ds rest found distinct,
                )
          ]
        ]

  upsert-HasDistinctIds :
      (doc : D) (expected : ℕ) (ds ds' : List D)
      → upsert_with_revision_check fields doc expected ds ≡ returned ds'
      → HasDistinctIds fields ds
      → HasDistinctIds fields ds'
  unfolding upsert_with_revision_check
  upsert-HasDistinctIds doc expected ds ds' h distinct =
      elim (Option-cases (replace_one fields doc expected ds)) [
        | inl missing ↦ let e = rw missing at h in cc e
        | inr (rest, found) ↦
            let e : returned rest ≡ returned ds' = rw found at h in
            replace_one-HasDistinctIds doc expected ds ds' (found ∙ ap some (cc e)) distinct
      ]

  -- The document of the writer's id, whatever the outcome says of it.
  written_document :
      (doc : D) (expected : ℕ) (ds ds' : List D) (r : Result StoreError (List D))
      → IsOutcome fields doc expected ds r
      → r ≡ returned ds'
      → get_by_id fields ds' (fields.id_of doc) ≡ some doc
  written_document doc expected ds ds' r (absent _) e = cc e
  written_document doc expected ds ds' r (stale _ _ _) e = cc e
  written_document doc expected ds ds' r (written old out _ _ gets) e =
      ground (arith, gets (fields.id_of doc), eq_iff (fields.id_of doc) (fields.id_of doc))

  conflict_of :
      (doc current : D) (expected : ℕ) (ds : List D) (r : Result StoreError (List D))
      → IsOutcome fields doc expected ds r
      → get_by_id fields ds (fields.id_of doc) ≡ some current
      → (fields.revision_of current == expected) ≡ false
      → r ≡ raised revision_conflict
  conflict_of doc current expected ds r (absent h) e k = ground arith
  conflict_of doc current expected ds r (stale old h _) e k = refl
  conflict_of doc current expected ds r (written old out h f _) e k = ground arith

  -- No update is lost: of two writers that have read the same revision and raise it, the second to
  -- write gets a conflict, and the document of the first stays.
  pub second_writer_conflicts :
      (first second : D) (read : ℕ) (ds ds' : List D)
      → HasDistinctIds fields ds
      → fields.id_of first ≡ fields.id_of second
      → fields.revision_of first ≡ suc read
      → upsert_with_revision_check fields first read ds ≡ returned ds'
      → (upsert_with_revision_check fields second read ds' ≡ raised revision_conflict)
        × (get_by_id fields ds' (fields.id_of first) ≡ some first)
  second_writer_conflicts first second read ds ds' distinct same raises h =
      let stored =
        written_document first read ds ds' _
          (upsert_with_revision_check-IsOutcome fields first read ds distinct) h in
      let distinct' = upsert-HasDistinctIds first read ds ds' h distinct in
      (
        conflict_of second first read ds' _
            (upsert_with_revision_check-IsOutcome fields second read ds' distinct')
            (subst (λ i. get_by_id fields ds' i ≡ some first) same stored) (ground arith),
        stored,
      )
