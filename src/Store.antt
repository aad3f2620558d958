-- ===== src/Store.antt =====
-- `get_by_id` and `upsert_with_revision_check` of infrastructure/mongodb/server_repository.py, over any
-- document that has an id and a revision.
pub mod Laws
pub mod Races
use server_scan.Prelude.{
  ℕ, String, Bool, ◌&&◌, Option, none, some, List, [], ◌∷◌, any, str_eq, ◌==◌, if◌then◌else◌,
}
use server_scan.Prelude.Result.{Result, returned, raised}
use server_scan.Membership.{StoreError, not_found, revision_conflict}

pub record Versioned (D : Type 0) : Type 0 where
  pub id_of : D → String
  pub revision_of : D → ℕ

module _ {D : Type 0} (fields : Versioned D) where
  -- `find_one({"_id": id})`
  unfoldable pub get_by_id : List D → String → Option D
  get_by_id [] id = none
  get_by_id (d ∷ ds) id =
      let rest = get_by_id ds id in if str_eq (fields.id_of d) id then some d else rest

  abbrev pub keep : D → Option (List D) → Option (List D)
  keep d none = none
  keep d (some ds) = some (d ∷ ds)

  -- `replace_one({"_id": …, "revision": …}, doc)`; `none` where nothing matches
  unfoldable pub replace_one : D → ℕ → List D → Option (List D)
  replace_one doc expected [] = none
  replace_one doc expected (d ∷ ds) =
      let rest = keep d (replace_one doc expected ds) in
      if str_eq (fields.id_of d) (fields.id_of doc) && (fields.revision_of d == expected)
      then some (doc ∷ ds)
      else rest

  abbrev pub after_replace : D → List D → Option (List D) → Result StoreError (List D)
  after_replace doc ds (some replaced) = returned replaced
  after_replace doc ds none = raised (
      if any (λ d. str_eq (fields.id_of d) (fields.id_of doc)) ds
      then revision_conflict
      else not_found)

  unfoldable pub upsert_with_revision_check : D → ℕ → List D → Result StoreError (List D)
  upsert_with_revision_check doc expected ds = after_replace doc ds (replace_one doc expected ds)
