-- ===== src/Health/Evaluate/Fates.antt =====
-- The outcome of the resolution of families: every policy that applies wins or is shadowed.
use server_scan.Prelude.{
  ℕ, ◌+◌, List, [], ◌∷◌, map, filter, length, ◌≡◌, refl, ◌∙◌, length-append, arith, Bool-cases, inl,
  inr,
}
use server_scan.Prelude.Sort.{insert}
use server_scan.Health.Policy.{HealthPolicy}
use server_scan.Health.Evaluate.{
  Dimensions, family_sort_key, applies, resolve_families, shadowed_entry, ShadowedEntry,
}
use server_scan.Health.Evaluate.Index.{index, families_of, resolve_families-index}
use server_scan.Health.Evaluate.Put.{Groups, put, Lt-cases, put-same, put-before, put-after}

size : Groups → ℕ
size [] = 0
size ((k, g) ∷ gs) = length g + size gs

length-insert :
    (p : HealthPolicy) (ps : List HealthPolicy)
    → length (insert family_sort_key p ps) ≡ 1 + length ps
unfolding insert
length-insert p [] = omega arith
length-insert p (q ∷ ps) = elim (Bool-cases (family_sort_key.le p q)) [
  | inl e ↦ rw e (omega arith)
  | inr e ↦ rw e (omega (arith, length-insert p ps))
]

size-put : (p : HealthPolicy) (gs : Groups) → size (put p gs) ≡ 1 + size gs
unfolding size
size-put p [] = unfold put in refl
size-put p ((k, g) ∷ gs) = elim (Lt-cases k p.policy_key) [
  | inl e ↦ rw (put-same p k g gs e) (omega (arith, length-insert p g))
  | inr (inl e) ↦ rw (put-after p k g gs e) (omega (arith, size-put p gs))
  | inr (inr e) ↦ rw (put-before p k g gs e) (omega arith)
]

size-index : (ps : List HealthPolicy) → size (index ps) ≡ length ps
unfolding index size
size-index [] = refl
size-index (p ∷ ps) = omega (arith, size-put p (index ps), size-index ps)

length-map :
    (f : HealthPolicy → ShadowedEntry) (ps : List HealthPolicy) → length (map f ps) ≡ length ps
length-map f [] = refl
length-map f (p ∷ ps) = omega (arith, length-map f ps)

size-families_of :
    (gs : Groups) → length (families_of gs).winners + length (families_of gs).shadowed ≡ size gs
unfolding families_of size
size-families_of [] = refl
size-families_of ((k, []) ∷ gs) = omega (arith, size-families_of gs)
size-families_of ((k, head ∷ rest) ∷ gs) = omega (
  arith,
  size-families_of gs,
  length-append (map (shadowed_entry k head) rest) (families_of gs).shadowed,
  length-map (shadowed_entry k head) rest,
)

-- The winners and the shadowed policies of a server are together as many as the policies that
-- apply to it.
pub resolve_families-length :
    (policies : List HealthPolicy) (d : Dimensions)
    → length (resolve_families policies d).winners + length (resolve_families policies d).shadowed
      ≡ length (filter (applies d) policies)
resolve_families-length policies d = rw (resolve_families-index policies d) (
    size-families_of (index (filter (applies d) policies))
    ∙ size-index (filter (applies d) policies))
