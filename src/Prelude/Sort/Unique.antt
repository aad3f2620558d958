-- ===== src/Prelude/Sort/Unique.antt =====
-- Where no two items share a key, the sorted list does not depend on the order of the input.
use mathlib.Core.List.{Permᴰ}
use server_scan.Prelude.{
  Bool, false, Bool-cases, ◌≡◌, refl, ◌∙◌, subst, inl, inr, List, [], ◌∷◌, All, All-perm, All-map,
  All-filter, filter, ◌&&◌, arith,
}
use server_scan.Prelude.Order.{Order}
use server_scan.Prelude.Sort.{insert, sort}

module _ {ℓ} {A : Type ℓ} (o : Order A) where
  -- The two keys differ.
  abbrev pub Apart : A → A → Type 0
  Apart x y = (o.le x y && o.le y x) ≡ false

  abbrev pub HasDistinctKeys : List A → Type 0
  HasDistinctKeys [] = Unit
  HasDistinctKeys (x ∷ xs) = All (Apart x) xs × HasDistinctKeys xs

  pub insert_comm :
      (x y : A) (zs : List A) → Apart x y → insert o x (insert o y zs) ≡ insert o y (insert o x zs)
  unfolding insert
  insert_comm x y [] h = ground (arith, o.total x y)
  insert_comm x y (z ∷ zs) h = ground (
    arith,
    o.total x y,
    o.total x z,
    o.total y z,
    o.trans x y z,
    o.trans y x z,
    insert_comm x y zs h,
  )

  Apart-sym : (x y : A) → Apart x y → Apart y x
  Apart-sym x y h = ground arith

  pub HasDistinctKeys-perm :
      {xs ys : List A} → Permᴰ xs ys → HasDistinctKeys xs → HasDistinctKeys ys
  HasDistinctKeys-perm Permᴰ.nil h = tt
  HasDistinctKeys-perm (Permᴰ.cons {l₂ = ys} e d) (p, h) =
      (subst (λ c. All (Apart c) ys) e (All-perm (Apart _) d p), HasDistinctKeys-perm d h)
  HasDistinctKeys-perm (Permᴰ.swap {a} {b} {a'} {l} e f) ((p, ps), (qs, h)) = (
    (
      subst (λ c. Apart a' c) e (subst (λ c. Apart c a) f (Apart-sym a b p)),
      subst (λ c. All (Apart c) l) f qs,
    ),
    (subst (λ c. All (Apart c) l) e ps, h),
  )
  HasDistinctKeys-perm (Permᴰ.trans d e) h = HasDistinctKeys-perm e (HasDistinctKeys-perm d h)

  pub sort-eq_of_perm : {xs ys : List A} → Permᴰ xs ys → HasDistinctKeys xs → sort o xs ≡ sort o ys
  unfolding sort
  sort-eq_of_perm Permᴰ.nil h = refl
  sort-eq_of_perm (Permᴰ.cons e d) (p, h) = cc (e, sort-eq_of_perm d h)
  sort-eq_of_perm (Permᴰ.swap {a} {b} {l} e f) ((p, ps), h) =
      cc (e, f, insert_comm a b (sort o l) p)
  sort-eq_of_perm (Permᴰ.trans d e) h =
      sort-eq_of_perm d h ∙ sort-eq_of_perm e (HasDistinctKeys-perm d h)

  pub HasDistinctKeys-filter :
      (p : A → Bool) (xs : List A) → HasDistinctKeys xs → HasDistinctKeys (filter p xs)
  HasDistinctKeys-filter p [] h = tt
  HasDistinctKeys-filter p (x ∷ xs) (q, h) = elim (Bool-cases (p x)) [
    | inl e ↦ rw e (All-filter (Apart x) p xs q, HasDistinctKeys-filter p xs h)
    | inr e ↦ rw e (HasDistinctKeys-filter p xs h)
  ]

module _ {ℓ} {A : Type ℓ} (o p : Order A) where
  -- Keys that differ in one order differ in an order that refines it.
  pub HasDistinctKeys-refine :
      (xs : List A)
      → ((x y : A) → Apart o x y → Apart p x y)
      → HasDistinctKeys o xs
      → HasDistinctKeys p xs
  HasDistinctKeys-refine [] f h = tt
  HasDistinctKeys-refine (x ∷ xs) f (q, h) =
      (All-map (Apart o x) xs (f x) q, HasDistinctKeys-refine xs f h)
