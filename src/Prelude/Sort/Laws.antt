-- ===== src/Prelude/Sort/Laws.antt =====
-- Sorting keeps the items and puts them in the key's order.
use mathlib.Core.List.{Permᴰ}
use mathlib.Core.List.Permᴰ
use server_scan.Prelude.{
  suc, length, ap, ◌∙◌, true, false, Bool-cases, ◌≡◌, refl, inl, inr, List, [], ◌∷◌, All, All-map,
  arith,
}
use server_scan.Prelude.Order.{Order}
use server_scan.Prelude.Sort.{insert, sort, IsBelow, IsSorted}

module _ {ℓ} {A : Type ℓ} (o : Order A) where
  pub le_refl : (x : A) → o.le x x ≡ true
  le_refl x = elim (o.total x x) [ inl h ↦ h | inr h ↦ h ]

  pub le_of_not : (x y : A) → o.le x y ≡ false → o.le y x ≡ true
  le_of_not x y h = ground (arith, o.total x y)

  pub IsBelow-trans : (x y : A) (ys : List A) → o.le x y ≡ true → IsBelow o y ys → IsBelow o x ys
  IsBelow-trans x y ys h below = All-map _ ys (λ z k. o.trans x y z h k) below

  insert-IsBelow :
      (z x : A) (ys : List A) → o.le z x ≡ true → IsBelow o z ys → IsBelow o z (insert o x ys)
  unfolding insert
  insert-IsBelow z x [] h k = (h, tt)
  insert-IsBelow z x (y ∷ ys) h (p, k) = ground (arith, insert-IsBelow z x ys h k)

  insert-IsSorted : (x : A) (ys : List A) → IsSorted o ys → IsSorted o (insert o x ys)
  unfolding insert
  insert-IsSorted x [] s = (tt, tt)
  insert-IsSorted x (y ∷ ys) (below, s) = elim (Bool-cases (o.le x y)) [
    | inl h ↦ rw h ((h, IsBelow-trans x y ys h below), (below, s))
    | inr h ↦ rw h (insert-IsBelow y x ys (le_of_not x y h) below, insert-IsSorted x ys s)
  ]

  pub sort-IsSorted : (xs : List A) → IsSorted o (sort o xs)
  unfolding sort
  sort-IsSorted [] = tt
  sort-IsSorted (x ∷ xs) = insert-IsSorted x (sort o xs) (sort-IsSorted xs)

  insert-All {κ} : (P : A → Type κ) (x : A) (ys : List A) → P x → All P ys → All P (insert o x ys)
  unfolding insert
  insert-All P x [] p h = (p, tt)
  insert-All P x (y ∷ ys) p (q, h) = elim (Bool-cases (o.le x y)) [
    | inl e ↦ rw e (p, (q, h))
    | inr e ↦ rw e (q, insert-All P x ys p h)
  ]

  -- What holds of every item holds of every sorted item.
  pub sort-All {κ} : (P : A → Type κ) (xs : List A) → All P xs → All P (sort o xs)
  unfolding sort
  sort-All P [] h = tt
  sort-All P (x ∷ xs) (p, h) = insert-All P x (sort o xs) p (sort-All P xs h)

  insert-perm : (x : A) (ys : List A) → Permᴰ (insert o x ys) (x ∷ ys)
  unfolding insert
  insert-perm x [] = Permᴰ.refl (x ∷ [])
  insert-perm x (y ∷ ys) = elim (Bool-cases (o.le x y)) [
    | inl e ↦ rw e (Permᴰ.refl (x ∷ y ∷ ys))
    | inr e ↦ rw e (Permᴰ.trans (Permᴰ.cons refl (insert-perm x ys)) (Permᴰ.swap refl refl))
  ]

  pub sort-perm : (xs : List A) → Permᴰ (sort o xs) xs
  unfolding sort
  sort-perm [] = Permᴰ.nil
  sort-perm (x ∷ xs) = Permᴰ.trans (insert-perm x (sort o xs)) (Permᴰ.cons refl (sort-perm xs))

  length-insert : (x : A) (ys : List A) → length (insert o x ys) ≡ suc (length ys)
  unfolding insert
  length-insert x [] = refl
  length-insert x (y ∷ ys) = ground (arith, length-insert x ys)

  pub length-sort : (xs : List A) → length (sort o xs) ≡ length xs
  unfolding sort
  length-sort [] = refl
  length-sort (x ∷ xs) = length-insert x (sort o xs) ∙ ap suc (length-sort xs)
