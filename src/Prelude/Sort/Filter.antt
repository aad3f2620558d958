-- ===== src/Prelude/Sort/Filter.antt =====
-- Filtering and sorting commute, and the items past one of a sorted list are those behind it.
use mathlib.Core.List.{Memᴰ}
use server_scan.Prelude.{
  Bool, true, false, not, ◌&&◌, Bool-cases, ◌≡◌, refl, sym, ◌∙◌, inl, inr, List, [], ◌∷◌, ◌++◌, All,
  All-at, All-filter, filter, arith, if◌then◌else◌,
}
use server_scan.Prelude.Order.{Order}
use server_scan.Prelude.Sort.{insert, sort, IsBelow, IsSorted}
use server_scan.Prelude.Sort.Laws.{sort-IsSorted, le_refl, IsBelow-trans}
use server_scan.Prelude.Sort.Unique.{Apart, HasDistinctKeys}

module _ {ℓ} {A : Type ℓ} where
  pub filter-keeps : (p : A → Bool) (xs : List A) → All (λ x. p x ≡ true) xs → filter p xs ≡ xs
  filter-keeps p [] h = refl
  filter-keeps p (x ∷ xs) (e, h) = rw (e, filter-keeps p xs h) refl

  pub filter-drops : (p : A → Bool) (xs : List A) → All (λ x. p x ≡ false) xs → filter p xs ≡ []
  filter-drops p [] h = refl
  filter-drops p (x ∷ xs) (e, h) = rw (e, filter-drops p xs h) refl

  pub filter-and :
      (p q : A → Bool) (xs : List A) → filter (λ x. p x && q x) xs ≡ filter q (filter p xs)
  filter-and p q [] = refl
  filter-and p q (x ∷ xs) = ground (arith, filter-and p q xs)

  pub filter-ext :
      (p q : A → Bool) (xs : List A) → ((x : A) → p x ≡ q x) → filter p xs ≡ filter q xs
  filter-ext p q [] h = refl
  filter-ext p q (x ∷ xs) h = rw (h x, filter-ext p q xs h) refl

  pub Memᴰ-middle : (x : A) (pre post : List A) → Memᴰ x (pre ++ x ∷ post)
  Memᴰ-middle x [] post = Memᴰ.head refl
  Memᴰ-middle x (y ∷ pre) post = Memᴰ.tail (Memᴰ-middle x pre post)

module _ {ℓ} {A : Type ℓ} (o : Order A) where
  insert-below : (x : A) (ys : List A) → IsBelow o x ys → insert o x ys ≡ x ∷ ys
  unfolding insert
  insert-below x [] h = refl
  insert-below x (y ∷ ys) (e, h) = rw e refl

  filter-insert :
      (p : A → Bool) (x : A) (ys : List A)
      → IsSorted o ys
      → filter p (insert o x ys) ≡ (if p x then insert o x (filter p ys) else filter p ys)
  unfolding insert
  filter-insert p x [] s = refl
  filter-insert p x (y ∷ ys) (below, s) = elim (Bool-cases (o.le x y)) [
    | inl h ↦
        let all_below = All-filter _ p (y ∷ ys) (h, IsBelow-trans o x y ys h below) in
        let in_front = insert-below x (filter p (y ∷ ys)) all_below in
        rw h (elim (Bool-cases (p x)) [ inl e ↦ rw e (sym in_front) | inr e ↦ rw e refl ])
    | inr h ↦ ground (arith, filter-insert p x ys s)
  ]

  pub filter-sort : (p : A → Bool) (xs : List A) → filter p (sort o xs) ≡ sort o (filter p xs)
  unfolding sort
  filter-sort p [] = refl
  filter-sort p (x ∷ xs) =
      filter-insert p x (sort o xs) (sort-IsSorted o xs) ∙ ground (arith, filter-sort p xs)

  -- Strictly behind, in the order.
  abbrev pub is_after : A → A → Bool
  is_after x y = not (o.le y x)

  All-both :
      (x : A) (ys : List A)
      → IsBelow o x ys
      → All (Apart o x) ys
      → All (λ y. is_after x y ≡ true) ys
  All-both x [] h k = tt
  All-both x (y ∷ ys) (p, h) (q, k) = (ground arith, All-both x ys h k)

  pub filter-after :
      (x : A) (pre post : List A)
      → IsSorted o (pre ++ x ∷ post)
      → HasDistinctKeys o (pre ++ x ∷ post)
      → filter (is_after x) (pre ++ x ∷ post) ≡ post
  filter-after x [] post (below, _) (apart, _) =
      rw (le_refl o x) (filter-keeps (is_after x) post (All-both x post below apart))
  filter-after x (z ∷ pre) post (below, s) (apart, d) =
      let e : o.le z x ≡ true = All-at _ (Memᴰ-middle x pre post) below in
      rw e (filter-after x pre post s d)
