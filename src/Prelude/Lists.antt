-- ===== src/Prelude/Lists.antt =====
-- Lists measured by native numbers, Boolean filters and quantifiers, under the library's names.
use Prim.Native.Nat.{ℕ, zero, suc, ◌+◌, ◌≤◌}
use mathlib.Core.Path.{◌≡◌, refl, sym, subst}
use mathlib.Core.Logic.{inl, inr}
use mathlib.Core.Bool.{Bool, true, false, ◌&&◌, ◌||◌}
use mathlib.Core.List.{List, [], ◌∷◌, ◌++◌, Memᴰ, Permᴰ}
use mathlib.Core.List.Permᴰ
use native.Mathlib.Omega.{arith}
use server_scan.Prelude.Tests.{Bool-cases, if◌then◌else◌}

module _ {ℓ} {A : Type ℓ} where
  abbrev pub length : List A → ℕ
  length [] = 0
  length (x ∷ xs) = suc (length xs)

  -- `[x for x in xs if p(x)]`
  abbrev pub filter : (A → Bool) → List A → List A
  filter p [] = []
  filter p (x ∷ xs) = let rest = filter p xs in if p x then x ∷ rest else rest

  -- `any(p(x) for x in xs)`, for a test that never raises
  abbrev pub any : (A → Bool) → List A → Bool
  any p [] = false
  any p (x ∷ xs) = p x || any p xs

  abbrev pub all : (A → Bool) → List A → Bool
  all p [] = true
  all p (x ∷ xs) = p x && all p xs

  -- `sum(1 for x in xs if p(x))`
  abbrev pub count : (A → Bool) → List A → ℕ
  count p [] = 0
  count p (x ∷ xs) = let rest = count p xs in if p x then suc rest else rest

  abbrev pub take : ℕ → List A → List A
  take zero xs = []
  take (suc n) [] = []
  take (suc n) (x ∷ xs) = x ∷ take n xs

module _ {ℓ κ} {A : Type ℓ} where
  abbrev pub All : (A → Type κ) → List A → Type κ
  All P [] = Unit
  All P (x ∷ xs) = P x × All P xs

module _ {ℓ} {A : Type ℓ} where
  pub length-append : (xs ys : List A) → length (xs ++ ys) ≡ length xs + length ys
  length-append [] ys = omega arith
  length-append (x ∷ xs) ys = omega (arith, length-append xs ys)

  pub length-filter_le : (p : A → Bool) (xs : List A) → length (filter p xs) ≤ length xs
  length-filter_le p [] = omega arith
  length-filter_le p (x ∷ xs) = ground (arith, length-filter_le p xs)

  pub count-append : (p : A → Bool) (xs ys : List A) → count p (xs ++ ys) ≡ count p xs + count p ys
  count-append p [] ys = omega arith
  count-append p (x ∷ xs) ys = ground (arith, count-append p xs ys)

module _ {ℓ κ} {A : Type ℓ} where
  pub All-append : (P : A → Type κ) (xs ys : List A) → All P xs → All P ys → All P (xs ++ ys)
  All-append P [] ys h k = k
  All-append P (x ∷ xs) ys (p, h) k = (p, All-append P xs ys h k)

  pub All-map :
      {Q : A → Type κ} (P : A → Type κ) (xs : List A) → ((x : A) → P x → Q x) → All P xs → All Q xs
  All-map P [] f h = tt
  All-map P (x ∷ xs) f (p, h) = (f x p, All-map P xs f h)

  pub All-filter : (P : A → Type κ) (p : A → Bool) (xs : List A) → All P xs → All P (filter p xs)
  All-filter P p [] h = tt
  All-filter P p (x ∷ xs) (q, h) = ground (arith, All-filter P p xs h)

  pub All-perm : (P : A → Type κ) {xs ys : List A} → Permᴰ xs ys → All P xs → All P ys
  All-perm P Permᴰ.nil h = tt
  All-perm P (Permᴰ.cons e d) (p, h) = (subst P e p, All-perm P d h)
  All-perm P (Permᴰ.swap e f) (p, (q, h)) = (subst P f q, (subst P e p, h))
  All-perm P (Permᴰ.trans d e) h = All-perm P e (All-perm P d h)

  pub All-at : (P : A → Type κ) {x : A} {xs : List A} → Memᴰ x xs → All P xs → P x
  All-at P (Memᴰ.head e) (p, h) = subst P (sym e) p
  All-at P (Memᴰ.tail m) (p, h) = All-at P m h

  pub All-filter_self : (p : A → Bool) (xs : List A) → All (λ x. p x ≡ true) (filter p xs)
  All-filter_self p [] = tt
  All-filter_self p (x ∷ xs) = ground (arith, All-filter_self p xs)

  pub All-to_filter :
      (P : A → Type κ) (p : A → Bool) (xs : List A)
      → All (λ x. p x ≡ true → P x) xs
      → All P (filter p xs)
  All-to_filter P p [] h = tt
  All-to_filter P p (x ∷ xs) (q, h) = elim (Bool-cases (p x)) [
    | inl e ↦ rw e (q e, All-to_filter P p xs h)
    | inr e ↦ rw e (All-to_filter P p xs h)
  ]

  -- What holds of the items that pass a test holds of each item that passes it.
  pub All-of_filter :
      (P : A → Type κ) (p : A → Bool) (xs : List A)
      → All P (filter p xs)
      → All (λ x. p x ≡ true → P x) xs
  All-of_filter P p [] h = tt
  All-of_filter P p (x ∷ xs) h = elim (Bool-cases (p x)) [
    | inl e ↦ let (q, k) = rw e at h in (λ _. q, All-of_filter P p xs k)
    | inr e ↦ let k = rw e at h in (λ d. cc, All-of_filter P p xs k)
  ]

module _ {ℓ} {A : Type ℓ} where
  -- Each item is one of the list.
  pub All-Memᴰ : (xs : List A) → All (λ x. Memᴰ x xs) xs
  All-Memᴰ [] = tt
  All-Memᴰ (x ∷ xs) = (Memᴰ.head refl, All-map {ℓ, ℓ} _ xs (λ y m. Memᴰ.tail m) (All-Memᴰ xs))

  filter-pass :
      (p : A → Bool) (x : A) (xs : List A) → p x ≡ true → filter p (x ∷ xs) ≡ x ∷ filter p xs
  filter-pass p x xs h = rw h

  filter-drop : (p : A → Bool) (x : A) (xs : List A) → p x ≡ false → filter p (x ∷ xs) ≡ filter p xs
  filter-drop p x xs h = rw h

  filter-cons_perm :
      (p : A → Bool) {x y : A} (xs ys : List A)
      → x ≡ y
      → Permᴰ (filter p xs) (filter p ys)
      → Permᴰ (filter p (x ∷ xs)) (filter p (y ∷ ys))
  filter-cons_perm p {x} {y} xs ys e d = elim (Bool-cases (p x)) [
    | inl h ↦ rw (filter-pass p x xs h, filter-pass p y ys (rw e at h)) (Permᴰ.cons e d)
    | inr h ↦ rw (filter-drop p x xs h, filter-drop p y ys (rw e at h)) d
  ]

  filter-swap_perm :
      (p : A → Bool) (x y : A) (xs : List A) → Permᴰ (filter p (x ∷ y ∷ xs)) (filter p (y ∷ x ∷ xs))
  filter-swap_perm p x y xs = elim (Bool-cases (p x)) [
    | inl h ↦ elim (Bool-cases (p y)) [
      | inl k ↦ rw (h, k) (Permᴰ.swap refl refl)
      | inr k ↦ rw (h, k) (Permᴰ.refl (x ∷ filter p xs))
    ]
    | inr h ↦ elim (Bool-cases (p y)) [
      | inl k ↦ rw (h, k) (Permᴰ.refl (y ∷ filter p xs))
      | inr k ↦ rw (h, k) (Permᴰ.refl (filter p xs))
    ]
  ]

  pub filter-perm :
      (p : A → Bool) {xs ys : List A} → Permᴰ xs ys → Permᴰ (filter p xs) (filter p ys)
  filter-perm p Permᴰ.nil = Permᴰ.nil
  filter-perm p (Permᴰ.cons {l₁ = xs} {l₂ = ys} e d) = filter-cons_perm p xs ys e (filter-perm p d)
  filter-perm p (Permᴰ.swap {a} {b} {a'} {b'} {l} e f) =
      subst (λ c. Permᴰ (filter p (a ∷ b ∷ l)) (filter p (a' ∷ c ∷ l))) e
        (subst (λ c. Permᴰ (filter p (a ∷ b ∷ l)) (filter p (c ∷ a ∷ l))) f
          (filter-swap_perm p a b l))
  filter-perm p (Permᴰ.trans d e) = Permᴰ.trans (filter-perm p d) (filter-perm p e)

module _ {ℓ} {A : Type ℓ} where
  -- A test that all items pass holds of each.
  pub All-of_all : (p : A → Bool) (xs : List A) → all p xs ≡ true → All (λ x. p x ≡ true) xs
  All-of_all p [] h = tt
  All-of_all p (x ∷ xs) h = elim (Bool-cases (p x)) [
    | inl e ↦ let k = rw e at h in (e, All-of_all p xs k)
    | inr e ↦ let k = rw e at h in cc k
  ]
