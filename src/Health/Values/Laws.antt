-- ===== src/Health/Values/Laws.antt =====
-- Which exceptions the operations on values raise.
use server_scan.Prelude.{ℤ, Option, none, some, List, [], ◌∷◌, ◌≡◌, refl, inl, inr, Bool-cases}
use server_scan.Health.Values.{
  Value, Scalar, null, scalar, list, int, bool, str, Result, ok, raised, Error, type_error, ◌>>=◌,
  as_int, scalar_eq, elements, order_scalars, order_lists, order_numbers, order_values, is_in,
}

-- Every exception of the result satisfies `P`.
abbrev pub Raises {ℓ} : {A : Type ℓ} → (Error → Type 0) → Result A → Type 0
Raises P (ok a) = Unit
Raises P (raised e) = P e

abbrev pub OnlyTypeErrors {ℓ} : {A : Type ℓ} → Result A → Type 0
OnlyTypeErrors r = Raises (λ e. e ≡ type_error) r

-- The result is no exception.
abbrev pub NeverRaises {ℓ} : {A : Type ℓ} → Result A → Type 0
NeverRaises r = Raises (λ e. ⊥) r

module _ {ℓ} {A : Type ℓ} (P : Error → Type 0) where
  pub bind-Raises {κ} :
      {B : Type κ} (m : Result A) (f : A → Result B)
      → Raises P m
      → ((a : A) → Raises P (f a))
      → Raises P (m >>= f)
  bind-Raises (ok a) f h k = k a
  bind-Raises (raised e) f h k = h

  -- What raises nothing raises only what `P` allows.
  pub never-Raises : (m : Result A) → NeverRaises m → Raises P m
  never-Raises (ok a) h = tt
  never-Raises (raised e) h = absurd h

order_numbers-OnlyTypeErrors : (a b : Option ℤ) → OnlyTypeErrors (order_numbers a b)
order_numbers-OnlyTypeErrors (some m) (some n) = tt
order_numbers-OnlyTypeErrors (some m) none = refl
order_numbers-OnlyTypeErrors none b = refl

order_scalars-OnlyTypeErrors : (a b : Scalar) → OnlyTypeErrors (order_scalars a b)
order_scalars-OnlyTypeErrors (str s) (str t) = tt
order_scalars-OnlyTypeErrors (str s) (int n) = refl
order_scalars-OnlyTypeErrors (str s) (bool c) = order_numbers-OnlyTypeErrors none (as_int (bool c))
order_scalars-OnlyTypeErrors (int n) b = order_numbers-OnlyTypeErrors (some n) (as_int b)
order_scalars-OnlyTypeErrors (bool c) b = order_numbers-OnlyTypeErrors (as_int (bool c)) (as_int b)

order_lists-OnlyTypeErrors : (as' bs : List Scalar) → OnlyTypeErrors (order_lists as' bs)
order_lists-OnlyTypeErrors [] [] = tt
order_lists-OnlyTypeErrors [] (b ∷ bs) = tt
order_lists-OnlyTypeErrors (a ∷ as') [] = tt
order_lists-OnlyTypeErrors (a ∷ as') (b ∷ bs) = elim (Bool-cases (scalar_eq a b)) [
  | inl same ↦ rw same (order_lists-OnlyTypeErrors as' bs)
  | inr differ ↦ rw differ (order_scalars-OnlyTypeErrors a b)
]

pub order_values-OnlyTypeErrors : (v w : Value) → OnlyTypeErrors (order_values v w)
unfolding order_values
order_values-OnlyTypeErrors (scalar a) (scalar b) = order_scalars-OnlyTypeErrors a b
order_values-OnlyTypeErrors (list as') (list bs) = order_lists-OnlyTypeErrors as' bs
order_values-OnlyTypeErrors (scalar a) null = refl
order_values-OnlyTypeErrors (scalar a) (list bs) = refl
order_values-OnlyTypeErrors (list as') null = refl
order_values-OnlyTypeErrors (list as') (scalar b) = refl
order_values-OnlyTypeErrors null w = refl

pub elements-OnlyTypeErrors : (v : Value) → OnlyTypeErrors (elements v)
unfolding elements
elements-OnlyTypeErrors (list xs) = tt
elements-OnlyTypeErrors (scalar (str s)) = tt
elements-OnlyTypeErrors (scalar (int n)) = refl
elements-OnlyTypeErrors (scalar (bool b)) = refl
elements-OnlyTypeErrors null = refl

pub is_in-OnlyTypeErrors : (v w : Value) → OnlyTypeErrors (is_in v w)
unfolding is_in
is_in-OnlyTypeErrors v (list xs) = tt
is_in-OnlyTypeErrors (scalar (str t)) (scalar (str s)) = tt
is_in-OnlyTypeErrors (scalar (int n)) (scalar (str s)) = refl
is_in-OnlyTypeErrors (scalar (bool b)) (scalar (str s)) = refl
is_in-OnlyTypeErrors null (scalar w) = refl
is_in-OnlyTypeErrors (list xs) (scalar w) = refl
is_in-OnlyTypeErrors (scalar a) (scalar (int n)) = refl
is_in-OnlyTypeErrors (scalar a) (scalar (bool b)) = refl
is_in-OnlyTypeErrors v null = refl
