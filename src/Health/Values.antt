-- ===== src/Health/Values.antt =====
-- The Python values that facts and policies hold, with `==`, the orders, `in`, `len` and iteration
-- as Python defines them. Numbers are integers, and a list holds no list.
pub mod Laws
use Prim.Native.Nat.{Ordering, compare}
use server_scan.Prelude.{
  ℕ, ℤ, pos, pos_part, neg_part, String, Bool, true, false, Option, none, some, List, [], ◌∷◌, map,
  str_eq, str_leb, contains, chars, length, any, eqb_ℤ, ltb_ℤ, ◌+◌, if◌then◌else◌, ◌&&◌,
}

pub data Scalar : Type 0 where
  int : ℤ → Scalar
  bool : Bool → Scalar
  str : String → Scalar

pub data Value : Type 0 where
  null : Value
  scalar : Scalar → Value
  list : List Scalar → Value

pub data Error : Type 0 where
  unknown_metric assertion type_error value_error overflow_error : Error

pub data Result {ℓ} (A : Type ℓ) : Type ℓ where
  ok : A → Result A
  raised : Error → Result A

infixl 5 ◌>>=◌
abbrev pub ◌>>=◌ {ℓ κ} : {A : Type ℓ} {B : Type κ} → Result A → (A → Result B) → Result B
ok a >>= f = f a
raised e >>= f = raised e

-- A `bool` is the integer 0 or 1.
abbrev pub as_int : Scalar → Option ℤ
as_int (int n) = some n
as_int (bool true) = some (pos 1)
as_int (bool false) = some (pos 0)
as_int (str s) = none

abbrev pub same_int : Option ℤ → Option ℤ → Bool
same_int (some m) (some n) = eqb_ℤ m n
same_int _ _ = false

abbrev pub scalar_eq : Scalar → Scalar → Bool
scalar_eq (str s) (str t) = str_eq s t
scalar_eq a b = same_int (as_int a) (as_int b)

abbrev pub scalars_eq : List Scalar → List Scalar → Bool
scalars_eq [] [] = true
scalars_eq (a ∷ as') (b ∷ bs) = scalar_eq a b && scalars_eq as' bs
scalars_eq _ _ = false

-- `v == w`
unfoldable pub value_eq : Value → Value → Bool
value_eq null null = true
value_eq (scalar a) (scalar b) = scalar_eq a b
value_eq (list as') (list bs) = scalars_eq as' bs
value_eq _ _ = false

abbrev pub order_int : ℤ → ℤ → Ordering
order_int m n = if eqb_ℤ m n then Ordering.eq else if ltb_ℤ m n then Ordering.lt else Ordering.gt

abbrev pub order_str : String → String → Ordering
order_str s t = if str_eq s t then Ordering.eq else if str_leb s t then Ordering.lt else Ordering.gt

abbrev pub order_numbers : Option ℤ → Option ℤ → Result Ordering
order_numbers (some m) (some n) = ok (order_int m n)
order_numbers _ _ = raised type_error

abbrev pub order_scalars : Scalar → Scalar → Result Ordering
order_scalars (str s) (str t) = ok (order_str s t)
order_scalars a b = order_numbers (as_int a) (as_int b)

-- Lists are ordered by their first elements that differ, and else by their lengths.
abbrev pub order_lists : List Scalar → List Scalar → Result Ordering
order_lists [] [] = ok Ordering.eq
order_lists [] (_ ∷ _) = ok Ordering.lt
order_lists (_ ∷ _) [] = ok Ordering.gt
order_lists (a ∷ as') (b ∷ bs) =
    let rest = order_lists as' bs in if scalar_eq a b then rest else order_scalars a b

-- What `<`, `<=`, `>` and `>=` go by; texts and numbers are not ordered.
unfoldable pub order_values : Value → Value → Result Ordering
order_values (scalar a) (scalar b) = order_scalars a b
order_values (list as') (list bs) = order_lists as' bs
order_values _ _ = raised type_error

abbrev pub in_text : Scalar → String → Result Bool
in_text (str t) s = ok (contains t s)
in_text _ s = raised type_error

-- `v in w`
unfoldable pub is_in : Value → Value → Result Bool
is_in v (list xs) = ok (any (λ x. value_eq (scalar x) v) xs)
is_in (scalar a) (scalar (str s)) = in_text a s
is_in _ _ = raised type_error

-- What a loop over the value visits, and `len` counts.
unfoldable pub elements : Value → Result (List Scalar)
elements (list xs) = ok xs
elements (scalar (str s)) = ok (map str (chars s))
elements _ = raised type_error
