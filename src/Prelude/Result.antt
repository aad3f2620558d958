-- ===== src/Prelude/Result.antt =====
-- What a call that may raise comes to: a value, or the exception.
use server_scan.Prelude.{Option, none, some, ◌≡◌, refl}

pub data Result {ℓ} (E : Type 0) (A : Type ℓ) : Type ℓ where
  returned : A → Result E A
  raised : E → Result E A

infixl 5 ◌>>=◌
abbrev pub ◌>>=◌ {ℓ κ} :
    {E : Type 0} {A : Type ℓ} {B : Type κ} → Result E A → (A → Result E B) → Result E B
returned a >>= f = f a
raised e >>= f = raised e

-- A call whose exception is caught and raised again as `e`.
abbrev pub or_raise {ℓ} : {E : Type 0} {A : Type ℓ} → E → Option A → Result E A
or_raise e none = raised e
or_raise e (some a) = returned a

-- A chain that returns has returned at each of its calls.
pub bind-returned {ℓ κ} :
    {E : Type 0} {A : Type ℓ} {B : Type κ} {b : B} (m : Result E A) (f : A → Result E B)
    → m >>= f ≡ returned b
    → (a : A) × (m ≡ returned a) × (f a ≡ returned b)
bind-returned (returned a) f h = (a, refl, h)
bind-returned (raised e) f h = cc h
