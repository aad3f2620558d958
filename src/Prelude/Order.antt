-- ===== src/Prelude/Order.antt =====
-- The keys of Python's `sorted`: total preorders, reversed keys and tuples of keys.
use server_scan.Prelude.{
  ℕ, ℤ, String, Bool, true, false, ◌≡◌, ◌⊎◌, leb, leb_ℤ, str_leb, str_leb_total, str_leb_trans,
  if◌then◌else◌, arith,
}

pub record Order {ℓ} (A : Type ℓ) : Type ℓ where
  pub le : A → A → Bool
  pub total : (a b : A) → (le a b ≡ true) ⊎ (le b a ≡ true)
  pub trans : (a b c : A) → le a b ≡ true → le b c ≡ true → le a c ≡ true

pub leb_total : (a b : ℕ) → (leb a b ≡ true) ⊎ (leb b a ≡ true)
leb_total a b = ground arith

pub leb_trans : (a b c : ℕ) → leb a b ≡ true → leb b c ≡ true → leb a c ≡ true
leb_trans a b c h k = ground arith

pub leb_ℤ_total : (a b : ℤ) → (leb_ℤ a b ≡ true) ⊎ (leb_ℤ b a ≡ true)
leb_ℤ_total a b = ground arith

pub leb_ℤ_trans : (a b c : ℤ) → leb_ℤ a b ≡ true → leb_ℤ b c ≡ true → leb_ℤ a c ≡ true
leb_ℤ_trans a b c h k = ground arith

abbrev pub nat_order : Order ℕ
nat_order = record { le = leb; total = leb_total; trans = leb_trans }

abbrev pub int_order : Order ℤ
int_order = record { le = leb_ℤ; total = leb_ℤ_total; trans = leb_ℤ_trans }

abbrev pub str_order : Order String
str_order = record { le = str_leb; total = str_leb_total; trans = str_leb_trans }

-- The key `-k`.
abbrev pub desc {ℓ} : {A : Type ℓ} → Order A → Order A
desc o = record {
  le = λ a b. o.le b a;
  total = λ a b. o.total b a;
  trans = λ a b c h k. o.trans c b a k h;
}

-- The key `k(x)`.
abbrev pub on {ℓ κ} : {A : Type ℓ} {B : Type κ} → (A → B) → Order B → Order A
on k o = record {
  le = λ a b. o.le (k a) (k b);
  total = λ a b. o.total (k a) (k b);
  trans = λ a b c. o.trans (k a) (k b) (k c);
}

-- A tuple of keys: the second decides where the first ones are equal.
abbrev pub lex_le : Bool → Bool → Bool → Bool
lex_le up down rest = if up then (if down then rest else true) else false

module _ {ℓ} {A : Type ℓ} (o p : Order A) where
  pub lex_total :
      (a b : A)
      → (lex_le (o.le a b) (o.le b a) (p.le a b) ≡ true)
        ⊎ (lex_le (o.le b a) (o.le a b) (p.le b a) ≡ true)
  lex_total a b = ground (arith, o.total a b, p.total a b)

  pub lex_trans :
      (a b c : A)
      → lex_le (o.le a b) (o.le b a) (p.le a b) ≡ true
      → lex_le (o.le b c) (o.le c b) (p.le b c) ≡ true
      → lex_le (o.le a c) (o.le c a) (p.le a c) ≡ true
  lex_trans a b c h k = ground (arith, o.trans a b c, o.trans c a b, o.trans b c a, p.trans a b c)

  abbrev pub then_by : Order A
  then_by = record {
    le = λ a b. lex_le (o.le a b) (o.le b a) (p.le a b);
    total = lex_total;
    trans = lex_trans;
  }
