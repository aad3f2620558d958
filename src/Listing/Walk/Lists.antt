-- ===== src/Listing/Walk/Lists.antt =====
-- A page cut off the front of a list.
use server_scan.Prelude.{
  ℕ, suc, zero, ◌<◌, ◌≤◌, some, List, [], ◌∷◌, ◌++◌, length, take, ltb, ◌≡◌, ◌≢◌, refl, ap, arith,
}
use server_scan.Listing.{ListedServer}
use server_scan.Listing.Page.{last}

-- `xs` is a page of `n` that ends in `final`, and `rest`.
pub record Cut (n : ℕ) (xs : List ListedServer) : Type 0 where
  pub init : List ListedServer
  pub final : ListedServer
  pub rest : List ListedServer
  pub whole : xs ≡ init ++ final ∷ rest
  pub page : take n xs ≡ init ++ final ∷ []
  pub ends : last (take n xs) ≡ some final
  pub shorter : length rest < length xs

last-cons :
    (x : ListedServer) (xs : List ListedServer) (y : ListedServer)
    → last xs ≡ some y
    → last (x ∷ xs) ≡ some y
last-cons x [] y h = cc h
last-cons x (z ∷ xs) y h = h

pub cut : (n : ℕ) (xs : List ListedServer) → 1 ≤ n → n ≤ length xs → Cut n xs
cut zero xs p h = absurd (omega arith)
cut (suc n) [] p h = absurd (omega arith)
cut (suc zero) (x ∷ xs) p h = record {
  init = [];
  final = x;
  rest = xs;
  whole = refl;
  page = refl;
  ends = refl;
  shorter = omega arith;
}
cut (suc (suc n)) (x ∷ xs) p h =
    let c = cut (suc n) xs (omega arith) (omega arith) in
    record {
      init = x ∷ c.init;
      final = c.final;
      rest = c.rest;
      whole = ap (◌∷◌ x) c.whole;
      page = ap (◌∷◌ x) c.page;
      ends = last-cons x (take (suc n) xs) c.final c.ends;
      shorter = omega (arith, c.shorter);
    }

pub take_of_longer : (n : ℕ) (xs : List ListedServer) → take n (take (suc n) xs) ≡ take n xs
take_of_longer zero xs = refl
take_of_longer (suc n) [] = refl
take_of_longer (suc n) (x ∷ xs) = ap (◌∷◌ x) (take_of_longer n xs)

pub take-all : (n : ℕ) (xs : List ListedServer) → length xs ≤ n → take n xs ≡ xs
take-all zero [] h = refl
take-all zero (x ∷ xs) h = absurd (omega arith)
take-all (suc n) [] h = refl
take-all (suc n) (x ∷ xs) h = ap (◌∷◌ x) (take-all n xs (omega arith))

-- One document more than the page shows whether there is more.
pub length_of_longer :
    (n : ℕ) (xs : List ListedServer) → ltb n (length (take (suc n) xs)) ≡ ltb n (length xs)
length_of_longer n [] = refl
length_of_longer zero (x ∷ xs) = ground arith
length_of_longer (suc n) (x ∷ xs) = ground (arith, length_of_longer n xs)

pub append-cons_ne_nil : {A : Type 0} (xs : List A) (y : A) (ys : List A) → xs ++ y ∷ ys ≢ []
append-cons_ne_nil [] y ys = cc
append-cons_ne_nil (x ∷ xs) y ys = cc
