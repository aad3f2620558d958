-- ===== src/Prelude/Sort.antt =====
-- `sorted(xs, key=…)`: a stable insertion sort by a key's order.
pub mod Laws
pub mod Unique
pub mod Filter
use server_scan.Prelude.{true, ◌≡◌, List, [], ◌∷◌, All, if◌then◌else◌}
use server_scan.Prelude.Order.{Order}

module _ {ℓ} {A : Type ℓ} (o : Order A) where
  -- An item stands before those of an equal key that came after it.
  unfoldable pub insert : A → List A → List A
  insert x [] = x ∷ []
  insert x (y ∷ ys) = let rest = y ∷ insert x ys in if o.le x y then x ∷ y ∷ ys else rest

  unfoldable pub sort : List A → List A
  unfolding insert
  sort [] = []
  sort (x ∷ xs) = insert x (sort xs)

  abbrev pub IsBelow : A → List A → Type 0
  IsBelow x ys = All (λ y. o.le x y ≡ true) ys

  abbrev pub IsSorted : List A → Type 0
  IsSorted [] = Unit
  IsSorted (x ∷ xs) = IsBelow x xs × IsSorted xs
