-- ===== src/Prelude/Dict.antt =====
-- Python's `dict` with text keys, in the order of insertion.
use server_scan.Prelude.Tests.{if◌then◌else◌}
use Prim.Native.String.{String}
use mathlib.Core.Path.{◌≡◌, refl}
use mathlib.Core.Option.{Option, none, some}
use mathlib.Core.List.{List, [], ◌∷◌}
use native.Mathlib.Omega.{arith}
use text.Mathlib.Text.{◌==◌ as str_eq}
use text.Mathlib.TextEquality.{eq_iff}

module _ {ℓ} {V : Type ℓ} where
  -- `d.get(k)`
  abbrev pub dict_get : String → List (String × V) → Option V
  dict_get k [] = none
  dict_get k ((j, v) ∷ d) = let rest = dict_get k d in if str_eq j k then some v else rest

  -- `d[k] = v`: an existing key keeps its place.
  abbrev pub dict_set : String → V → List (String × V) → List (String × V)
  dict_set k v [] = (k, v) ∷ []
  dict_set k v ((j, w) ∷ d) =
      let rest = (j, w) ∷ dict_set k v d in if str_eq j k then (j, v) ∷ d else rest

  pub dict_get-set :
      (k j : String) (v : V) (d : List (String × V))
      → dict_get j (dict_set k v d) ≡ (if str_eq k j then some v else dict_get j d)
  dict_get-set k j v [] = refl
  dict_get-set k j v ((i, w) ∷ d) =
      ground (arith, eq_iff k j, eq_iff i k, eq_iff i j, dict_get-set k j v d)
