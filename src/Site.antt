-- ===== src/Site.antt =====
-- `SiteCatalog.parse` of domain/value_objects/site.py. `str.strip` and `str.lower` are parameters.
pub mod Laws
pub mod Parse
pub mod Examples
use Prim.Native.Char.{Char, code}
use server_scan.Prelude.{
  ℕ, zero, suc, ◌+◌, ◌-◌, String, Bool, true, false, not, ◌&&◌, ◌||◌, Option, none, some, get_or,
  List, [], ◌∷◌, ◌++◌, length, take, filter, str_eq, str_append, contains, leb, ◌==◌, dict_get,
  dict_set, if◌then◌else◌,
}

pub record SiteDefinition : Type 0 where
  pub code : String
  pub name : String
  pub aliases : List String

-- `_SEPARATORS`
abbrev pub is_separator : Char → Bool
is_separator c = code c == b'-' || code c == b'_' || code c == b'.' || code c == b'/'

abbrev pub prefix_head : Char → List String → List String
prefix_head c [] = String.◌∷◌ c "" ∷ []
prefix_head c (s ∷ ss) = String.◌∷◌ c s ∷ ss

-- The pieces, knowing whether the last character was a separator: separators in a row are one.
unfoldable pub pieces : Bool → String → List String
pieces after String.[] = "" ∷ []
pieces after (String.◌∷◌ c s) =
    let next = pieces true s in
    let longer = prefix_head c (pieces false s) in
    if is_separator c then (if after then next else "" ∷ next) else longer

-- `_SEPARATORS.split(s)`
abbrev pub split : String → List String
split s = pieces false s

-- `"-".join(tokens)`
unfoldable pub join : List String → String
join [] = ""
join (t ∷ []) = t
join (t ∷ u ∷ ts) = str_append t (str_append "-" (join (u ∷ ts)))

abbrev pub smaller : ℕ → ℕ → ℕ
smaller a b = if leb a b then a else b

abbrev pub greater : ℕ → ℕ → ℕ
greater a b = if leb a b then b else a

-- `max(…, default=1)`
abbrev pub max_tokens : List (String × String) → ℕ
max_tokens [] = 1
max_tokens ((token, _) ∷ []) = length (split token)
max_tokens ((token, _) ∷ d ∷ ds) = greater (length (split token)) (max_tokens (d ∷ ds))

-- A site that is named at a token.
abbrev pub hit_at : ℕ → Option String → List (String × ℕ)
hit_at start none = []
hit_at start (some code) = (code, start) ∷ []

-- The runs of `size` tokens, from the token at `start` on; a run that is cut short at the end is none.
unfoldable pub runs : List (String × String) → ℕ → ℕ → List String → List (String × ℕ)
runs by_value size start [] = []
runs by_value size start (t ∷ ts) =
    let here = hit_at start (dict_get (join (take size (t ∷ ts))) by_value) in
    let rest = runs by_value size (suc start) ts in
    if leb size (length (t ∷ ts)) then here ++ rest else rest

-- `for size in range(1, max_tokens + 1)`, with the sizes that are left
unfoldable pub all_runs : List (String × String) → ℕ → ℕ → List String → List (String × ℕ)
all_runs by_value zero size tokens = []
all_runs by_value (suc left) size tokens =
    runs by_value size 0 tokens ++ all_runs by_value left (suc size) tokens

-- The candidates inside one token.
unfoldable pub inside : List (String × String) → ℕ → String → List (String × ℕ)
inside [] index token = []
inside ((candidate, code) ∷ ds) index token =
    let rest = inside ds index token in
    if contains candidate token then (code, index) ∷ rest else rest

unfoldable pub all_inside : List (String × String) → ℕ → List String → List (String × ℕ)
all_inside by_value index [] = []
all_inside by_value index (t ∷ ts) = inside by_value index t ++ all_inside by_value (suc index) ts

-- `positions[code] = min(positions.get(code, index), index)`
abbrev pub note : List (String × ℕ) → String × ℕ → List (String × ℕ)
note positions (code, index) =
    dict_set code (smaller (get_or (dict_get code positions) index) index) positions

unfoldable pub note_all : List (String × ℕ) → List (String × ℕ) → List (String × ℕ)
note_all positions [] = positions
note_all positions (h ∷ hs) = note_all (note positions h) hs

unfoldable pub hits : List String → List (String × String) → List (String × ℕ)
hits tokens by_value =
    all_runs by_value (max_tokens by_value) 1 tokens ++ all_inside by_value 0 tokens

-- `_matches`
unfoldable pub matches : List String → List (String × String) → List (String × ℕ)
matches tokens by_value = note_all [] (hits tokens by_value)

-- `codes_only`
abbrev pub codes_only : List (String × String) → List SiteDefinition → List (String × String)
codes_only acc [] = acc
codes_only acc (d ∷ ds) = codes_only (dict_set d.code d.code acc) ds

abbrev pub with_tokens : String → List String → List (String × String) → List (String × String)
with_tokens code [] acc = acc
with_tokens code (t ∷ ts) acc = with_tokens code ts (dict_set t code acc)

abbrev pub with_aliases : List (String × String) → List SiteDefinition → List (String × String)
with_aliases acc [] = acc
with_aliases acc (d ∷ ds) = with_aliases (with_tokens d.code (d.code ∷ d.aliases) acc) ds

-- `min(found.items(), key=lambda item: item[1])`: the first of the least
abbrev pub leftmost : String × ℕ → List (String × ℕ) → String × ℕ
leftmost best [] = best
leftmost (code, i) ((other, j) ∷ rest) = leftmost (if leb i j then (code, i) else (other, j)) rest

abbrev pub of_aliases : List (String × ℕ) → Option String
of_aliases [] = none
of_aliases (f ∷ fs) = some ((leftmost f fs).0)

abbrev pub of_codes : List (String × ℕ) → Option String → Option String
of_codes [] second = second
of_codes ((code, _) ∷ []) second = some code
of_codes (_ ∷ _ ∷ _) second = none

abbrev pub is_empty_text : String → Bool
is_empty_text s = str_eq s ""

module _ (strip lower : String → String) (definitions : List SiteDefinition) where
  abbrev pub tokens_of : String → List String
  tokens_of name = filter (λ t. not (is_empty_text t)) (split (lower (strip name)))

  unfoldable pub parse : Option String → Option String
  parse none = none
  parse (some name) =
      let tokens = tokens_of name in
      let second = of_aliases (matches tokens (with_aliases [] definitions)) in
      if is_empty_text name
      then none
      else of_codes (matches tokens (codes_only [] definitions)) second
