-- ===== src/SearchTokens.antt =====
-- domain/services/search_tokens.py: the token set of a server. A set is a list without repetitions,
-- whose order the sort at the end forgets; `str.lower` is a parameter.
pub mod Laws
pub mod Examples
use Prim.Native.Char.{Char, code}
use server_scan.Prelude.{
  ℕ, zero, suc, String, Bool, true, false, not, ◌&&◌, ◌||◌, Option, none, some, List, [], ◌∷◌, ◌++◌,
  any, map, take, str_eq, str_length, str_take, leb, ltb, ◌==◌, if◌then◌else◌,
}
use server_scan.Prelude.Order.{str_order}
use server_scan.Prelude.Sort.{sort}
use server_scan.MacAddress.{between}

-- The fields that are indexed; vendor and installation type by their values.
pub record TokenSource : Type 0 where
  pub name : String
  pub model : Option String
  pub serial : Option String
  pub system_uuid : Option String
  pub vendor : String
  pub site_id : Option String
  pub manager_id : Option String
  pub installation_type : String
  pub tags : List String
  pub bmc_mac : Option String
  pub nic_macs : List String
  pub bmc_host : Option String

-- `tokens.add(token)`
abbrev pub add_token : String → List String → List String
add_token token tokens = if any (str_eq token) tokens then tokens else token ∷ tokens

-- `[a-z0-9]`
abbrev pub is_part : Char → Bool
is_part c = between b'a' b'z' (code c) || between b'0' b'9' (code c)

-- `lowered[part.start() :]` for each match of `[a-z0-9]+`, knowing whether a match goes on
unfoldable pub suffixes : Bool → String → List String
suffixes inside String.[] = []
suffixes inside (String.◌∷◌ c s) =
    let rest = suffixes (is_part c) s in
    if is_part c && not inside then String.◌∷◌ c s ∷ rest else rest

abbrev pub add_suffixes : List String → List String → List String
add_suffixes [] tokens = tokens
add_suffixes (s ∷ ss) tokens =
    add_suffixes ss (if leb 2 (str_length s) then add_token (str_take 64 s) tokens else tokens)

-- `mac.replace(":", "")`
abbrev pub without_colons : String → String
without_colons String.[] = ""
without_colons (String.◌∷◌ c s) =
    let rest = without_colons s in if code c == b':' then rest else String.◌∷◌ c rest

-- `_add_mac`
abbrev pub add_mac : Option String → List String → List String
add_mac none tokens = tokens
add_mac (some mac) tokens =
    if str_eq mac "" then tokens else add_token (without_colons mac) (add_token mac tokens)

abbrev pub add_macs : List String → List String → List String
add_macs [] tokens = tokens
add_macs (m ∷ ms) tokens = add_macs ms (add_mac (some m) tokens)

module _ (lower : String → String) where
  -- `_add`
  abbrev pub add : Option String → List String → List String
  add none tokens = tokens
  add (some value) tokens =
      if str_eq value "" then tokens else add_suffixes (suffixes false (lower value)) tokens

  abbrev pub add_all : List (Option String) → List String → List String
  add_all [] tokens = tokens
  add_all (v ∷ vs) tokens = add_all vs (add v tokens)

  -- The values that are added before the tags.
  abbrev pub leading_fields : TokenSource → List (Option String)
  leading_fields s =
      some s.name
      ∷ s.model
      ∷ s.serial
      ∷ s.system_uuid
      ∷ some s.vendor
      ∷ s.site_id
      ∷ s.manager_id
      ∷ some s.installation_type
      ∷ []

  -- Every value that `_add` is called with; the addresses go through `_add_mac`.
  abbrev pub indexed_fields : TokenSource → List (Option String)
  indexed_fields s = leading_fields s ++ map some s.tags ++ s.bmc_host ∷ []

  unfoldable pub token_set : TokenSource → List String
  token_set s =
      let named = add_all (map some s.tags) (add_all (leading_fields s) []) in
      let addressed = add_macs (take 8 s.nic_macs) (add_mac s.bmc_mac named) in
      add s.bmc_host addressed

  unfoldable pub build_search_tokens : TokenSource → List String
  build_search_tokens s = take 64 (sort str_order (token_set s))
