-- ===== src/MacAddress.antt =====
-- domain/value_objects/mac_address.py. `str.lower` is a parameter, of which it is only used that it
-- keeps lower-case hexadecimal digits; `\s` is the white space of Python's `str`.
pub mod Laws
pub mod Examples
use Prim.Native.Char.{Char, code}
use server_scan.Prelude.{
  ℕ, zero, suc, String, Bool, true, false, not, ◌&&◌, ◌||◌, Option, none, some, str_eq, str_length,
  leb, ◌==◌, if◌then◌else◌,
}

abbrev pub between : ℕ → ℕ → ℕ → Bool
between low high n = leb low n && leb n high

-- `\s`
abbrev pub is_space : ℕ → Bool
is_space n =
    between 9 13 n
    || between 28 32 n
    || n == 133
    || n == 160
    || n == 5760
    || between 8192 8202 n
    || between 8232 8233 n
    || n == 8239
    || n == 8287
    || n == 12288

-- `[.:\-\s]`
unfoldable pub is_separator : Char → Bool
is_separator c = code c == b'.' || code c == b':' || code c == b'-' || is_space (code c)

-- `_SEPARATORS.sub("", raw)`
unfoldable pub strip_separators : String → String
strip_separators String.[] = ""
strip_separators (String.◌∷◌ c s) =
    let rest = strip_separators s in if is_separator c then rest else String.◌∷◌ c rest

-- `[0-9a-f]`
unfoldable pub is_hex : Char → Bool
is_hex c = between b'0' b'9' (code c) || between b'a' b'f' (code c)

abbrev pub all_hex : String → Bool
all_hex String.[] = true
all_hex (String.◌∷◌ c s) = is_hex c && all_hex s

-- `_HEX12.match`; no line break is left for `$` to stand before
unfoldable pub is_hex12 : String → Bool
is_hex12 s = str_length s == 12 && all_hex s

-- `":".join(s[i : i + 2] for i in range(0, 12, 2))`
unfoldable pub join_pairs : String → String
join_pairs (String.◌∷◌ a (String.◌∷◌ b String.[])) = String.◌∷◌ a (String.◌∷◌ b "")
join_pairs (String.◌∷◌ a (String.◌∷◌ b (String.◌∷◌ c s))) =
    String.◌∷◌ a (String.◌∷◌ b (String.◌∷◌ ":" (join_pairs (String.◌∷◌ c s))))
join_pairs s = s

abbrev pub canonical : String → Option String
canonical stripped =
    if not (is_hex12 stripped)
    then none
    else if str_eq stripped "000000000000" || str_eq stripped "ffffffffffff"
    then none
    else some (join_pairs stripped)

unfoldable pub normalize_mac : (String → String) → Option String → Option String
normalize_mac lower none = none
normalize_mac lower (some raw) =
    if str_eq raw "" then none else canonical (lower (strip_separators raw))
