-- ===== src/Cursor/Base64.antt =====
-- `_b64encode` and `_b64decode` of domain/services/cursor.py, over the codec of Python's `base64`: the
-- URL-safe alphabet, and a decoder that skips characters outside it and stops at a full padding.
pub mod Laws
use Prim.Native.Nat.{◌/◌, ◌%◌}
use server_scan.Prelude.{
  ℕ, zero, suc, ◌+◌, ◌-◌, ◌*◌, Bool, true, false, ◌&&◌, ◌||◌, Option, none, some, List, [], ◌∷◌,
  ◌++◌, all, length, ltb, leb, ◌==◌, if◌then◌else◌,
}

-- A text, by its code points.
abbrev pub Text : Type 0
Text = List ℕ

abbrev pub Bytes : Type 0
Bytes = List ℕ

abbrev pub pad : ℕ
pad = b'='

-- The character of six bits.
unfoldable pub encode_digit : ℕ → ℕ
encode_digit n =
    if ltb n 26
    then n + b'A'
    else if ltb n 52
    then n - 26 + b'a'
    else if ltb n 62
    then n - 52 + b'0'
    else if n == 62
    then b'-'
    else b'_'

-- The six bits of a character: of both alphabets, since only `-` and `_` are translated first.
unfoldable pub decode_digit : ℕ → Option ℕ
decode_digit c =
    if leb b'A' c && leb c b'Z'
    then some (c - b'A')
    else if leb b'a' c && leb c b'z'
    then some (c - b'a' + 26)
    else if leb b'0' c && leb c b'9'
    then some (c - b'0' + 52)
    else if (c == b'-') || (c == b'+')
    then some 62
    else if (c == b'_') || (c == b'/')
    then some 63
    else none

-- `base64.urlsafe_b64encode(bytes)`
unfoldable pub urlsafe_b64encode : Bytes → Text
urlsafe_b64encode [] = []
urlsafe_b64encode (a ∷ []) = encode_digit (a / 4) ∷ encode_digit (a % 4 * 16) ∷ pad ∷ pad ∷ []
urlsafe_b64encode (a ∷ b ∷ []) =
    encode_digit (a / 4) ∷ encode_digit (a % 4 * 16 + b / 16) ∷ encode_digit (b % 16 * 4) ∷ pad ∷ []
urlsafe_b64encode (a ∷ b ∷ c ∷ rest) =
    encode_digit (a / 4)
    ∷ encode_digit (a % 4 * 16 + b / 16)
    ∷ encode_digit (b % 16 * 4 + c / 64)
    ∷ encode_digit (c % 64)
    ∷ urlsafe_b64encode rest

abbrev pub drop_if : ℕ → ℕ → Text → Text
drop_if c x [] = if x == c then [] else x ∷ []
drop_if c x (y ∷ ys) = x ∷ y ∷ ys

-- `s.rstrip(c)`
abbrev pub rstrip : ℕ → Text → Text
rstrip c [] = []
rstrip c (x ∷ xs) = drop_if c x (rstrip c xs)

unfoldable pub b64encode : Bytes → Text
b64encode bytes = rstrip pad (urlsafe_b64encode bytes)

-- The decoder's position in a group of four, with the bits that are left of the last character.
pub data Quad : Type 0 where
  first : Quad
  second third fourth : ℕ → Quad

pub data Move : Type 0 where
  stop : Move
  skip : ℕ → Move
  shift : Quad → Move
  output : ℕ → Quad → Move

abbrev pub on_pad : Quad → ℕ → Move
on_pad first pads = skip pads
on_pad (second left) pads = skip pads
on_pad (third left) pads = if leb 4 (2 + suc pads) then stop else skip (suc pads)
on_pad (fourth left) pads = if leb 4 (3 + suc pads) then stop else skip (suc pads)

abbrev pub on_digit : Quad → ℕ → Move
on_digit first d = shift (second d)
on_digit (second left) d = output (left * 4 + d / 16) (third (d % 16))
on_digit (third left) d = output (left * 16 + d / 4) (fourth (d % 4))
on_digit (fourth left) d = output (left * 64 + d) first

abbrev pub on_decoded : Quad → ℕ → Option ℕ → Move
on_decoded q pads none = skip pads
on_decoded q pads (some d) = on_digit q d

unfoldable pub move : Quad → ℕ → ℕ → Move
unfolding decode_digit
move q pads c = if c == pad then on_pad q pads else on_decoded q pads (decode_digit c)

abbrev pub prepend : ℕ → Option Bytes → Option Bytes
prepend x none = none
prepend x (some xs) = some (x ∷ xs)

-- `binascii.a2b_base64`, not strict; `none` is a `binascii.Error`
unfoldable pub a2b_base64 : Quad → ℕ → Text → Option Bytes
unfolding move
a2b_base64 first pads [] = some []
a2b_base64 (second left) pads [] = none
a2b_base64 (third left) pads [] = none
a2b_base64 (fourth left) pads [] = none
a2b_base64 q pads (c ∷ cs) = elim (move q pads c) [
  | stop ↦ some []
  | skip pads' ↦ a2b_base64 q pads' cs
  | shift q' ↦ a2b_base64 q' 0 cs
  | output b q' ↦ prepend b (a2b_base64 q' 0 cs)
]

abbrev pub is_ascii : Text → Bool
is_ascii s = all (λ c. ltb c 128) s

-- `base64.urlsafe_b64decode(bytes)`; `none` is a `ValueError`
unfoldable pub urlsafe_b64decode : Text → Option Bytes
unfolding a2b_base64
urlsafe_b64decode bytes = if is_ascii bytes then a2b_base64 first 0 bytes else none

abbrev pub padding : ℕ → Text
padding zero = []
padding (suc n) = pad ∷ padding n

unfoldable pub b64decode : Text → Option Bytes
unfolding urlsafe_b64decode
b64decode bytes = urlsafe_b64decode (bytes ++ padding ((4 - length bytes % 4) % 4))
