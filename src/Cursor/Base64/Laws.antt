-- ===== src/Cursor/Base64/Laws.antt =====
-- What is encoded is decoded to the same bytes, and the text has neither a padding nor a dot.
use Prim.Native.Nat.{◌/◌, ◌%◌}
use server_scan.Prelude.{
  ℕ, zero, suc, ◌+◌, ◌-◌, ◌*◌, ◌<◌, true, false, some, List, [], ◌∷◌, ◌++◌, length, ltb, ◌==◌, ◌≡◌,
  refl, ap, ◌∙◌, All, arith,
}
use server_scan.Cursor.Base64.{
  Text, Bytes, pad, encode_digit, decode_digit, urlsafe_b64encode, drop_if, rstrip, b64encode,
  first, second, third, fourth, move, prepend, a2b_base64, is_ascii, urlsafe_b64decode, padding,
  b64decode,
}

abbrev pub AreBytes : List ℕ → Type 0
AreBytes bs = All (λ b. b < 256) bs

decode_digit-encode_digit : (n : ℕ) → n < 64 → decode_digit (encode_digit n) ≡ some n
unfolding decode_digit encode_digit
decode_digit-encode_digit n h = ground arith

encode_digit_ne_pad : (n : ℕ) → n < 64 → (encode_digit n == pad) ≡ false
unfolding encode_digit
encode_digit_ne_pad n h = ground arith

-- A character of the encoded text: of ASCII, neither the padding nor a dot.
abbrev pub IsPlain : ℕ → Type 0
IsPlain c = ((c == pad) ≡ false) × ((c == b'.') ≡ false) × (ltb c 128 ≡ true)

encode_digit-IsPlain : (n : ℕ) → n < 64 → IsPlain (encode_digit n)
unfolding encode_digit
encode_digit-IsPlain n h = ground arith

-- `urlsafe_b64encode` without its padding
unpadded : Bytes → Text
unpadded [] = []
unpadded (a ∷ []) = encode_digit (a / 4) ∷ encode_digit (a % 4 * 16) ∷ []
unpadded (a ∷ b ∷ []) =
    encode_digit (a / 4) ∷ encode_digit (a % 4 * 16 + b / 16) ∷ encode_digit (b % 16 * 4) ∷ []
unpadded (a ∷ b ∷ c ∷ rest) =
    encode_digit (a / 4)
    ∷ encode_digit (a % 4 * 16 + b / 16)
    ∷ encode_digit (b % 16 * 4 + c / 64)
    ∷ encode_digit (c % 64)
    ∷ unpadded rest

unpadded-IsPlain : (bs : Bytes) → AreBytes bs → All IsPlain (unpadded bs)
unfolding unpadded
unpadded-IsPlain [] h = tt
unpadded-IsPlain (a ∷ []) (p, h) =
    (encode_digit-IsPlain _ (omega arith), (encode_digit-IsPlain _ (omega arith), tt))
unpadded-IsPlain (a ∷ b ∷ []) (p, (q, h)) = (
  encode_digit-IsPlain _ (omega arith),
  (encode_digit-IsPlain _ (omega arith), (encode_digit-IsPlain _ (omega arith), tt)),
)
unpadded-IsPlain (a ∷ b ∷ c ∷ rest) (p, (q, (r, h))) = (
  encode_digit-IsPlain _ (omega arith),
  (
    encode_digit-IsPlain _ (omega arith),
    (
      encode_digit-IsPlain _ (omega arith),
      (encode_digit-IsPlain _ (omega arith), unpadded-IsPlain rest h),
    ),
  ),
)

rstrip-padding : (n : ℕ) → rstrip pad (padding n) ≡ []
rstrip-padding zero = refl
rstrip-padding (suc n) = rw (rstrip-padding n) refl

drop_if-keep : (c : ℕ) (s : Text) → (c == pad) ≡ false → drop_if pad c s ≡ c ∷ s
drop_if-keep c [] h = rw h refl
drop_if-keep c (d ∷ s) h = refl

rstrip-IsPlain : (n : ℕ) (s : Text) → All IsPlain s → rstrip pad (s ++ padding n) ≡ s
rstrip-IsPlain n [] h = rstrip-padding n
rstrip-IsPlain n (c ∷ s) (p, h) = rw (rstrip-IsPlain n s h) (drop_if-keep c s p.0)

urlsafe_b64encode-unpadded :
    (bs : Bytes) → (n : ℕ) × (urlsafe_b64encode bs ≡ unpadded bs ++ padding n)
unfolding unpadded urlsafe_b64encode
urlsafe_b64encode-unpadded [] = (0, refl)
urlsafe_b64encode-unpadded (a ∷ []) = (2, refl)
urlsafe_b64encode-unpadded (a ∷ b ∷ []) = (1, refl)
urlsafe_b64encode-unpadded (a ∷ b ∷ c ∷ rest) =
    let (n, e) = urlsafe_b64encode-unpadded rest in (n, rw e refl)

b64encode-unpadded : (bs : Bytes) → AreBytes bs → b64encode bs ≡ unpadded bs
unfolding b64encode
b64encode-unpadded bs h =
    let (n, e) = urlsafe_b64encode-unpadded bs in
    rw e (rstrip-IsPlain n (unpadded bs) (unpadded-IsPlain bs h))

pub b64encode-IsPlain : (bs : Bytes) → AreBytes bs → All IsPlain (b64encode bs)
b64encode-IsPlain bs h = rw (b64encode-unpadded bs h) (unpadded-IsPlain bs h)

-- A character of the alphabet moves the decoder as its digit.
module _ (pads n : ℕ) (cs : Text) (h : n < 64) where
  a2b_base64-first : a2b_base64 first pads (encode_digit n ∷ cs) ≡ a2b_base64 (second n) 0 cs
  unfolding a2b_base64 move
  a2b_base64-first = rw (a2b_base64, encode_digit_ne_pad n h, decode_digit-encode_digit n h) refl

  a2b_base64-second :
      (left out : ℕ)
      → left * 4 + n / 16 ≡ out
      → a2b_base64 (second left) pads (encode_digit n ∷ cs)
        ≡ prepend out (a2b_base64 (third (n % 16)) 0 cs)
  unfolding a2b_base64 move
  a2b_base64-second left out e =
      rw (a2b_base64, encode_digit_ne_pad n h, decode_digit-encode_digit n h, e) refl

  a2b_base64-third :
      (left out : ℕ)
      → left * 16 + n / 4 ≡ out
      → a2b_base64 (third left) pads (encode_digit n ∷ cs)
        ≡ prepend out (a2b_base64 (fourth (n % 4)) 0 cs)
  unfolding a2b_base64 move
  a2b_base64-third left out e =
      rw (a2b_base64, encode_digit_ne_pad n h, decode_digit-encode_digit n h, e) refl

  a2b_base64-fourth :
      (left out : ℕ)
      → left * 64 + n ≡ out
      → a2b_base64 (fourth left) pads (encode_digit n ∷ cs) ≡ prepend out (a2b_base64 first 0 cs)
  unfolding a2b_base64 move
  a2b_base64-fourth left out e =
      rw (a2b_base64, encode_digit_ne_pad n h, decode_digit-encode_digit n h, e) refl

-- Four characters are three bytes.
a2b_base64-group :
    (pads a b c : ℕ) (cs : Text)
    → a < 256
    → b < 256
    → c < 256
    → a2b_base64 first pads (
        encode_digit (a / 4)
        ∷ encode_digit (a % 4 * 16 + b / 16)
        ∷ encode_digit (b % 16 * 4 + c / 64)
        ∷ encode_digit (c % 64)
        ∷ cs)
      ≡ prepend a (prepend b (prepend c (a2b_base64 first 0 cs)))
a2b_base64-group pads a b c cs ha hb hc =
    a2b_base64-first pads (a / 4) _ (omega arith)
    ∙ a2b_base64-second 0 (a % 4 * 16 + b / 16) _ (omega arith) (a / 4) a (omega arith)
    ∙ ap (prepend a) (
        a2b_base64-third 0 (b % 16 * 4 + c / 64) _ (omega arith) ((a % 4 * 16 + b / 16) % 16) b
          (omega arith)
        ∙ ap (prepend b) (
            a2b_base64-fourth 0 (c % 64) cs (omega arith) ((b % 16 * 4 + c / 64) % 4) c
              (omega arith)))

a2b_base64-two :
    (pads a : ℕ)
    → a < 256
    → a2b_base64 first pads (encode_digit (a / 4) ∷ encode_digit (a % 4 * 16) ∷ pad ∷ pad ∷ [])
      ≡ some (a ∷ [])
unfolding a2b_base64 move
a2b_base64-two pads a ha =
    a2b_base64-first pads (a / 4) (encode_digit (a % 4 * 16) ∷ pad ∷ pad ∷ []) (omega arith)
    ∙ a2b_base64-second 0 (a % 4 * 16) (pad ∷ pad ∷ []) (omega arith) (a / 4) a (omega arith)

a2b_base64-three :
    (pads a b : ℕ)
    → a < 256
    → b < 256
    → a2b_base64 first pads (
        encode_digit (a / 4)
        ∷ encode_digit (a % 4 * 16 + b / 16)
        ∷ encode_digit (b % 16 * 4)
        ∷ pad
        ∷ [])
      ≡ some (a ∷ b ∷ [])
unfolding a2b_base64 move
a2b_base64-three pads a b ha hb =
    a2b_base64-first pads (a / 4)
      (encode_digit (a % 4 * 16 + b / 16) ∷ encode_digit (b % 16 * 4) ∷ pad ∷ []) (omega arith)
    ∙ a2b_base64-second 0 (a % 4 * 16 + b / 16) (encode_digit (b % 16 * 4) ∷ pad ∷ []) (omega arith)
        (a / 4) a (omega arith)
    ∙ ap (prepend a) (
        a2b_base64-third 0 (b % 16 * 4) (pad ∷ []) (omega arith) ((a % 4 * 16 + b / 16) % 16) b
          (omega arith))

missing : ℕ → ℕ
missing n = (4 - n % 4) % 4

missing_period : (n : ℕ) → missing (suc (suc (suc (suc n)))) ≡ missing n
unfolding missing
missing_period n = omega arith

a2b_base64-unpadded :
    (pads : ℕ) (bs : Bytes)
    → AreBytes bs
    → a2b_base64 first pads (unpadded bs ++ padding (missing (length (unpadded bs)))) ≡ some bs
unfolding unpadded missing a2b_base64 move
a2b_base64-unpadded pads [] h = refl
a2b_base64-unpadded pads (a ∷ []) (p, h) = a2b_base64-two pads a p
a2b_base64-unpadded pads (a ∷ b ∷ []) (p, (q, h)) = a2b_base64-three pads a b p q
a2b_base64-unpadded pads (a ∷ b ∷ c ∷ rest) (p, (q, (r, h))) =
    a2b_base64-group pads a b c
      (unpadded rest ++ padding (missing (length (unpadded (a ∷ b ∷ c ∷ rest))))) p q r
    ∙ rw (missing_period (length (unpadded rest)), a2b_base64-unpadded 0 rest h) refl

is_ascii-padding : (n : ℕ) → is_ascii (padding n) ≡ true
is_ascii-padding zero = refl
is_ascii-padding (suc n) = is_ascii-padding n

is_ascii-plain : (n : ℕ) (s : Text) → All IsPlain s → is_ascii (s ++ padding n) ≡ true
is_ascii-plain n [] h = is_ascii-padding n
is_ascii-plain n (c ∷ s) ((_, _, p), h) = rw (p, is_ascii-plain n s h) refl

-- `_b64decode` reads back the bytes that `_b64encode` wrote, for every sequence of bytes.
pub b64decode-b64encode : (bs : Bytes) → AreBytes bs → b64decode (b64encode bs) ≡ some bs
unfolding b64decode urlsafe_b64decode missing
b64decode-b64encode bs h =
    rw
      (
        b64encode-unpadded bs h,
        is_ascii-plain (missing (length (unpadded bs))) (unpadded bs) (unpadded-IsPlain bs h),
      )
      (a2b_base64-unpadded 0 bs h)
