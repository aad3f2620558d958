-- ===== src/Cursor/Toy.antt =====
-- A small lawful library for the examples: a text is written as its code points in three bytes each,
-- a datetime as a text of its length, and a digest is one byte.
use Prim.Native.Char.{Char, char, code, IsScalar}
use Prim.Native.Nat.{◌/◌, ◌%◌}
use native.Mathlib.Decide.{dec_lt}
use text.Mathlib.TextEquality.{Char-path}
use server_scan.Prelude.{
  ℕ, zero, suc, ◌+◌, ◌*◌, ◌<◌, ◌≡◌, refl, ap, ◌⊎◌, inl, inr, Bool, true, String, Time, Option, none,
  some, [], ◌∷◌, ◌++◌, str_length, str_append, All-append, if◌then◌else◌, arith,
}
use server_scan.Cursor.Base64.{Text, Bytes}
use server_scan.Cursor.Base64.Laws.{AreBytes}
use server_scan.Cursor.{Payload, Binding, CursorLibrary}
use server_scan.Cursor.Laws.{IsLawful}

pub IsScalar-low : (n : ℕ) → n < 55296 → IsScalar n
IsScalar-low n h = ground arith

pub IsScalar-high : (n : ℕ) → 57343 < n → n < 1114112 → IsScalar n
IsScalar-high n h k = ground arith

scalar_cases : (n : ℕ) → IsScalar n → (n < 55296) ⊎ ((57343 < n) × (n < 1114112))
scalar_cases n h = ground arith

below_end : (n : ℕ) → 57343 < n → Dec (n < 1114112) → Option Char
below_end n h (yes k) = some (char n (IsScalar-high n h k))
below_end n h (no _) = none

above_gap : (n : ℕ) → Dec (57343 < n) → Option Char
unfolding below_end
above_gap n (yes h) = below_end n h (dec_lt n 1114112)
above_gap n (no _) = none

below_gap : (n : ℕ) → Dec (n < 55296) → Option Char
unfolding above_gap
below_gap n (yes h) = some (char n (IsScalar-low n h))
below_gap n (no _) = above_gap n (dec_lt 57343 n)

below_end-code :
    (n : ℕ) (s : IsScalar n) (h : 57343 < n) (d : Dec (n < 1114112))
    → n < 1114112
    → below_end n h d ≡ some (char n s)
unfolding below_end
below_end-code n s h (yes k) _ = ap some (Char-path _ _ refl)
below_end-code n s h (no k) below = absurd (k below)

above_gap-code :
    (n : ℕ) (s : IsScalar n) (d : Dec (57343 < n))
    → 57343 < n
    → n < 1114112
    → above_gap n d ≡ some (char n s)
unfolding above_gap
above_gap-code n s (yes h) above below = below_end-code n s h (dec_lt n 1114112) below
above_gap-code n s (no h) above below = absurd (h above)

below_gap-code :
    (n : ℕ) (s : IsScalar n) (d : Dec (n < 55296))
    → (n < 55296) ⊎ ((57343 < n) × (n < 1114112))
    → below_gap n d ≡ some (char n s)
unfolding below_gap
below_gap-code n s (yes h) _ = ap some (Char-path _ _ refl)
below_gap-code n s (no h) (inl low) = absurd (h low)
below_gap-code n s (no h) (inr (above, below)) = above_gap-code n s (dec_lt 57343 n) above below

unfoldable pub to_char : ℕ → Option Char
unfolding below_gap
to_char n = below_gap n (dec_lt n 55296)

to_char-code : (c : Char) → to_char (code c) ≡ some c
unfolding to_char
to_char-code (char n s) = below_gap-code n s (dec_lt n 55296) (scalar_cases n s)

unfoldable pub write : String → Bytes
write String.[] = 0 ∷ []
write (String.◌∷◌ c s) = 1 ∷ code c / 65536 ∷ code c / 256 % 256 ∷ code c % 256 ∷ write s

abbrev pub cons_read : Option Char → Option (String × Bytes) → Option (String × Bytes)
cons_read none _ = none
cons_read (some c) none = none
cons_read (some c) (some (s, rest)) = some (String.◌∷◌ c s, rest)

unfoldable pub read : Bytes → Option (String × Bytes)
unfolding to_char
read (zero ∷ rest) = some ("", rest)
read (suc m ∷ a ∷ b ∷ c ∷ rest) = cons_read (to_char (a * 65536 + b * 256 + c)) (read rest)
read _ = none

read-write : (s : String) (rest : Bytes) → read (write s ++ rest) ≡ some (s, rest)
unfolding read write
read-write String.[] rest = refl
read-write (String.◌∷◌ c s) rest =
    let same : code c / 65536 * 65536 + code c / 256 % 256 * 256 + code c % 256 ≡ code c =
      omega arith in
    rw (same, to_char-code c, read-write s rest) refl

write-AreBytes : (s : String) → AreBytes (write s)
unfolding write
write-AreBytes String.[] = (omega arith, tt)
write-AreBytes (String.◌∷◌ (char n h) s) =
    let small = scalar_cases n h in
    (omega arith, (ground arith, (omega arith, (omega arith, write-AreBytes s))))

unfoldable pub toy_dumps : Payload → Bytes
unfolding write
toy_dumps p = write p.v ++ (write p.vt ++ (write p.id ++ (write p.fh ++ [])))

abbrev then_read : Option (String × Bytes) → (String → Bytes → Option Payload) → Option Payload
then_read none next = none
then_read (some (s, rest)) next = next s rest

unfoldable pub toy_loads : Bytes → Option Payload
unfolding read
toy_loads bytes = then_read (read bytes) (λ v rest. then_read (read rest) (λ vt rest.
    then_read (read rest) (λ id rest.
      then_read (read rest) (λ fh rest. some (record { v = v; vt = vt; id = id; fh = fh })))))

toy_loads-dumps : (p : Payload) → toy_loads (toy_dumps p) ≡ some p
unfolding toy_loads toy_dumps
toy_loads-dumps p =
    rw (read-write p.v _, read-write p.vt _, read-write p.id _, read-write p.fh []) refl

toy_dumps-AreBytes : (p : Payload) → AreBytes (toy_dumps p)
unfolding toy_dumps
toy_dumps-AreBytes p =
    All-append (λ b. b < 256) (write p.v) _ (write-AreBytes p.v)
      (All-append (λ b. b < 256) (write p.vt) _ (write-AreBytes p.vt)
        (All-append (λ b. b < 256) (write p.id) _ (write-AreBytes p.id)
          (All-append (λ b. b < 256) (write p.fh) [] (write-AreBytes p.fh) tt)))

abbrev pub toy_isoformat : Time → String
toy_isoformat zero = ""
toy_isoformat (suc n) = String.◌∷◌ "i" (toy_isoformat n)

toy_reads_datetime : (t : Time) → str_length (toy_isoformat t) ≡ t
toy_reads_datetime zero = refl
toy_reads_datetime (suc n) = ap suc (toy_reads_datetime n)

abbrev pub sum : Text → ℕ
sum [] = 0
sum (c ∷ cs) = c + sum cs

abbrev pub toy_hmac : String → Text → Bytes
toy_hmac secret message = (str_length secret + sum message) % 256 ∷ []

abbrev pub toy_hexdigest : Binding String → String
toy_hexdigest b = str_append b.sort (if b.sort_desc then "d" else "a")

abbrev pub toy_is_ascii : String → Bool
toy_is_ascii s = true

abbrev pub toy_library : CursorLibrary String
toy_library = record {
  isoformat = toy_isoformat;
  fromisoformat = λ s. some (str_length s);
  dumps = toy_dumps;
  loads = toy_loads;
  hmac_sha256 = toy_hmac;
  hexdigest = toy_hexdigest;
  str_is_ascii = toy_is_ascii;
}

pub toy_library-IsLawful : IsLawful toy_library
toy_library-IsLawful = record {
  reads_datetime = λ t. ap some (toy_reads_datetime t);
  reads_json = toy_loads-dumps;
  dumps_bytes = toy_dumps-AreBytes;
  digest_bytes = λ secret message. (omega arith, tt);
  hex_ascii = λ b. refl;
}
