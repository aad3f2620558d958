-- ===== src/MacAddress/Laws.antt =====
-- A normalized address is in the one canonical form.
use Prim.Native.Char.{Char}
use server_scan.Prelude.{
  ℕ, zero, suc, ◌+◌, ◌*◌, String, true, false, Bool-cases, inl, inr, Option, none, some, str_eq,
  eq_iff, str_length, ◌≡◌, refl, ap, ◌∙◌, arith,
}
use server_scan.MacAddress.{
  is_separator, strip_separators, is_hex, all_hex, is_hex12, join_pairs, canonical, normalize_mac,
}

is_separator-is_hex : (c : Char) → is_hex c ≡ true → is_separator c ≡ false
unfolding is_hex is_separator
is_separator-is_hex c h = ground arith

is_separator_colon : is_separator ":" ≡ true
unfolding is_separator
is_separator_colon = refl

-- Taking the colons out of a joined text gives its digits back.
strip_separators-join_pairs : (s : String) → all_hex s ≡ true → strip_separators (join_pairs s) ≡ s
unfolding strip_separators join_pairs
strip_separators-join_pairs String.[] h = refl
strip_separators-join_pairs (String.◌∷◌ a String.[]) h =
    rw (is_separator-is_hex a (ground arith)) refl
strip_separators-join_pairs (String.◌∷◌ a (String.◌∷◌ b String.[])) h =
    rw (is_separator-is_hex a (ground arith), is_separator-is_hex b (ground arith)) refl
strip_separators-join_pairs (String.◌∷◌ a (String.◌∷◌ b (String.◌∷◌ c s))) h =
    let rest : all_hex (String.◌∷◌ c s) ≡ true = ground arith in
    rw
      (
        is_separator-is_hex a (ground arith),
        is_separator-is_hex b (ground arith),
        is_separator_colon,
        strip_separators-join_pairs (String.◌∷◌ c s) rest,
      )
      refl

str_length-join_pairs :
    (n : ℕ) (s : String) → str_length s ≡ 2 * n + 2 → str_length (join_pairs s) ≡ 3 * n + 2
unfolding join_pairs
str_length-join_pairs n String.[] h = absurd (omega arith)
str_length-join_pairs n (String.◌∷◌ a String.[]) h = absurd (omega arith)
str_length-join_pairs n (String.◌∷◌ a (String.◌∷◌ b String.[])) h = omega arith
str_length-join_pairs zero (String.◌∷◌ a (String.◌∷◌ b (String.◌∷◌ c s))) h = absurd (omega arith)
str_length-join_pairs (suc n) (String.◌∷◌ a (String.◌∷◌ b (String.◌∷◌ c s))) h =
    omega (arith, str_length-join_pairs n (String.◌∷◌ c s) (omega arith))

canonical-cases :
    (d mac : String) → canonical d ≡ some mac → (is_hex12 d ≡ true) × (mac ≡ join_pairs d)
canonical-cases d mac h = ground arith

nonempty : (mac : String) → str_length mac ≡ 17 → str_eq mac "" ≡ false
nonempty mac h = elim (Bool-cases (str_eq mac "")) [
  | inl e ↦ let f : str_length mac ≡ 0 = ap str_length ((eq_iff mac "").0 e) in absurd (omega arith)
  | inr e ↦ e
]

module _ (lower : String → String) (keeps : (s : String) → all_hex s ≡ true → lower s ≡ s) where
  renormalize :
      (d mac : String)
      → canonical d ≡ some mac
      → (normalize_mac lower (some mac) ≡ some mac) × (str_length mac ≡ 17)
  unfolding normalize_mac is_hex12
  renormalize d mac h =
      let (twelve, joined) = canonical-cases d mac h in
      let hex : all_hex d ≡ true = ground arith in
      let long : str_length d ≡ 12 = ground arith in
      let length : str_length mac ≡ 17 = ap str_length joined ∙ str_length-join_pairs 5 d long in
      let solid : str_eq mac "" ≡ false = nonempty mac length in
      (
        rw solid (
            ap (λ s. canonical (lower s))
              (ap strip_separators joined ∙ strip_separators-join_pairs d hex)
            ∙ ap canonical (keeps d hex)
            ∙ h),
        length,
      )

  -- A normalized address is its own normal form, of seventeen characters.
  pub normalize_mac-normalize_mac :
      (raw : Option String) (mac : String)
      → normalize_mac lower raw ≡ some mac
      → (normalize_mac lower (some mac) ≡ some mac) × (str_length mac ≡ 17)
  unfolding normalize_mac
  normalize_mac-normalize_mac none mac h = cc h
  normalize_mac-normalize_mac (some raw) mac h = elim (Bool-cases (str_eq raw "")) [
    | inl empty ↦ let e : none ≡ some mac = rw empty at h in cc e
    | inr full ↦ renormalize (lower (strip_separators raw)) mac (rw full at h)
  ]
