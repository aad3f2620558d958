-- ===== src/MacAddress/Examples.antt =====
-- Addresses as vendors report them.
use server_scan.Prelude.{String, none, some, ◌≡◌, refl, str_length}
use server_scan.MacAddress.{
  normalize_mac, strip_separators, is_separator, is_hex12, is_hex, join_pairs,
}
use server_scan.MacAddress.Laws.{normalize_mac-normalize_mac}

abbrev lower : String → String
lower s = s

reads :
    (normalize_mac lower (some "00a1.b2c3.d4e5") ≡ some "00:a1:b2:c3:d4:e5")
    × (normalize_mac lower (some " 00-a1-b2-c3-d4-e5") ≡ some "00:a1:b2:c3:d4:e5")
    × (normalize_mac lower (some "00:00:00:00:00:00") ≡ none)
    × (normalize_mac lower (some "00:a1") ≡ none)
unfolding normalize_mac strip_separators is_separator is_hex12 is_hex join_pairs
reads = (refl, refl, refl, refl)

normalize_mac-normalize_mac_example :
    (normalize_mac lower (some "00:a1:b2:c3:d4:e5") ≡ some "00:a1:b2:c3:d4:e5")
    × (str_length "00:a1:b2:c3:d4:e5" ≡ 17)
unfolding normalize_mac strip_separators is_separator is_hex12 is_hex join_pairs
normalize_mac-normalize_mac_example =
    normalize_mac-normalize_mac lower (λ s h. refl) (some "00a1.b2c3.d4e5") "00:a1:b2:c3:d4:e5" refl
