-- ===== src/Site/Examples.antt =====
-- Names of a deployment with two sites.
use server_scan.Prelude.{
  String, true, none, some, List, [], ◌∷◌, any, str_eq, contains, starts, ◌≡◌, refl,
}
use server_scan.Site.{
  SiteDefinition, hits, matches, note_all, all_runs, runs, all_inside, inside, pieces, join, parse,
}
use server_scan.Site.Parse.{parse-real_codes, parse-is_code}

abbrev same : String → String
same s = s

abbrev sites : List SiteDefinition
sites =
    record { code = "tlv"; name = "Tel Aviv"; aliases = "center" ∷ [] }
    ∷ record { code = "bat-yam"; name = "Bat Yam"; aliases = [] }
    ∷ []

-- A code of two tokens, an alias, a code inside a token, and two codes at once.
names :
    (parse same same sites (some "ocp-bat_yam-r650") ≡ some "bat-yam")
    × (parse same same sites (some "ocp-center.r650") ≡ some "tlv")
    × (parse same same sites (some "computetlv") ≡ some "tlv")
    × (parse same same sites (some "tlv-bat-yam") ≡ none)
unfolding parse matches hits note_all all_runs runs all_inside inside pieces join contains starts
names = (refl, refl, refl, refl)

parse-real_codes_example : parse same same sites (some "tlv-center") ≡ some "tlv"
unfolding hits all_runs runs all_inside inside pieces join contains starts
parse-real_codes_example =
    parse-real_codes same same sites "tlv-center" "tlv" 0 (("tlv", 0) ∷ []) refl refl

parse-is_code_example : any (λ d. str_eq d.code "tlv") sites ≡ true
unfolding parse matches hits note_all all_runs runs all_inside inside pieces join contains starts
parse-is_code_example = parse-is_code same same sites (some "computetlv") "tlv" refl
