-- ===== src/SearchTokens/Examples.antt =====
-- The tokens of a small server, and a search for a fragment of its name.
use mathlib.Core.List.{Memᴰ}
use server_scan.Prelude.{String, true, none, some, [], ◌∷◌, any, starts, ◌≡◌, refl, str_leb, arith}
use server_scan.Prelude.Sort.{sort, insert}
use server_scan.Listing.{build_search_query}
use server_scan.SearchTokens.{TokenSource, suffixes, token_set, build_search_tokens}
use server_scan.SearchTokens.Laws.{build_search_query-build_search_tokens}

abbrev lower : String → String
lower s = s

abbrev source : TokenSource
source = record {
  name = "ocp-r650";
  model = none;
  serial = some "s9";
  system_uuid = none;
  vendor = "dell";
  site_id = none;
  manager_id = none;
  installation_type = "mce";
  tags = "gpu" ∷ [];
  bmc_mac = some "aa:bb";
  nic_macs = [];
  bmc_host = none;
}

tokens :
    build_search_tokens lower source
    ≡ "aa:bb" ∷ "aabb" ∷ "dell" ∷ "gpu" ∷ "mce" ∷ "ocp-r650" ∷ "r650" ∷ "s9" ∷ []
unfolding build_search_tokens token_set suffixes sort insert str_leb
tokens = refl

build_search_query-build_search_tokens_example :
    any (starts "r65") (build_search_tokens lower source) ≡ true
unfolding suffixes token_set starts build_search_query
build_search_query-build_search_tokens_example =
    build_search_query-build_search_tokens lower source "r65" "ocp-r650" "r650" (any (starts "r65"))
      (Memᴰ.head refl) refl (Memᴰ.tail (Memᴰ.head refl)) (omega arith) refl (omega arith)
      (omega arith) refl
