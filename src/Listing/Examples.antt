-- ===== src/Listing/Examples.antt =====
-- Listings of a small fleet with the toy cursors.
use server_scan.Prelude.{
  ℕ, String, Time, Bool, true, false, Option, none, some, List, [], ◌∷◌, ◌≡◌, refl, arith, str_leb,
}
use server_scan.Prelude.Result.{raised}
use server_scan.Prelude.Sort.{sort, insert}
use server_scan.Enums.{available}
use server_scan.Cursor.Toy.{toy_library, toy_library-IsLawful}
use server_scan.Listing.{
  ListedServer, cluster_name, last_seen_at, resolve_sort_field, build_search_query,
  unknown_sort_field, search_query_too_short,
}
use server_scan.Listing.Clause.{is_past, listing_order}
use server_scan.Listing.Clause.Laws.{is_past-is_after}
use server_scan.Listing.Page.{Query, base_filter, list_page, position_of}
use server_scan.Listing.Walk.{walk}
use server_scan.Listing.Walk.Laws.{walk-sort}
use server_scan.Prelude.Sort.Filter.{is_after}

abbrev listed : String → Option Time → Option String → ListedServer
listed id seen cluster = record {
  id = id;
  name_normalized = id;
  serial_normalized = "";
  model_normalized = "";
  updated_at = 1;
  last_seen_at = seen;
  lifecycle_state = available;
  cluster_name = cluster;
  mce_name = none;
  search_tokens = id ∷ [];
}

abbrev fleet : List ListedServer
fleet =
    listed "c" (some 3) none
    ∷ listed "a" none (some "east")
    ∷ listed "d" none none
    ∷ listed "b" (some 2) (some "east")
    ∷ listed "e" none none
    ∷ []

abbrev dump : Time → String
dump t = toy_library.isoformat t

abbrev everything : String → ListedServer → Bool
everything filters s = true

abbrev lower : String → String
lower s = s

abbrev by : String → Bool → ℕ → Query String
by field sort_desc page_size = record {
  binding = record { filters = ""; sort = field; sort_desc = sort_desc; page_size = page_size };
  search = none;
  with_count = true;
}

-- By cluster, the servers of no cluster first.
walk-sort_example :
    walk toy_library dump everything lower "secret" fleet (by "cluster_name" false 2) 6 none
    ≡ some (
        listed "c" (some 3) none
        ∷ listed "d" none none
        ∷ listed "e" none none
        ∷ listed "a" none (some "east")
        ∷ listed "b" (some 2) (some "east")
        ∷ [])
unfolding sort insert str_leb resolve_sort_field base_filter
walk-sort_example =
    walk-sort toy_library dump everything lower "secret" fleet (by "cluster_name" false 2)
      cluster_name (everything "") toy_library-IsLawful refl refl
      (
        (refl, (refl, (refl, (refl, tt)))),
        ((refl, (refl, (refl, tt))), ((refl, (refl, tt)), ((refl, tt), (tt, tt)))),
      )
      (tt, (tt, (tt, (tt, (tt, tt))))) (omega arith) 6 (omega arith)

is_past-is_after_example :
    is_past dump cluster_name true
      (position_of cluster_name (listed "c" (some 3) none))
      (listed "a" none (some "east"))
    ≡ is_after
        (listing_order dump cluster_name true)
        (listed "c" (some 3) none)
        (listed "a" none (some "east"))
is_past-is_after_example =
    is_past-is_after dump cluster_name true (position_of cluster_name (listed "c" (some 3) none))
      (listed "c" (some 3) none) (listed "a" none (some "east")) refl refl

abbrev unseen : List ListedServer
unseen = listed "e" none none ∷ listed "a" none none ∷ listed "d" none none ∷ []

refuses :
    (list_page toy_library dump everything lower "secret" fleet (by "colour" false 2) none
      ≡ raised unknown_sort_field)
    × (list_page toy_library dump everything lower "secret" fleet
          (record (by "name" false 2) { search = some "x" })
          none
        ≡ raised search_query_too_short)
unfolding list_page resolve_sort_field base_filter build_search_query
refuses = (refl, refl)
