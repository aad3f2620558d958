-- ===== src/Listing/NeverSeen.antt =====
-- What the epoch in the place of a missing `last_seen_at` does to a listing.
use server_scan.Prelude.{
  String, Time, Bool, true, false, if◌then◌else◌, none, List, [], All, All-map, filter, ◌≡◌, refl,
}
use server_scan.Prelude.Sort.Filter.{filter-keeps, filter-drops}
use server_scan.Listing.{ListedServer, last_seen_at}
use server_scan.Listing.Clause.{cursor_position_clause, is_past}
use server_scan.Listing.Page.{position_of}

abbrev pub IsNeverSeen : ListedServer → Type 0
IsNeverSeen s = s.last_seen_at ≡ none

never_seen_past :
    (dump_json : Time → String) (x y : ListedServer)
    → IsNeverSeen x
    → IsNeverSeen y
    → (is_past dump_json last_seen_at false (position_of last_seen_at x) y ≡ false)
      × (is_past dump_json last_seen_at true (position_of last_seen_at x) y ≡ true)
unfolding cursor_position_clause
never_seen_past dump_json x y h k = rw (h, k) (refl, refl)

-- The clause of a server that was never seen selects, ascending, no other such server, and,
-- descending, every one.
pub filter-never_seen :
    (dump_json : Time → String) (sort_desc : Bool) (x : ListedServer) (servers : List ListedServer)
    → IsNeverSeen x
    → All IsNeverSeen servers
    → filter (is_past dump_json last_seen_at sort_desc (position_of last_seen_at x)) servers
      ≡ (if sort_desc then servers else [])
filter-never_seen dump_json false x servers h k =
    filter-drops _ servers (All-map _ servers (λ y e. (never_seen_past dump_json x y h e).0) k)
filter-never_seen dump_json true x servers h k =
    filter-keeps _ servers (All-map _ servers (λ y e. (never_seen_past dump_json x y h e).1) k)
