-- ===== src/Listing/Walk.antt =====
-- A client of `list_page` that follows the cursors.
pub mod Lists
pub mod Past
pub mod Laws
use server_scan.Prelude.{
  ℕ, suc, zero, ◌<◌, ◌≤◌, String, Time, Bool, true, false, ◌&&◌, Bool-cases, inl, inr, Option, none,
  some, List, [], ◌∷◌, ◌++◌, filter, length, take, ltb, str_eq, eq_iff, ◌≡◌, ◌≢◌, refl, sym, ap,
  subst, ◌∙◌, All, All-at, All-filter, arith, if◌then◌else◌,
}
use mathlib.Core.List.{Memᴰ, Permᴰ, append_assoc}
use mathlib.Core.List.Permᴰ
use server_scan.Prelude.Order.{Order, on, str_order}
use server_scan.Prelude.Result.{Result, returned, raised}
use server_scan.Prelude.Sort.{sort, IsSorted}
use server_scan.Prelude.Sort.Laws.{sort-IsSorted, sort-All, sort-perm, length-sort}
use server_scan.Prelude.Sort.Unique.{
  Apart, HasDistinctKeys, HasDistinctKeys-filter, HasDistinctKeys-perm, HasDistinctKeys-refine,
}
use server_scan.Prelude.Sort.Filter.{
  filter-and, filter-ext, filter-sort, filter-after, is_after, Memᴰ-middle,
}
use server_scan.Cursor.Base64.{Text}
use server_scan.Cursor.{CursorPosition, CursorLibrary, encode_cursor, decode_cursor}
use server_scan.Cursor.Laws.{IsLawful, decode_cursor_same}
use server_scan.Listing.{
  ListedServer, SortKey, name, serial, model, updated_at, openshift_state, cluster_name, mce_name,
  last_seen_at, PageError, resolve_sort_field, sort_accessor,
}
use server_scan.Listing.Clause.{stored_field, stored_form, is_past, listing_order, find}
use server_scan.Listing.Clause.Laws.{is_past-is_after}
use server_scan.Listing.Walk.Lists.{
  Cut, cut, take_of_longer, take-all, length_of_longer, append-cons_ne_nil,
}
use server_scan.Listing.Page.{
  Page, Query, last, base_filter, cursor_filter, position_of, page_of, list_page,
}

-- Ids are the primary key of the collection.
abbrev pub HasDistinctIds : List ListedServer → Type 0
HasDistinctIds servers = HasDistinctKeys (on (λ s. s.id) str_order) servers

-- A sort by `last_seen_at` has a value to resume from.
abbrev pub IsSeen : SortKey → ListedServer → Type 0
IsSeen last_seen_at s = (t : Time) × (s.last_seen_at ≡ some t)
IsSeen key s = Unit

abbrev pub continue : List ListedServer → Option (List ListedServer) → Option (List ListedServer)
continue items none = none
continue items (some rest) = some (items ++ rest)

abbrev pub follow_cursor :
    (Text → Option (List ListedServer))
    → List ListedServer
    → Option Text
    → Option (List ListedServer)
follow_cursor next items none = some items
follow_cursor next items (some cursor) = continue items (next cursor)

abbrev pub follow :
    (Text → Option (List ListedServer)) → Result PageError Page → Option (List ListedServer)
follow next (raised e) = none
follow next (returned page) = follow_cursor next page.items page.next_cursor

module _ {F : Type 0} (lib : CursorLibrary F) (dump_json : Time → String)
    (matches : F → ListedServer → Bool) (lower : String → String) (cursor_secret : String)
    (servers : List ListedServer) (query : Query F) where
  -- A client that follows the cursors for at most `fuel` pages; `none` where it gets an error, or no end.
  unfoldable pub walk : ℕ → Option Text → Option (List ListedServer)
  walk zero cursor = none
  walk (suc fuel) cursor =
      follow (λ next. walk fuel (some next))
        (list_page lib dump_json matches lower cursor_secret servers query cursor)
