-- ===== src/Listing/Walk/Past.antt =====
-- What is left of the collection behind a listed server.
use server_scan.Prelude.{
  String, Time, Bool, true, false, ◌&&◌, List, ◌∷◌, ◌++◌, filter, ◌≡◌, refl, sym, ap, subst, ◌∙◌,
  All, All-at, All-filter, arith,
}
use mathlib.Core.List.{Memᴰ}
use mathlib.Core.List.Permᴰ
use server_scan.Prelude.Order.{Order, on, str_order}
use server_scan.Prelude.Sort.{sort, IsSorted}
use server_scan.Prelude.Sort.Laws.{sort-IsSorted, sort-All, sort-perm}
use server_scan.Prelude.Sort.Unique.{
  Apart, HasDistinctKeys, HasDistinctKeys-filter, HasDistinctKeys-perm, HasDistinctKeys-refine,
}
use server_scan.Prelude.Sort.Filter.{
  filter-and, filter-ext, filter-sort, filter-after, is_after, Memᴰ-middle,
}
use server_scan.Listing.{
  ListedServer, SortKey, name, serial, model, updated_at, openshift_state, cluster_name, mce_name,
  last_seen_at, sort_accessor,
}
use server_scan.Listing.Clause.{stored_field, stored_form, is_past, listing_order}
use server_scan.Listing.Clause.Laws.{is_past-is_after}
use server_scan.Listing.Page.{position_of}
use server_scan.Listing.Walk.{HasDistinctIds, IsSeen}

stored_form-sort_accessor :
    (dump_json : Time → String) (key : SortKey) (s : ListedServer)
    → IsSeen key s
    → stored_form dump_json (sort_accessor key s) ≡ stored_field dump_json key s
stored_form-sort_accessor dump_json name s h = refl
stored_form-sort_accessor dump_json serial s h = refl
stored_form-sort_accessor dump_json model s h = refl
stored_form-sort_accessor dump_json updated_at s h = refl
stored_form-sort_accessor dump_json last_seen_at s (t, e) = rw e refl
stored_form-sort_accessor dump_json openshift_state s h = refl
stored_form-sort_accessor dump_json cluster_name s h = ground arith
stored_form-sort_accessor dump_json mce_name s h = ground arith

Apart-listing_order :
    (dump_json : Time → String) (key : SortKey) (sort_desc : Bool) (x y : ListedServer)
    → Apart (on (λ s. s.id) str_order) x y
    → Apart (listing_order dump_json key sort_desc) x y
Apart-listing_order dump_json key false x y h = ground arith
Apart-listing_order dump_json key true x y h = ground arith

module _ (dump_json : Time → String) (key : SortKey) (sort_desc : Bool)
    (servers : List ListedServer) (base : ListedServer → Bool) (distinct : HasDistinctIds servers)
    (seen : All (IsSeen key) servers) where
  abbrev order : Order ListedServer
  order = listing_order dump_json key sort_desc

  abbrev pub listing : List ListedServer
  listing = sort order (filter base servers)

  listing-HasDistinctKeys : HasDistinctKeys order listing
  listing-HasDistinctKeys =
      let few = HasDistinctKeys-filter (on (λ s. s.id) str_order) base servers distinct in
      HasDistinctKeys-perm order (Permᴰ.symm (sort-perm order (filter base servers))) (
        HasDistinctKeys-refine (on (λ s. s.id) str_order) order (filter base servers)
          (Apart-listing_order dump_json key sort_desc) few)

  listing-IsSeen : All (IsSeen key) listing
  listing-IsSeen =
      sort-All order (IsSeen key) (filter base servers) (All-filter (IsSeen key) base servers seen)

  -- What the clause of a listed server leaves of the collection is the listing behind that server.
  pub listing-past :
      (pre : List ListedServer) (s : ListedServer) (rest : List ListedServer)
      → listing ≡ pre ++ s ∷ rest
      → sort order
          (filter (λ t. base t && is_past dump_json key sort_desc (position_of key s) t) servers)
        ≡ rest
  listing-past pre s rest e =
      let past = is_past dump_json key sort_desc (position_of key s) in
      let s_seen : IsSeen key s =
        All-at (IsSeen key) (subst (Memᴰ s) (sym e) (Memᴰ-middle s pre rest)) listing-IsSeen in
      let same = stored_form-sort_accessor dump_json key s s_seen in
      ap (sort order) (filter-and base past servers)
      ∙ sym (filter-sort order past (filter base servers))
      ∙ filter-ext past (is_after order s) listing
          (λ t. is_past-is_after dump_json key sort_desc (position_of key s) s t refl same)
      ∙ ap (filter (is_after order s)) e
      ∙ filter-after order s pre rest
          (subst (IsSorted order) e (sort-IsSorted order (filter base servers)))
          (subst (HasDistinctKeys order) e listing-HasDistinctKeys)
