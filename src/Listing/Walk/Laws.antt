-- ===== src/Listing/Walk/Laws.antt =====
-- The listing that a client gets by following the cursors: what one page holds, what its cursor leads
-- to, and all pages together.
use server_scan.Prelude.{
  ℕ, suc, zero, ◌<◌, ◌≤◌, String, Time, Bool, true, false, ◌&&◌, Bool-cases, inl, inr, Option, none,
  some, List, [], ◌∷◌, ◌++◌, filter, length, take, ltb, ◌≡◌, ◌≢◌, refl, sym, ap, ◌∙◌, All, arith,
  if◌then◌else◌,
}
use mathlib.Core.List.{append_assoc}
use server_scan.Prelude.Order.{Order}
use server_scan.Prelude.Result.{returned}
use server_scan.Prelude.Sort.{sort}
use server_scan.Prelude.Sort.Laws.{length-sort}
use server_scan.Prelude.Sort.Filter.{filter-ext}
use server_scan.Cursor.Base64.{Text}
use server_scan.Cursor.{CursorPosition, CursorLibrary, encode_cursor, decode_cursor}
use server_scan.Cursor.Laws.{IsLawful, decode_cursor_same}
use server_scan.Listing.{ListedServer, SortKey, resolve_sort_field, last_seen_at}
use server_scan.Listing.NeverSeen.{IsNeverSeen}
use server_scan.Listing.Clause.{is_past, listing_order}
use server_scan.Listing.Walk.Lists.{
  Cut, cut, take_of_longer, take-all, length_of_longer, append-cons_ne_nil,
}
use server_scan.Listing.Page.{Query, base_filter, cursor_filter, position_of, page_of, list_page}
use server_scan.Listing.Walk.{HasDistinctIds, IsSeen, continue, follow, walk}
use server_scan.Listing.Walk.Past.{listing-past}

module _ {F : Type 0} (lib : CursorLibrary F) (dump_json : Time → String)
    (matches : F → ListedServer → Bool) (lower : String → String) (cursor_secret : String)
    (servers : List ListedServer) (query : Query F) where
  module _ (key : SortKey) (base : ListedServer → Bool) (lawful : IsLawful lib)
      (resolved : resolve_sort_field query.binding.sort ≡ returned key)
      (searched : base_filter lib dump_json matches lower cursor_secret query.binding.filters
          query.search
        ≡ returned base) where
    abbrev order : Order ListedServer
    order = listing_order dump_json key query.binding.sort_desc

    abbrev listing : List ListedServer
    listing = sort order (filter base servers)

    unfoldable total_count : Option ℕ
    total_count = if query.with_count then some (length (filter base servers)) else none

    abbrev Serves : Option Text → List ListedServer → Type 0
    Serves cursor rest =
        list_page lib dump_json matches lower cursor_secret servers query cursor
        ≡ returned (
            page_of lib dump_json matches lower cursor_secret key query total_count
              (take (suc query.binding.page_size) rest))

    abbrev cursor_of : ListedServer → Text
    cursor_of s = encode_cursor lib (position_of key s) query.binding cursor_secret

    Serves-first : Serves none listing
    unfolding list_page total_count cursor_filter
    Serves-first =
        rw (resolved, searched, filter-ext (λ s. base s && true) base servers (λ s. ground arith))
          refl

    cursor_filter-decoded :
        (cursor : Text) (p : CursorPosition)
        → cursor ≢ []
        → decode_cursor lib cursor query.binding cursor_secret ≡ returned p
        → cursor_filter lib dump_json matches lower cursor_secret key query (some cursor)
          ≡ returned (is_past dump_json key query.binding.sort_desc p)
    unfolding cursor_filter
    cursor_filter-decoded [] p ne h = absurd (ne refl)
    cursor_filter-decoded (c ∷ cs) p ne h = rw h refl

    cursor_of_ne_nil : (s : ListedServer) → cursor_of s ≢ []
    unfolding encode_cursor
    cursor_of_ne_nil s = append-cons_ne_nil _ _ _

    -- The cursor of a server serves what its clause leaves of the collection.
    Serves-cursor :
        (s : ListedServer) (rest : List ListedServer)
        → sort order (
            filter
              (λ t. base t && is_past dump_json key query.binding.sort_desc (position_of key s) t)
              servers)
          ≡ rest
        → Serves (some (cursor_of s)) rest
    unfolding list_page total_count
    Serves-cursor s rest e =
        let decoded =
          decode_cursor_same lib lawful (position_of key s) query.binding query.binding
            cursor_secret in
        rw
          (
            resolved,
            searched,
            cursor_filter-decoded (cursor_of s) (position_of key s) (cursor_of_ne_nil s) decoded,
            e,
          )
          refl

    page_of-final :
        (rest : List ListedServer)
        → ltb query.binding.page_size (length rest) ≡ false
        → page_of lib dump_json matches lower cursor_secret key query total_count
            (take (suc query.binding.page_size) rest)
          ≡ record { items = rest; next_cursor = none; has_more = false; total_count = total_count }
    unfolding page_of
    page_of-final rest h =
        let short : length rest ≤ query.binding.page_size = ground arith in
        rw
          (
            length_of_longer query.binding.page_size rest,
            h,
            take_of_longer query.binding.page_size rest,
            take-all query.binding.page_size rest short,
          )
          refl

    page_of-more :
        (rest : List ListedServer) (c : Cut query.binding.page_size rest)
        → ltb query.binding.page_size (length rest) ≡ true
        → page_of lib dump_json matches lower cursor_secret key query total_count
            (take (suc query.binding.page_size) rest)
          ≡ record {
            items = c.init ++ c.final ∷ [];
            next_cursor = some (cursor_of c.final);
            has_more = true;
            total_count = total_count;
          }
    unfolding page_of
    page_of-more rest c h =
        rw
          (
            length_of_longer query.binding.page_size rest,
            h,
            take_of_longer query.binding.page_size rest,
            c.ends,
            c.page,
          )
          refl

    module _ (distinct : HasDistinctIds servers) (seen : All (IsSeen key) servers)
        (positive : 1 ≤ query.binding.page_size) where
      Serves-next :
          (pre : List ListedServer) (s : ListedServer) (rest : List ListedServer)
          → listing ≡ pre ++ s ∷ rest
          → Serves (some (cursor_of s)) rest
      Serves-next pre s rest e = Serves-cursor s rest (
          listing-past dump_json key query.binding.sort_desc servers base distinct seen pre s rest
            e)

      walk-rest :
          (fuel : ℕ) (cursor : Option Text) (pre rest : List ListedServer)
          → length rest < fuel
          → Serves cursor rest
          → listing ≡ pre ++ rest
          → walk lib dump_json matches lower cursor_secret servers query fuel cursor ≡ some rest
      unfolding walk
      walk-rest zero cursor pre rest h serves e = absurd (omega arith)
      walk-rest (suc fuel) cursor pre rest h serves e =
          elim (Bool-cases (ltb query.binding.page_size (length rest))) [
            | inr final ↦
                ap
                  (follow (λ next.
                    walk lib dump_json matches lower cursor_secret servers query fuel (some next)))
                  (serves ∙ ap returned (page_of-final rest final))
            | inl more ↦
                let enough : query.binding.page_size ≤ length rest = ground arith in
                let c = cut query.binding.page_size rest positive enough in
                let behind : listing ≡ (pre ++ c.init) ++ c.final ∷ c.rest =
                  e ∙ ap (◌++◌ pre) c.whole ∙ sym (append_assoc pre c.init (c.final ∷ c.rest)) in
                let go_on =
                  walk-rest fuel (some (cursor_of c.final)) ((pre ++ c.init) ++ c.final ∷ []) c.rest
                    (omega (arith, c.shorter)) (Serves-next (pre ++ c.init) c.final c.rest behind)
                    (behind ∙ sym (append_assoc (pre ++ c.init) (c.final ∷ []) c.rest)) in
                ap
                  (follow (λ next.
                    walk lib dump_json matches lower cursor_secret servers query fuel (some next)))
                  (serves ∙ ap returned (page_of-more rest c more))
                ∙ ap (continue (c.init ++ c.final ∷ [])) go_on
                ∙ ap some (append_assoc c.init (c.final ∷ []) c.rest ∙ sym c.whole)
          ]

      -- For a query with a known sort and a valid search, where the codecs of a cursor read back what they
      -- write, no two servers have one id, a page has room for a server and, in a sort by `last_seen_at`,
      -- every server has been seen, a client that follows the cursors from the first page for more pages
      -- than there are servers reaches the last one, and has then listed each server that matches the
      -- query, once and in the order of the sort.
      pub walk-sort :
          (fuel : ℕ)
          → length (filter base servers) < fuel
          → walk lib dump_json matches lower cursor_secret servers query fuel none
            ≡ some
                (sort (listing_order dump_json key query.binding.sort_desc) (filter base servers))
      walk-sort fuel h =
          walk-rest fuel none [] listing (rw (length-sort order (filter base servers)) h)
            Serves-first refl

    module _ (by_last_seen : key ≡ last_seen_at) (unseen : All IsNeverSeen (filter base servers))
        (positive : 1 ≤ query.binding.page_size)
        (longer : query.binding.page_size < length (filter base servers)) where
      -- How a walk of at most `fuel` pages, or two more, ends: ascending with its first page, descending
      -- without having come to an end.
      abbrev pub IsLost : Bool → ℕ → Type 0
      IsLost false fuel =
          walk lib dump_json matches lower cursor_secret servers query (suc (suc fuel)) none
          ≡ some (take query.binding.page_size listing)
      IsLost true fuel =
          walk lib dump_json matches lower cursor_secret servers query fuel none ≡ none
