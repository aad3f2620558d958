-- ===== src/Listing/Page.antt =====
-- `list_page` of infrastructure/mongodb/server_repository.py.
use server_scan.Prelude.{
  ℕ, suc, String, Time, Bool, true, ◌&&◌, Option, none, some, List, [], ◌∷◌, filter, length, take,
  str_eq, ltb, if◌then◌else◌,
}
use server_scan.Prelude.Result.{Result, returned, raised, ◌>>=◌}
use server_scan.Cursor.Base64.{Text}
use server_scan.Cursor.{
  CursorPosition, Binding, CursorLibrary, CursorError, encode_cursor, decode_cursor,
}
use server_scan.Listing.{
  ListedServer, SortKey, PageError, cursor_error, resolve_sort_field, sort_accessor,
  build_search_query,
}
use server_scan.Listing.Clause.{is_past, find}

pub record Page : Type 0 where
  pub items : List ListedServer
  pub next_cursor : Option Text
  pub has_more : Bool
  pub total_count : Option ℕ

-- The arguments of `list_page`; those that a cursor is bound to are a `Binding`.
pub record Query (F : Type 0) : Type 0 where
  pub binding : Binding F
  pub search : Option String
  pub with_count : Bool

abbrev pub last : List ListedServer → Option ListedServer
last [] = none
last (s ∷ []) = some s
last (s ∷ t ∷ ss) = last (t ∷ ss)

abbrev pub on_cursor {ℓ} : {A : Type ℓ} → Result CursorError A → Result PageError A
on_cursor (returned a) = returned a
on_cursor (raised e) = raised (cursor_error e)

abbrev pub position_of : SortKey → ListedServer → CursorPosition
position_of key s = record { sort_value = sort_accessor key s; id_value = s.id }

module _ {F : Type 0} (lib : CursorLibrary F) (dump_json : Time → String)
    (matches : F → ListedServer → Bool) (lower : String → String) (cursor_secret : String) where
  -- `base_filter`; an empty search is none
  unfoldable pub base_filter : F → Option String → Result PageError (ListedServer → Bool)
  base_filter filters none = returned (matches filters)
  base_filter filters (some raw) =
      let searched = build_search_query lower raw >>= λ finds.
      returned (λ s. matches filters s && finds s.search_tokens) in
      if str_eq raw "" then returned (matches filters) else searched

  -- The clause of the cursor; an empty cursor is none
  unfoldable pub cursor_filter :
      SortKey → Query F → Option Text → Result PageError (ListedServer → Bool)
  cursor_filter key query none = returned (λ s. true)
  cursor_filter key query (some []) = returned (λ s. true)
  cursor_filter key query (some (c ∷ cs)) =
      on_cursor (decode_cursor lib (c ∷ cs) query.binding cursor_secret) >>= λ position.
      returned (is_past dump_json key query.binding.sort_desc position)

  abbrev pub cursor_after : SortKey → Query F → Option ListedServer → Option Text
  cursor_after key query none = none
  cursor_after key query (some s) =
      some (encode_cursor lib (position_of key s) query.binding cursor_secret)

  -- The page of what the query returned, which is one document longer where there is more.
  unfoldable pub page_of : SortKey → Query F → Option ℕ → List ListedServer → Page
  page_of key query total_count raw_docs =
      let page_size = query.binding.page_size in
      let has_more = ltb page_size (length raw_docs) in
      let items = take page_size raw_docs in
      record {
        items = items;
        next_cursor = if has_more then cursor_after key query (last items) else none;
        has_more = has_more;
        total_count = total_count;
      }

  unfoldable pub list_page : List ListedServer → Query F → Option Text → Result PageError Page
  list_page servers query cursor =
      let binding = query.binding in
      resolve_sort_field binding.sort >>= λ key.
      base_filter binding.filters query.search >>= λ base.
      cursor_filter key query cursor >>= λ past. returned (
        page_of key query (if query.with_count then some (length (filter base servers)) else none) (
          find dump_json key binding.sort_desc (λ s. base s && past s) (suc binding.page_size)
            servers))
