-- ===== src/Listing/Clause.antt =====
-- `_cursor_position_clause` and the queries of infrastructure/mongodb/server_repository.py. The
-- collection answers as MongoDB documents it: a range test matches values of its own type only, and
-- null sorts before every text.
pub mod Laws
use server_scan.Prelude.{
  ℕ, String, Time, Bool, true, false, not, ◌&&◌, Option, none, some, List, [], ◌∷◌, filter, any,
  take, str_eq, str_leb, str_leb_total, str_leb_trans, ◌≡◌, refl, ◌⊎◌, inl, inr,
}
use server_scan.Prelude.Order.{Order, on, desc, then_by, str_order}
use server_scan.Prelude.Sort.{sort}
use server_scan.Enums.{openshift_state_value}
use server_scan.Cursor.{SortValue, null, text, datetime, CursorPosition}
use server_scan.Listing.{
  ListedServer, SortKey, name, serial, model, updated_at, last_seen_at, openshift_state,
  cluster_name, mce_name,
}

pub data Op : Type 0 where
  gt lt : Op

-- The legs of the `$or` that selects the documents past a position.
pub data Leg : Type 0 where
  beyond : Op → String → Leg
  is_null is_not_null : Leg
  tie : Option String → Op → String → Leg

abbrev pub str_ltb : String → String → Bool
str_ltb s t = not (str_leb t s)

abbrev pub is_beyond : Op → String → String → Bool
is_beyond gt v s = str_ltb v s
is_beyond lt v s = str_ltb s v

abbrev pub same_value : Option String → Option String → Bool
same_value none none = true
same_value (some s) (some t) = str_eq s t
same_value _ _ = false

-- Whether a document of this value and id matches.
abbrev pub leg_matches : Option String → String → Leg → Bool
leg_matches none id (beyond op v) = false
leg_matches (some s) id (beyond op v) = is_beyond op v s
leg_matches none id is_null = true
leg_matches (some s) id is_null = false
leg_matches none id is_not_null = false
leg_matches (some s) id is_not_null = true
leg_matches value id (tie v op i) = same_value value v && is_beyond op i id

-- `_cursor_position_clause`, where `sort_desc` is the direction `-1`
unfoldable pub cursor_position_clause : Bool → Option String → String → List Leg
cursor_position_clause false none id = is_not_null ∷ tie none gt id ∷ []
cursor_position_clause true none id = tie none lt id ∷ []
cursor_position_clause false (some v) id = beyond gt v ∷ tie (some v) gt id ∷ []
cursor_position_clause true (some v) id = beyond lt v ∷ is_null ∷ tie (some v) lt id ∷ []

-- Null before every text.
abbrev pub value_leb : Option String → Option String → Bool
value_leb none _ = true
value_leb (some s) none = false
value_leb (some s) (some t) = str_leb s t

pub value_leb_total : (v w : Option String) → (value_leb v w ≡ true) ⊎ (value_leb w v ≡ true)
value_leb_total none w = inl refl
value_leb_total (some s) none = inr refl
value_leb_total (some s) (some t) = str_leb_total s t

pub value_leb_trans :
    (u v w : Option String) → value_leb u v ≡ true → value_leb v w ≡ true → value_leb u w ≡ true
value_leb_trans none v w h k = refl
value_leb_trans (some s) none w h k = cc h
value_leb_trans (some s) (some t) none h k = cc k
value_leb_trans (some s) (some t) (some u) h k = str_leb_trans s t u h k

abbrev pub value_order : Order (Option String)
value_order = record { le = value_leb; total = value_leb_total; trans = value_leb_trans }

module _ (dump_json : Time → String) where
  abbrev pub dump_optional : Option Time → Option String
  dump_optional none = none
  dump_optional (some t) = some (dump_json t)

  -- The sort field of the document, where `resolve_sort_field` finds it.
  abbrev pub stored_field : SortKey → ListedServer → Option String
  stored_field name s = some s.name_normalized
  stored_field serial s = some s.serial_normalized
  stored_field model s = some s.model_normalized
  stored_field updated_at s = some (dump_json s.updated_at)
  stored_field last_seen_at s = dump_optional s.last_seen_at
  stored_field openshift_state s = some (openshift_state_value s.lifecycle_state)
  stored_field cluster_name s = s.cluster_name
  stored_field mce_name s = s.mce_name

  -- `_stored_form`
  abbrev pub stored_form : SortValue → Option String
  stored_form null = none
  stored_form (text s) = some s
  stored_form (datetime t) = some (dump_json t)

  -- Whether a document is selected by the clause of a position.
  abbrev pub is_past : SortKey → Bool → CursorPosition → ListedServer → Bool
  is_past key sort_desc position s =
      any (leg_matches (stored_field key s) s.id)
        (cursor_position_clause sort_desc (stored_form position.sort_value) position.id_value)

  -- `.sort([(sort_field, direction), ("_id", direction)])`
  abbrev pub ascending : SortKey → Order ListedServer
  ascending key = then_by (on (stored_field key) value_order) (on (λ s. s.id) str_order)

  abbrev pub listing_order : SortKey → Bool → Order ListedServer
  listing_order key false = ascending key
  listing_order key true = desc (ascending key)

  -- `find(query_filter).sort(…).limit(limit)`
  abbrev pub find :
      SortKey → Bool → (ListedServer → Bool) → ℕ → List ListedServer → List ListedServer
  find key sort_desc selects limit servers =
      take limit (sort (listing_order key sort_desc) (filter selects servers))
