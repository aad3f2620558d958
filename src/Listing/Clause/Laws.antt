-- ===== src/Listing/Clause/Laws.antt =====
-- The clause of a position selects what the sort puts strictly behind it, nulls included.
use server_scan.Prelude.{
  String, Time, Bool, true, false, not, Option, none, some, any, ◌≡◌, refl, eq_iff, str_leb,
  str_leb_total, str_leb_antisymm, arith,
}
use server_scan.Prelude.Order.{lex_le}
use server_scan.Prelude.Sort.Filter.{is_after}
use server_scan.Cursor.{CursorPosition}
use server_scan.Listing.{ListedServer, SortKey}
use server_scan.Listing.Clause.{
  leg_matches, cursor_position_clause, value_leb, stored_field, stored_form, is_past, listing_order,
}

clause_ascending :
    (v w : Option String) (i j : String)
    → any (leg_matches v i) (cursor_position_clause false w j)
      ≡ not (lex_le (value_leb v w) (value_leb w v) (str_leb i j))
unfolding cursor_position_clause
clause_ascending none none i j = ground arith
clause_ascending none (some t) i j = refl
clause_ascending (some s) none i j = refl
clause_ascending (some s) (some t) i j =
    ground (arith, eq_iff s t, str_leb_total s t, str_leb_antisymm s t)

clause_descending :
    (v w : Option String) (i j : String)
    → any (leg_matches v i) (cursor_position_clause true w j)
      ≡ not (lex_le (value_leb w v) (value_leb v w) (str_leb j i))
unfolding cursor_position_clause
clause_descending none none i j = ground arith
clause_descending none (some t) i j = refl
clause_descending (some s) none i j = refl
clause_descending (some s) (some t) i j =
    ground (arith, eq_iff s t, str_leb_total s t, str_leb_antisymm s t)

-- In either direction and for every sort field, the clause made of a server's stored sort value and
-- id selects exactly the servers that the listing puts strictly behind that server.
pub is_past-is_after :
    (dump_json : Time → String) (key : SortKey) (sort_desc : Bool) (position : CursorPosition)
    (x y : ListedServer)
    → position.id_value ≡ x.id
    → stored_form dump_json position.sort_value ≡ stored_field dump_json key x
    → is_past dump_json key sort_desc position y
      ≡ is_after (listing_order dump_json key sort_desc) x y
is_past-is_after dump_json key false position x y e f =
    rw (e, f)
      (clause_ascending (stored_field dump_json key y) (stored_field dump_json key x) y.id x.id)
is_past-is_after dump_json key true position x y e f =
    rw (e, f)
      (clause_descending (stored_field dump_json key y) (stored_field dump_json key x) y.id x.id)
