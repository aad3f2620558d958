-- ===== src/Listing.antt =====
-- domain/services/search.py: the fields that a listing sorts and searches by.
pub mod Clause
pub mod Page
pub mod Walk
pub mod NeverSeen
pub mod Examples
use server_scan.Prelude.{
  ℕ, String, Time, Bool, Option, none, some, get_or, List, any, starts, str_eq, str_length, ltb,
  if◌then◌else◌,
}
use server_scan.Prelude.Result.{Result, returned, raised}
use server_scan.Enums.{OpenShiftState, openshift_state_value}
use server_scan.Cursor.{SortValue, null, text, datetime, CursorError}

-- The fields of a server that a listing sorts and searches by.
pub record ListedServer : Type 0 where
  pub id : String
  pub name_normalized : String
  pub serial_normalized : String
  pub model_normalized : String
  pub updated_at : Time
  pub last_seen_at : Option Time
  pub lifecycle_state : OpenShiftState
  pub cluster_name : Option String
  pub mce_name : Option String
  pub search_tokens : List String

-- The keys that `SORT_FIELDS` and `SORT_ACCESSORS` share.
pub data SortKey : Type 0 where
  name serial model updated_at last_seen_at openshift_state cluster_name mce_name : SortKey

pub data PageError : Type 0 where
  unknown_sort_field search_query_too_short search_query_too_long : PageError
  cursor_error : CursorError → PageError

-- `resolve_sort_field`
unfoldable pub resolve_sort_field : String → Result PageError SortKey
resolve_sort_field sort =
    if str_eq sort "name"
    then returned name
    else if str_eq sort "serial"
    then returned serial
    else if str_eq sort "model"
    then returned model
    else if str_eq sort "updated_at"
    then returned updated_at
    else if str_eq sort "last_seen_at"
    then returned last_seen_at
    else if str_eq sort "openshift_state"
    then returned openshift_state
    else if str_eq sort "cluster_name"
    then returned cluster_name
    else if str_eq sort "mce_name"
    then returned mce_name
    else raised unknown_sort_field

abbrev pub text_or_null : Option String → SortValue
text_or_null none = null
text_or_null (some s) = text s

-- `_EPOCH`
abbrev pub epoch : Time
epoch = 0

-- `SORT_ACCESSORS`
abbrev pub sort_accessor : SortKey → ListedServer → SortValue
sort_accessor name s = text s.name_normalized
sort_accessor serial s = text s.serial_normalized
sort_accessor model s = text s.model_normalized
sort_accessor updated_at s = datetime s.updated_at
sort_accessor last_seen_at s = datetime (get_or s.last_seen_at epoch)
sort_accessor openshift_state s = text (openshift_state_value s.lifecycle_state)
sort_accessor cluster_name s = text_or_null s.cluster_name
sort_accessor mce_name s = text_or_null s.mce_name

-- `build_search_query`, with the test that its regular expression makes of a token
unfoldable pub build_search_query :
    (String → String) → String → Result PageError (List String → Bool)
build_search_query lower raw_query =
    if ltb (str_length raw_query) 2
    then raised search_query_too_short
    else if ltb 64 (str_length raw_query)
    then raised search_query_too_long
    else returned (any (starts (lower raw_query)))
