-- ===== src/Cursor.antt =====
-- domain/services/cursor.py: signed cursors, which bind a position to the request that it was issued
-- for. `json`, `hmac`, `hashlib` and the ISO format of a `datetime` are parameters; texts that a client
-- sends are lists of code points.
pub mod Base64
pub mod Laws
pub mod Toy
pub mod Examples
use server_scan.Prelude.{
  ℕ, String, Time, Bool, true, false, Option, none, some, List, [], ◌∷◌, ◌++◌, str_eq, str_take,
  ◌==◌, if◌then◌else◌,
}
use server_scan.Prelude.Result.{Result, returned, raised, ◌>>=◌, or_raise}
use server_scan.Cursor.Base64.{Text, Bytes, is_ascii, b64encode, b64decode}

-- `str | datetime | None`
pub data SortValue : Type 0 where
  null : SortValue
  text : String → SortValue
  datetime : Time → SortValue

pub record CursorPosition : Type 0 where
  pub sort_value : SortValue
  pub id_value : String

-- The request that a cursor is bound to.
pub record Binding (F : Type 0) : Type 0 where
  pub filters : F
  pub sort : String
  pub sort_desc : Bool
  pub page_size : ℕ

pub record Payload : Type 0 where
  pub v : String
  pub vt : String
  pub id : String
  pub fh : String

pub record CursorLibrary (F : Type 0) : Type 0 where
  pub isoformat : Time → String
  -- `none` is a `ValueError`
  pub fromisoformat : String → Option Time
  -- `json.dumps(payload, …).encode("utf-8")`
  pub dumps : Payload → Bytes
  -- `json.loads` and `str` of the four items; `none` is an exception that the caller catches
  pub loads : Bytes → Option Payload
  -- `hmac.new(secret.encode("utf-8"), message, hashlib.sha256).digest()`
  pub hmac_sha256 : String → Text → Bytes
  -- `hashlib.sha256(json.dumps(value, …).encode("utf-8")).hexdigest()`
  pub hexdigest : Binding F → String
  pub str_is_ascii : String → Bool

pub data CursorError : Type 0 where
  malformed invalid_signature malformed_payload filter_mismatch type_error : CursorError

-- `_serialize_value`: the text, and its type
unfoldable pub serialize_value : (Time → String) → SortValue → String × String
serialize_value isoformat null = ("", "null")
serialize_value isoformat (datetime t) = (isoformat t, "datetime")
serialize_value isoformat (text s) = (s, "str")

abbrev pub to_datetime : Option Time → Option SortValue
to_datetime none = none
to_datetime (some t) = some (datetime t)

-- `_deserialize_value`
unfoldable pub deserialize_value : (String → Option Time) → String → String → Option SortValue
deserialize_value fromisoformat value value_type =
    if str_eq value_type "null"
    then some null
    else if str_eq value_type "datetime"
    then to_datetime (fromisoformat value)
    else some (text value)

-- `cursor.split(".", 1)`; `none` where there is no dot to unpack at
abbrev pub before : ℕ → Option (Text × Text) → Option (Text × Text)
before c none = none
before c (some (s, t)) = some (c ∷ s, t)

unfoldable pub split_dot : Text → Option (Text × Text)
split_dot [] = none
split_dot (c ∷ cs) = let rest = split_dot cs in if c == b'.' then some ([], cs) else before c rest

-- `hmac.compare_digest` of bytes
unfoldable pub compare_bytes : Bytes → Bytes → Bool
compare_bytes [] [] = true
compare_bytes (x ∷ xs) (y ∷ ys) = if x == y then compare_bytes xs ys else false
compare_bytes _ _ = false

pub record Signed : Type 0 where
  pub payload_b64 : Text
  pub expected_signature : Bytes
  pub actual_signature : Bytes

module _ {F : Type 0} (lib : CursorLibrary F) where
  -- utils/digest.py
  unfoldable pub stable_hash : Binding F → String
  stable_hash value = str_take 16 (lib.hexdigest value)

  abbrev pub payload_of : CursorPosition → Binding F → Payload
  payload_of position request =
      let (value_repr, value_type) = serialize_value lib.isoformat position.sort_value in
      record { v = value_repr; vt = value_type; id = position.id_value; fh = stable_hash request }

  unfoldable pub encode_cursor : CursorPosition → Binding F → String → Text
  encode_cursor position request secret =
      let payload_b64 = b64encode (lib.dumps (payload_of position request)) in
      payload_b64 ++ b'.' ∷ b64encode (lib.hmac_sha256 secret payload_b64)

  -- The first `try`.
  abbrev pub signed_of : String → Text × Text → Result CursorError Signed
  signed_of secret (payload_b64, signature_b64) =
      let actual = or_raise malformed (b64decode signature_b64) in
      let signed = λ (bytes : Bytes). returned (record {
        payload_b64 = payload_b64;
        expected_signature = lib.hmac_sha256 secret payload_b64;
        actual_signature = bytes;
      }) in
      if is_ascii payload_b64 then actual >>= signed else raised malformed

  unfoldable pub read_signature : Text → String → Result CursorError Signed
  read_signature cursor secret = or_raise malformed (split_dot cursor) >>= signed_of secret

  abbrev pub check_signature : Signed → Result CursorError Text
  check_signature s =
      if compare_bytes s.expected_signature s.actual_signature
      then returned s.payload_b64
      else raised invalid_signature

  -- The second `try`, with the hash that the payload carries.
  abbrev pub position_of : Payload → Result CursorError (CursorPosition × String)
  position_of p =
      or_raise malformed_payload (deserialize_value lib.fromisoformat p.v p.vt) >>= λ value.
      returned (record { sort_value = value; id_value = p.id }, p.fh)

  unfoldable pub read_payload : Text → Result CursorError (CursorPosition × String)
  read_payload payload_b64 = or_raise malformed_payload (b64decode payload_b64) >>= λ bytes.
      or_raise malformed_payload (lib.loads bytes) >>= position_of

  -- `hmac.compare_digest` of texts raises a `TypeError` outside ASCII.
  unfoldable pub check_filters :
      Binding F → CursorPosition × String → Result CursorError CursorPosition
  check_filters request (position, filter_hash) =
      if lib.str_is_ascii filter_hash
      then if str_eq filter_hash (stable_hash request)
        then returned position
        else raised filter_mismatch
      else raised type_error

  unfoldable pub decode_cursor : Text → Binding F → String → Result CursorError CursorPosition
  decode_cursor cursor request secret =
      read_signature cursor secret >>= check_signature >>= read_payload >>= check_filters request
