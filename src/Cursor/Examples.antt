-- ===== src/Cursor/Examples.antt =====
-- Cursors of the toy library, in the request that they were made for and in others.
use server_scan.Prelude.{String, none, true, false, [], ◌∷◌, ◌≡◌, refl}
use server_scan.Prelude.Result.{returned, raised}
use server_scan.Cursor.Base64.{
  Text, b64encode, b64decode, urlsafe_b64encode, urlsafe_b64decode, a2b_base64, move, decode_digit,
  encode_digit,
}
use server_scan.Cursor.Laws.{IsSigned, decode_cursor-encode_cursor, decode_cursor-IsSigned}
use server_scan.Cursor.{
  text, CursorPosition, Binding, filter_mismatch, invalid_signature, malformed, encode_cursor,
  decode_cursor, read_payload, stable_hash, serialize_value, split_dot, compare_bytes,
  read_signature,
}
use server_scan.Cursor.Toy.{toy_library, toy_library-IsLawful, toy_dumps, write}

abbrev request : Binding String
request = record { filters = "cisco"; sort = "name"; sort_desc = false; page_size = 2 }

abbrev reversed : Binding String
reversed = record { filters = "cisco"; sort = "name"; sort_desc = true; page_size = 2 }

abbrev position : CursorPosition
position = record { sort_value = text "node-1"; id_value = "srv-1" }

-- "Man" and "Ma" are four and three characters.
encodes :
    b64encode (b'M' ∷ b'a' ∷ b'n' ∷ b'M' ∷ b'a' ∷ [])
    ≡ b'T' ∷ b'W' ∷ b'F' ∷ b'u' ∷ b'T' ∷ b'W' ∷ b'E' ∷ []
unfolding b64encode urlsafe_b64encode encode_digit
encodes = refl

-- A character outside the alphabet is skipped, and a lone one is an error.
decodes_loosely :
    (b64decode (b'T' ∷ b'!' ∷ b'W' ∷ b'E' ∷ []) ≡ none) × (b64decode (b'T' ∷ []) ≡ none)
unfolding b64decode urlsafe_b64decode a2b_base64 move decode_digit
decodes_loosely = (refl, refl)

decode_cursor-encode_cursor_example :
    decode_cursor toy_library
      (encode_cursor toy_library position request "secret")
      reversed
      "secret"
    ≡ raised filter_mismatch
unfolding stable_hash
decode_cursor-encode_cursor_example =
    decode_cursor-encode_cursor toy_library toy_library-IsLawful position request reversed "secret"

-- Without a dot there is no signature, and under another secret the signature is another.
rejects :
    (decode_cursor toy_library [] request "secret" ≡ raised malformed)
    × (decode_cursor toy_library
          (encode_cursor toy_library position request "secret")
          request
          "other"
        ≡ raised invalid_signature)
unfolding decode_cursor encode_cursor read_signature split_dot compare_bytes b64encode b64decode
    urlsafe_b64encode urlsafe_b64decode a2b_base64 move decode_digit encode_digit toy_dumps write
    stable_hash serialize_value
rejects = (refl, refl)

decode_cursor-IsSigned_example :
    (payload_b64 : Text) × IsSigned toy_library
      (encode_cursor toy_library position request "secret")
      "secret"
      payload_b64
    × (read_payload toy_library payload_b64 ≡ returned (position, stable_hash toy_library request))
unfolding stable_hash
decode_cursor-IsSigned_example =
    decode_cursor-IsSigned toy_library (encode_cursor toy_library position request "secret") request
      "secret" position
      (decode_cursor-encode_cursor toy_library toy_library-IsLawful position request request
        "secret")
