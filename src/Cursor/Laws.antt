-- ===== src/Cursor/Laws.antt =====
-- A cursor comes back as the position it was made of, in the request it was made for and no other,
-- and only a signed text is a cursor.
use server_scan.Prelude.{
  String, Time, true, Bool-cases, ==_iff, none, some, Option-cases, inl, inr, [], ◌∷◌, ◌++◌, str_eq,
  eq_iff, str_take, ◌==◌, ◌≡◌, refl, sym, subst, ◌∙◌, ap, All, arith, if◌then◌else◌,
}
use server_scan.Prelude.Result.{returned, raised, ◌>>=◌, bind-returned}
use server_scan.Cursor.Base64.{Text, Bytes, is_ascii, b64encode, b64decode}
use server_scan.Cursor.Base64.Laws.{AreBytes, IsPlain, b64encode-IsPlain, b64decode-b64encode}
use server_scan.Cursor.{
  SortValue, null, text, datetime, CursorPosition, Binding, Payload, CursorLibrary, malformed,
  invalid_signature, filter_mismatch, serialize_value, deserialize_value, split_dot, compare_bytes,
  stable_hash, payload_of, encode_cursor, signed_of, read_signature, check_signature, read_payload,
  check_filters, decode_cursor,
}

-- What the cursors rely on: texts and datetimes are read back as they were written, `encode` and
-- `digest` give bytes, and a hexadecimal digest is ASCII.
pub record IsLawful {F : Type 0} (lib : CursorLibrary F) : Type 0 where
  pub reads_datetime : (t : Time) → lib.fromisoformat (lib.isoformat t) ≡ some t
  pub reads_json : (p : Payload) → lib.loads (lib.dumps p) ≡ some p
  pub dumps_bytes : (p : Payload) → AreBytes (lib.dumps p)
  pub digest_bytes : (secret : String) (message : Text) → AreBytes (lib.hmac_sha256 secret message)
  pub hex_ascii : (b : Binding F) → lib.str_is_ascii (str_take 16 (lib.hexdigest b)) ≡ true

split_dot-append : (s t : Text) → All IsPlain s → split_dot (s ++ b'.' ∷ t) ≡ some (s, t)
unfolding split_dot
split_dot-append [] t h = refl
split_dot-append (c ∷ s) t ((_, p, _), h) = rw (p, split_dot-append s t h) refl

is_ascii-IsPlain : (s : Text) → All IsPlain s → is_ascii s ≡ true
is_ascii-IsPlain [] h = refl
is_ascii-IsPlain (c ∷ s) ((_, _, p), h) = rw (p, is_ascii-IsPlain s h) refl

compare_bytes_refl : (xs : Bytes) → compare_bytes xs xs ≡ true
unfolding compare_bytes
compare_bytes_refl [] = refl
compare_bytes_refl (x ∷ xs) = ground (arith, compare_bytes_refl xs)

compare_bytes-eq : (xs ys : Bytes) → compare_bytes xs ys ≡ true → xs ≡ ys
unfolding compare_bytes
compare_bytes-eq [] [] h = refl
compare_bytes-eq [] (y ∷ ys) h = cc
compare_bytes-eq (x ∷ xs) [] h = cc
compare_bytes-eq (x ∷ xs) (y ∷ ys) h = ground (arith, compare_bytes-eq xs ys)

split_dot-eq : (cursor s t : Text) → split_dot cursor ≡ some (s, t) → cursor ≡ s ++ b'.' ∷ t
unfolding split_dot
split_dot-eq [] s t h = cc
split_dot-eq (c ∷ cs) s t h = elim (Bool-cases (c == b'.')) [
  | inl dot ↦
      let e : some ([], cs) ≡ some (s, t) = rw dot at h in
      let c_eq = (==_iff c b'.').0 dot in cc (e, c_eq)
  | inr other ↦ elim (Option-cases (split_dot cs)) [
    | inl none_left ↦ let e : none ≡ some (s, t) = rw (other, none_left) at h in cc e
    | inr ((u, v), found) ↦
        let e : some (c ∷ u, v) ≡ some (s, t) = rw (other, found) at h in
        cc (e, split_dot-eq cs u v found)
  ]
]

module _ {F : Type 0} (lib : CursorLibrary F) (lawful : IsLawful lib) where
  deserialize_value-serialize_value :
      (value : SortValue)
      → let (repr, kind) = serialize_value lib.isoformat value in
        deserialize_value lib.fromisoformat repr kind ≡ some value
  unfolding serialize_value deserialize_value
  deserialize_value-serialize_value null = refl
  deserialize_value-serialize_value (text s) = refl
  deserialize_value-serialize_value (datetime t) = rw (lawful.reads_datetime t) refl

  module _ (position : CursorPosition) (request request' : Binding F) (secret : String) where
    payload_b64 : Text
    payload_b64 = b64encode (lib.dumps (payload_of lib position request))

    payload_b64-IsPlain : All IsPlain payload_b64
    unfolding payload_b64
    payload_b64-IsPlain = b64encode-IsPlain _ (lawful.dumps_bytes _)

    read_signature-encode_cursor :
        read_signature lib (encode_cursor lib position request secret) secret
          >>= check_signature lib
        ≡ returned payload_b64
    unfolding payload_b64 read_signature encode_cursor
    read_signature-encode_cursor =
        rw
          (
            split_dot-append payload_b64 (b64encode (lib.hmac_sha256 secret payload_b64))
                payload_b64-IsPlain,
            is_ascii-IsPlain payload_b64 payload_b64-IsPlain,
            b64decode-b64encode (lib.hmac_sha256 secret payload_b64) (lawful.digest_bytes _ _),
            compare_bytes_refl (lib.hmac_sha256 secret payload_b64),
          )
          refl

    read_payload-payload_b64 :
        read_payload lib payload_b64 ≡ returned (position, stable_hash lib request)
    unfolding payload_b64 read_payload
    read_payload-payload_b64 =
        rw
          (
            b64decode-b64encode (lib.dumps (payload_of lib position request))
                (lawful.dumps_bytes _),
            lawful.reads_json (payload_of lib position request),
            deserialize_value-serialize_value position.sort_value,
          )
          refl

    -- A cursor that was issued for one request gives its position back in every request of the same
    -- digest, and a mismatch in every other.
    pub decode_cursor-encode_cursor :
        decode_cursor lib (encode_cursor lib position request secret) request' secret ≡ (
          if str_eq (stable_hash lib request) (stable_hash lib request')
          then returned position
          else raised filter_mismatch)
    unfolding decode_cursor check_filters stable_hash
    decode_cursor-encode_cursor =
        rw (read_signature-encode_cursor, read_payload-payload_b64, lawful.hex_ascii request) refl

    pub decode_cursor_same :
        decode_cursor lib (encode_cursor lib position request secret) request secret
        ≡ returned position
    unfolding decode_cursor check_filters stable_hash
    decode_cursor_same =
        rw
          (
            read_signature-encode_cursor,
            read_payload-payload_b64,
            lawful.hex_ascii request,
            (eq_iff (stable_hash lib request) (stable_hash lib request)).1 refl,
          )
          refl

module _ {F : Type 0} (lib : CursorLibrary F) where
  -- The text has two parts, and the second decodes to the signature of the first.
  pub record IsSigned (cursor : Text) (secret : String) (payload_b64 : Text) : Type 0 where
    pub signature_b64 : Text
    pub parts : cursor ≡ payload_b64 ++ b'.' ∷ signature_b64
    pub signature : b64decode signature_b64 ≡ some (lib.hmac_sha256 secret payload_b64)

  signed_of-IsSigned :
      (cursor payload_b64 signature_b64 : Text) (secret : String) (message : Text)
      → cursor ≡ payload_b64 ++ b'.' ∷ signature_b64
      → signed_of lib secret (payload_b64, signature_b64) >>= check_signature lib ≡ returned message
      → IsSigned cursor secret message
  signed_of-IsSigned cursor p q secret message parts h = elim (Bool-cases (is_ascii p)) [
    | inr foreign ↦ let e : raised malformed ≡ returned message = rw foreign at h in cc e
    | inl plain ↦ elim (Option-cases (b64decode q)) [
      | inl bad ↦ let e : raised malformed ≡ returned message = rw (plain, bad) at h in cc e
      | inr (actual, good) ↦ elim (Bool-cases (compare_bytes (lib.hmac_sha256 secret p) actual)) [
        | inr differs ↦
            let e : raised invalid_signature ≡ returned message = rw (plain, good, differs) at h in
            cc e
        | inl same ↦
            let e : returned p ≡ returned message = rw (plain, good, same) at h in
            let eq = compare_bytes-eq (lib.hmac_sha256 secret p) actual same in
            subst (IsSigned cursor secret) (cc e)
              (record { signature_b64 = q; parts = parts; signature = good ∙ ap some (sym eq) })
      ]
    ]
  ]

  read_signature-IsSigned :
      (cursor : Text) (secret : String) (message : Text)
      → read_signature lib cursor secret >>= check_signature lib ≡ returned message
      → IsSigned cursor secret message
  unfolding read_signature
  read_signature-IsSigned cursor secret message h = elim (Option-cases (split_dot cursor)) [
    | inl whole ↦ let e : raised malformed ≡ returned message = rw whole at h in cc e
    | inr ((p, q), halves) ↦
        let e : signed_of lib secret (p, q) >>= check_signature lib ≡ returned message =
          rw halves at h in
        signed_of-IsSigned cursor p q secret message (split_dot-eq cursor p q halves) e
  ]

  check_filters-returned :
      (request : Binding F) (found position : CursorPosition) (filter_hash : String)
      → check_filters lib request (found, filter_hash) ≡ returned position
      → (found ≡ position) × (filter_hash ≡ stable_hash lib request)
  unfolding check_filters
  check_filters-returned request found position filter_hash h =
      ground (arith, eq_iff filter_hash (stable_hash lib request))

  -- A cursor is accepted only if it carries the signature of its payload under the server's secret, and
  -- then gives the position that the payload holds, which is bound to this very request.
  pub decode_cursor-IsSigned :
      (cursor : Text) (request : Binding F) (secret : String) (position : CursorPosition)
      → decode_cursor lib cursor request secret ≡ returned position
      → (payload_b64 : Text) × IsSigned cursor secret payload_b64
        × (read_payload lib payload_b64 ≡ returned (position, stable_hash lib request))
  unfolding decode_cursor
  decode_cursor-IsSigned cursor request secret position h =
      let signed = read_signature lib cursor secret >>= check_signature lib in
      let ((found, filter_hash), payload, checked) =
        bind-returned (signed >>= read_payload lib) (check_filters lib request) h in
      let (payload_b64, verified, opened) = bind-returned signed (read_payload lib) payload in
      let (same, bound) = check_filters-returned request found position filter_hash checked in
      (
        payload_b64,
        read_signature-IsSigned cursor secret payload_b64 verified,
        opened ∙ ap returned (cc (same, bound)),
      )
