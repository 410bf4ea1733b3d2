-- ===== src/Query/Percent.antt =====
-- src/trustplane_auth/transcript.py, `_encode_rfc3986` and `_strict_unquote`, with the standard
-- library's `unquote`.
use trustplane_auth_sdk_pyth.Base.{
  ℕ, ◌+◌, ◌-◌, ◌*◌, ◌/◌, ◌%◌, Bool, true, false, not, ◌&&◌, ◌||◌, List, [], ◌∷◌, ◌++◌, Text, Bytes,
  ltb, between, ◌==◌, if◌then◌else◌, Result, ok, err, all,
}
use trustplane_auth_sdk_pyth.Text.{codes}
use trustplane_auth_sdk_pyth.Text.Utf8.{encode, Pending, idle, feed, flush}

abbrev pub percent : ℕ
percent = b'%'

unfoldable pub is_unreserved : ℕ → Bool
is_unreserved byte =
    between 0x41 0x5A byte
    || between 0x61 0x7A byte
    || between 0x30 0x39 byte
    || byte == 0x2D
    || byte == 0x2E
    || byte == 0x5F
    || byte == 0x7E

-- A digit of `%02X`.
unfoldable pub hex_upper : ℕ → ℕ
hex_upper n = if ltb n 10 then b'0' + n else b'A' + (n - 10)

unfoldable pub encode_byte : ℕ → Text
unfolding is_unreserved
encode_byte byte =
    if is_unreserved byte
    then byte ∷ []
    else percent ∷ hex_upper (byte / 16) ∷ hex_upper (byte % 16) ∷ []

unfoldable pub encode_bytes : Bytes → Text
unfolding encode_byte
encode_bytes [] = []
encode_bytes (byte ∷ bytes) = encode_byte byte ++ encode_bytes bytes

-- `str.encode("utf-8")` takes every character but a surrogate.
unfoldable pub is_encodable : ℕ → Bool
is_encodable c = not (between 0xD800 0xDFFF c)

-- The text of the `UnicodeEncodeError`, less the character and its position.
abbrev pub surrogates : Text
surrogates = codes "surrogates not allowed"

-- The loop over the bytes.
unfoldable pub percent_encoded : Text → Text
unfolding encode_bytes
percent_encoded value = encode_bytes (encode value)

unfoldable pub encode_rfc3986 : Text → Result Text Text
unfolding is_encodable percent_encoded codes
encode_rfc3986 value = if all is_encodable value then ok (percent_encoded value) else err surrogates

-- `char in "0123456789ABCDEFabcdef"`.
unfoldable pub is_hex : ℕ → Bool
is_hex c = between b'0' b'9' c || between b'A' b'F' c || between b'a' b'f' c

unfoldable pub hex_value : ℕ → ℕ
hex_value c = if between b'0' b'9' c then c - 48 else if between b'A' b'F' c then c - 55 else c - 87

-- The scan of `_strict_unquote`: each `%` has two hex digits behind it.
unfoldable pub well_escaped : Text → Bool
unfolding is_hex
well_escaped [] = true
well_escaped (c ∷ []) = not (c == percent)
well_escaped (c ∷ h ∷ []) = let next = well_escaped (h ∷ []) in if c == percent then false else next
well_escaped (c ∷ h ∷ l ∷ rest) =
    let next = well_escaped (h ∷ l ∷ rest) in
    let after = well_escaped rest in if c == percent then is_hex h && is_hex l && after else next

-- `unquote` reads a text as escaped bytes and other characters.
pub data Piece : Type 0 where
  byte : ℕ → Piece
  char : ℕ → Piece

unfoldable pub pieces : Text → List Piece
unfolding is_hex hex_value
pieces [] = []
pieces (c ∷ []) = char c ∷ []
pieces (c ∷ h ∷ []) = char c ∷ pieces (h ∷ [])
pieces (c ∷ h ∷ l ∷ rest) =
    let next = char c ∷ pieces (h ∷ l ∷ rest) in
    let escaped = byte (hex_value h * 16 + hex_value l) ∷ pieces rest in
    if c == percent && is_hex h && is_hex l then escaped else next

-- A run of bytes and ASCII characters is decoded as UTF-8, with U+FFFD for what is ill-formed; any
-- other character ends the run and stays.
unfoldable pub decode_pieces : Pending → List Piece → Text
unfolding feed flush
decode_pieces p [] = flush p
decode_pieces p (byte b ∷ rest) = let (out, p') = feed p b in out ++ decode_pieces p' rest
decode_pieces p (char c ∷ rest) =
    let (out, p') = feed p c in
    let ascii = out ++ decode_pieces p' rest in
    let other = flush p ++ c ∷ decode_pieces idle rest in if ltb c 0x80 then ascii else other

unfoldable pub unquote : Text → Text
unfolding pieces decode_pieces
unquote value = decode_pieces idle (pieces value)

unfoldable pub strict_unquote : Text → Result Text Text
unfolding well_escaped unquote codes
strict_unquote value =
    if well_escaped value then ok (unquote value) else err (codes "invalid_query_percent_encoding")
