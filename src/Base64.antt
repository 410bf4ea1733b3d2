-- ===== src/Base64.antt =====
-- URL-safe Base64 as the SDK uses it: src/trustplane_auth/signing.py `_decode_base64url`,
-- `_base64url_no_padding` and `_decode_canonical_base64url`, and src/trustplane_auth/keys.py
-- `_b64url`, with the standard library's `base64`.
pub mod RoundTrip
use trustplane_auth_sdk_pyth.Base.{
  ℕ, zero, suc, ◌+◌, ◌-◌, ◌*◌, ◌/◌, ◌%◌, Bool, true, false, not, ◌&&◌, ◌||◌, List, [], ◌∷◌, ◌++◌,
  Text, Bytes, ltb, between, all, length, ◌==◌, if◌then◌else◌, Result, ok, err, ◌>>=◌, ◌>>◌,
  raise_if,
}
use trustplane_auth_sdk_pyth.Text.{codes, text_eq, rstrip_by}

abbrev pub pad : ℕ
pad = b'='

-- The URL-safe alphabet.
unfoldable pub sextet_char : ℕ → ℕ
sextet_char v =
    if ltb v 26
    then 65 + v
    else if ltb v 52
    then 71 + v
    else if ltb v 62
    then v - 4
    else if v == 62
    then b'-'
    else b'_'

unfoldable pub sextet_value : ℕ → ℕ
sextet_value c =
    if between b'A' b'Z' c
    then c - 65
    else if between b'a' b'z' c
    then c - 71
    else if between b'0' b'9' c
    then c + 4
    else if c == b'-'
    then 62
    else 63

-- `[A-Za-z0-9_-]`.
unfoldable pub is_base64url : ℕ → Bool
is_base64url c =
    between b'A' b'Z' c || between b'a' b'z' c || between b'0' b'9' c || c == b'_' || c == b'-'

-- `base64.urlsafe_b64encode(value).decode("ascii")`.
unfoldable pub urlsafe_b64encode : Bytes → Text
unfolding sextet_char
urlsafe_b64encode [] = []
urlsafe_b64encode (a ∷ []) = sextet_char (a / 4) ∷ sextet_char (a % 4 * 16) ∷ pad ∷ pad ∷ []
urlsafe_b64encode (a ∷ b ∷ []) =
    sextet_char (a / 4) ∷ sextet_char (a % 4 * 16 + b / 16) ∷ sextet_char (b % 16 * 4) ∷ pad ∷ []
urlsafe_b64encode (a ∷ b ∷ c ∷ rest) =
    sextet_char (a / 4)
    ∷ sextet_char (a % 4 * 16 + b / 16)
    ∷ sextet_char (b % 16 * 4 + c / 64)
    ∷ sextet_char (c % 64)
    ∷ urlsafe_b64encode rest

-- `base64.urlsafe_b64decode(text)` of alphabet characters with padding at the end: spare low bits
-- are dropped, and a lone last character is refused.
unfoldable pub urlsafe_b64decode : Text → Result Text Bytes
unfolding sextet_value
urlsafe_b64decode [] = ok []
urlsafe_b64decode (p ∷ q ∷ r ∷ s ∷ rest) =
    let a = sextet_value p * 4 + sextet_value q / 16 in
    let b = sextet_value q % 16 * 16 + sextet_value r / 4 in
    let c = sextet_value r % 4 * 64 + sextet_value s in
    let last = urlsafe_b64decode rest in
    if q == pad
    then err (codes "invalid_base64url")
    else if r == pad
    then ok (a ∷ [])
    else if s == pad
    then ok (a ∷ b ∷ [])
    else last >>= λ bytes. ok (a ∷ b ∷ c ∷ bytes)
urlsafe_b64decode _ = err (codes "invalid_base64url")

is_pad : ℕ → Bool
is_pad c = c == pad

-- `_b64url` and `_base64url_no_padding`.
unfoldable pub b64url : Bytes → Text
unfolding urlsafe_b64encode is_pad
b64url value = rstrip_by is_pad (urlsafe_b64encode value)

unfoldable pub replicate : ℕ → ℕ → Text
replicate zero c = []
replicate (suc n) c = c ∷ replicate n c

-- `_decode_base64url`.
unfoldable pub decode_base64url : Text → Result Text Bytes
unfolding is_base64url urlsafe_b64decode replicate
decode_base64url value =
    if all is_base64url value
    then urlsafe_b64decode (value ++ replicate ((4 - length value % 4) % 4) pad)
    else err (codes "invalid_base64url")

-- The end of `_decode_canonical_base64url`: an error of the decoder is wrapped, and a value that is
-- not spelled as the encoder would is refused.
unfoldable pub canonical_of : Text → Text → Result Text Bytes → Result Text Bytes
canonical_of value name (err exc) = err (codes "invalid_" ++ name ++ codes ": " ++ exc)
canonical_of value name (ok decoded) =
    if not (text_eq (b64url decoded) value)
    then err (codes "non_canonical_" ++ name)
    else ok decoded

-- `_decode_canonical_base64url`.
unfoldable pub decode_canonical_base64url : Text → Text → Result Text Bytes
unfolding canonical_of
decode_canonical_base64url value name = canonical_of value name (decode_base64url value)
