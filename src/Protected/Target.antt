-- ===== src/Protected/Target.antt =====
-- The target of a request: `prepare` up to the test of the body.
use trustplane_auth_sdk_pyth.Base.{
  ℕ, ◌+◌, ◌/◌, ◌-◌, ◌%◌, Bool, not, ◌&&◌, ◌||◌, List, [], ◌∷◌, ◌++◌, Text, Bytes, any, ltb,
  if◌then◌else◌, Result, ok, ◌>>=◌, ◌>>◌, raise_if,
}
use trustplane_auth_sdk_pyth.Text.{codes, is_empty, mem_text, starts_with_char, partition}
use trustplane_auth_sdk_pyth.Platform.{Platform, ParsedUrl}
use trustplane_auth_sdk_pyth.Profile.{SigningProfile, validate_concrete_request_path, matches}
use trustplane_auth_sdk_pyth.Transcript.Data.{
  Body, body_bytes, header_authorization, header_proof, header_transcript_sha256, header_nonce,
  header_body_sha256,
}
use trustplane_auth_sdk_pyth.Transcript.Build.{or_else}

-- `bytes.hex()`
unfoldable pub hex_lower : ℕ → ℕ
hex_lower n = if ltb n 10 then b'0' + n else b'a' + (n - 10)

unfoldable pub hex_text : Bytes → Text
unfolding hex_lower
hex_text [] = []
hex_text (byte ∷ bytes) = hex_lower (byte / 16) ∷ hex_lower (byte % 16) ∷ hex_text bytes

-- What is asked for: the path and query, or the route's path, which a query alone is put behind.
unfoldable pub raw_target_of : SigningProfile → Text → Text
unfolding starts_with_char
raw_target_of profile path_and_query =
    let raw_target = or_else path_and_query profile.route_path in
    if starts_with_char b'?' raw_target then profile.route_path ++ raw_target else raw_target

-- The path with its parameters.
unfoldable pub wire_path_of : ParsedUrl → Text
wire_path_of reference =
    reference.path ++ (if is_empty reference.params then [] else b';' ∷ reference.params)

-- `raw_target.split("?", 1)[0].split("#", 1)[0]`
unfoldable pub raw_path_of : Text → Text
unfolding partition
raw_path_of raw_target = (partition b'#' (partition b'?' raw_target).0).0

-- The path that is sent, the target, and the bytes of the body.
pub record Target : Type 0 where
  pub wire_path : Text
  pub url : ParsedUrl
  pub body : Bytes

module _ ⦃p : Platform⦄ where
  open p use {lower, urlparse, urlunparse}

  abbrev pub reserved_headers : List Text
  reserved_headers =
      lower header_authorization
      ∷ lower header_body_sha256
      ∷ lower header_nonce
      ∷ lower header_proof
      ∷ lower header_transcript_sha256
      ∷ []

  -- `any(name.lower() in _RESERVED_HEADERS for name in output_headers)`
  unfoldable pub has_reserved : List (Text × Text) → Bool
  unfolding mem_text
  has_reserved headers = any (λ entry. mem_text (lower entry.0) reserved_headers) headers

  -- `urlparse` of the base, the path and the query.
  unfoldable pub target_url : ParsedUrl → Text → Text → Result Text ParsedUrl
  target_url base wire_path query =
      urlparse (urlunparse base.scheme base.netloc wire_path [] query [])

  unfoldable pub resolve : SigningProfile → Text → Text → Body → Result Text Target
  unfolding raw_target_of wire_path_of raw_path_of validate_concrete_request_path matches target_url
      body_bytes
  resolve profile method path_and_query body = do
    base ← urlparse profile.request_base_url
    let raw_target = raw_target_of profile path_and_query
    reference ← urlparse raw_target
    raise_if
        (not (is_empty reference.scheme)
          || not (is_empty reference.netloc)
          || not (is_empty reference.fragment))
        (codes "invalid_request_path")
    let wire_path = wire_path_of reference
    validate_concrete_request_path wire_path (raw_path_of raw_target)
    url ← target_url base wire_path reference.query
    raise_if (not (matches profile method wire_path)) (codes "request_outside_signing_profile")
    raise_if (mem_text method (codes "GET" ∷ codes "HEAD" ∷ []) && not (is_empty (body_bytes body)))
        (codes "request_body_not_allowed_for_method")
    ok (record { wire_path = wire_path; url = url; body = body_bytes body })
