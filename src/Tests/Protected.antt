-- ===== src/Tests/Protected.antt =====
-- The theorem on prepared requests at a concrete request.
use trustplane_auth_sdk_pyth.Base.{
  ℕ, ◌≡◌, refl, List, [], ◌∷◌, ◌++◌, map, Text, Bytes, Option, none, some, ok, if◌then◌else◌,
}
use trustplane_auth_sdk_pyth.Base.Int.{pos, ◌-ℤ◌, ◌+ℤ◌, floor_div}
use trustplane_auth_sdk_pyth.Query.{normalize_query_rfc3986}
use trustplane_auth_sdk_pyth.Base.Order.{sort}
use trustplane_auth_sdk_pyth.Text.{
  codes, text_eq, strip, mem_text, lstrip_by, split, join, has_char, starts_with_char,
  ends_with_char, partition, starts_with,
}
use trustplane_auth_sdk_pyth.Text.Compare.{text_le}
use trustplane_auth_sdk_pyth.Json.{end}
use trustplane_auth_sdk_pyth.Platform.{Platform, ParsedUrl, ascii_lower, ascii_upper}
use trustplane_auth_sdk_pyth.Base64.{
  replicate, b64url, decode_base64url, decode_canonical_base64url,
}
use trustplane_auth_sdk_pyth.Profile.{SigningProfile, validate_concrete_request_path, matches}
use trustplane_auth_sdk_pyth.Passport.{IssuedPassport, issued_passport, issue_passport}
use trustplane_auth_sdk_pyth.Transcript.Data.{
  bytes, Datetime, utc_datetime, TranscriptV1, header_nonce,
}
use trustplane_auth_sdk_pyth.Transcript.Build.{
  assemble, canonical_lines, build_request, build_transcript, validate_transcript,
}
use trustplane_auth_sdk_pyth.Transcript.Headers.{
  sha256_text, body_sha256, canonical_allow_list, select_headers,
}
use trustplane_auth_sdk_pyth.Signing.{
  SignedRequest, signed_headers, sign_request, load_private_key, parse_passport_binding,
  validate_passport_binding, validate_signing_consistency, coerce_signing_request,
}
use trustplane_auth_sdk_pyth.Protected.Target.{Target, resolve, has_reserved, hex_text}
use trustplane_auth_sdk_pyth.Protected.Client.{
  ProtectedClient, PreparedRequest, passport_options, protected_request, prepared_request, prepare,
  header_value,
}
use trustplane_auth_sdk_pyth.Protected.Sent.{IsPrepared}
use trustplane_auth_sdk_pyth.Protected.Prepared.{prepare-IsPrepared}
use trustplane_auth_sdk_pyth.Tests.{toy_crypto, toy_laws, toy_claims}

-- A path alone is a reference, and all else is on the site.
abbrev parse_url : Text → ParsedUrl
parse_url url = record {
  scheme = if starts_with_char b'/' url then [] else codes "https";
  netloc = if starts_with_char b'/' url then [] else codes "site";
  path = codes "/v1";
  params = [];
  query = [];
  fragment = [];
  username = none;
  password = none;
}

instance abbrev site_platform : Platform
site_platform = record {
  sha256_hex = λ b. replicate 64 b'0';
  lower = map ascii_lower;
  upper = map ascii_upper;
  urlparse = λ url. ok (parse_url url);
  urlunparse = λ scheme netloc path params query fragment. scheme ++ codes "://" ++ netloc ++ path;
  json_loads = λ b. ok toy_claims;
  json_dumps = λ v. codes "{}";
  json_loads_bytes = λ b. none;
  json_dumps_ascii = λ v. codes "{}";
  parse_int = λ s. none;
  parse_http_date = λ s. none;
}

abbrev site_profile : SigningProfile
site_profile = record {
  state = codes "active";
  reason = [];
  key_origin = [];
  request_base_url = codes "https://site";
  key_id = codes "k1";
  subject = codes "s";
  trust_domain = codes "t";
  issuer = codes "i";
  route_id = codes "r";
  canonical_route_id = [];
  route_match_type = codes "Exact";
  route_path = codes "/v1";
  method = codes "GET";
  audience = codes "api";
  control = end;
}

abbrev site_client : ProtectedClient
site_client = record {
  profile = site_profile;
  private_key = record { seed = replicate 32 7 };
  passport_ttl = pos 600_000_000;
}

abbrev at_forty : Datetime
at_forty = record { wall = pos 40_000_000; offset = some (pos 0) }

abbrev sixteen : ℕ → Bytes
sixteen n = replicate n 1

abbrev site_headers : Option (List (Text × Text))
site_headers = some ((codes "Accept", codes "x") ∷ [])

abbrev site_output : List (Text × Text)
site_output = (codes "Accept", codes "x") ∷ (header_nonce, hex_text (sixteen 16)) ∷ []

abbrev site_passport : IssuedPassport
site_passport =
    issued_passport (passport_options site_client at_forty sixteen) at_forty
      (record at_forty { wall = pos 640_000_000 })

abbrev site_target : Target
site_target = record { wire_path = codes "/v1"; url = parse_url (codes "https://site"); body = [] }

-- The transcript that is signed, with the values of the passport.
abbrev site_transcript : TranscriptV1
site_transcript =
    assemble
      (record (protected_request site_profile (codes "GET") site_target site_output
        (hex_text (sixteen 16))) {
          audience = codes "api";
          passport_jti = codes "j1";
          issued_at_unix = pos 40;
          key_binding = codes "software";
        })
      (pos 2) []

abbrev site_signed : SignedRequest
site_signed = record {
  transcript_sha256 = replicate 64 b'0';
  body_sha256 = replicate 64 b'0';
  headers =
      signed_headers site_passport.token (hex_text (sixteen 16))
        (record {
          transcript_sha256 = replicate 64 b'0';
          body_sha256 = replicate 64 b'0';
          canonical_lines = [];
        })
        (b64url (42 ∷ []));
  canonical_lines = canonical_lines site_transcript;
  key_id = codes "k1";
  signer_class = codes "software";
}

abbrev site_prepared : PreparedRequest
site_prepared = prepared_request (codes "GET") site_target site_output site_passport site_signed

prepares :
    prepare site_client at_forty sixteen sixteen (codes "get") (codes "/v1") (bytes []) site_headers
    ≡ ok site_prepared
unfolding prepare codes text_eq strip mem_text lstrip_by split join has_char starts_with_char
    ends_with_char partition starts_with sort text_le replicate b64url decode_base64url
    decode_canonical_base64url validate_concrete_request_path matches issue_passport sha256_text
    body_sha256 sign_request resolve has_reserved hex_text utc_datetime ◌-ℤ◌ ◌+ℤ◌ floor_div
    load_private_key parse_passport_binding validate_passport_binding validate_signing_consistency
    coerce_signing_request build_request build_transcript normalize_query_rfc3986
    validate_transcript header_value canonical_allow_list select_headers
prepares = refl

prepare-IsPrepared_example :
    IsPrepared site_client at_forty sixteen sixteen
      (codes "get")
      (codes "/v1")
      (bytes [])
      site_headers
      site_prepared
prepare-IsPrepared_example =
    prepare-IsPrepared toy_laws site_client at_forty sixteen sixteen (codes "get") (codes "/v1")
      (bytes []) site_headers site_prepared prepares
