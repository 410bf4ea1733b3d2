-- ===== src/Profile.antt =====
-- src/trustplane_auth/profile.py: the signing profile that the control plane hands out, and the
-- request paths that may be signed.
pub mod Concrete
pub mod Paths
pub mod Matching
use trustplane_auth_sdk_pyth.Base.{
  ℕ, Bool, true, false, not, ◌&&◌, ◌||◌, Option, none, some, List, [], ◌∷◌, ◌++◌, Text, any, length,
  ◌==◌, if◌then◌else◌, Result, ok, err, ◌>>=◌, ◌>>◌, raise_if,
}
use trustplane_auth_sdk_pyth.Text.{
  codes, text_eq, is_empty, mem_text, strip, lstrip_by, rstrip_by, split, has_char, starts_with,
  starts_with_char, ends_with_char,
}
use trustplane_auth_sdk_pyth.Json.{Fields, get, text_of}
use trustplane_auth_sdk_pyth.Platform.{Platform, ParsedUrl}
use trustplane_auth_sdk_pyth.Transcript.Build.{or_else}

pub record SigningProfile : Type 0 where
  pub state : Text
  pub reason : Text
  pub key_origin : Text
  pub request_base_url : Text
  pub key_id : Text
  pub subject : Text
  pub trust_domain : Text
  pub issuer : Text
  pub route_id : Text
  pub canonical_route_id : Text
  pub route_match_type : Text
  pub route_path : Text
  pub method : Text
  pub audience : Text
  pub control : Fields

abbrev pub slash : ℕ
slash = b'/'

-- `"//" in s`.
unfoldable pub has_double_slash : Text → Bool
has_double_slash [] = false
has_double_slash (c ∷ s) = c == slash && starts_with_char slash s || has_double_slash s

-- `path.removeprefix("/")`.
unfoldable pub without_slash : Text → Text
without_slash [] = []
without_slash (c ∷ s) = if c == slash then s else c ∷ s

-- The test on a segment.
unfoldable pub is_unsafe_segment : Text → Bool
unfolding text_eq codes has_char
is_unsafe_segment segment =
    text_eq segment (codes ".")
    || text_eq segment (codes "..")
    || has_char b'{' segment
    || has_char b'}' segment

-- `validate_concrete_request_path(path, raw)`; a caller without a raw path passes the path twice.
unfoldable pub validate_concrete_request_path : Text → Text → Result Text (Unit {0})
unfolding has_double_slash without_slash is_unsafe_segment
validate_concrete_request_path path raw = do
  raise_if (not (starts_with_char slash path) || not (starts_with_char slash raw))
      (codes "unsafe_request_path")
  raise_if
      (not (text_eq path (codes "/")) && (ends_with_char slash path || ends_with_char slash raw))
      (codes "unsafe_request_path")
  raise_if
      (has_double_slash path
        || has_double_slash raw
        || has_char b'\\' path
        || has_char b'\\' raw
        || has_char b'%' raw)
      (codes "unsafe_request_path")
  raise_if (any is_unsafe_segment (split slash (without_slash path))) (codes "unsafe_request_path")
  raise_if (any is_unsafe_segment (split slash (without_slash raw))) (codes "unsafe_request_path")

is_slash : ℕ → Bool
is_slash c = c == slash

-- `s.strip("/")` and `s.rstrip("/")`.
unfoldable pub strip_slashes : Text → Text
unfolding is_slash
strip_slashes s = rstrip_by is_slash (lstrip_by is_slash s)

unfoldable pub rstrip_slashes : Text → Text
unfolding is_slash
rstrip_slashes s = rstrip_by is_slash s

-- A segment of the template against one of the path.
unfoldable pub segment_matches : Text → Text → Bool
segment_matches expected_part actual_part =
    if starts_with_char b'{' expected_part && ends_with_char b'}' expected_part
    then not (is_empty actual_part)
    else text_eq expected_part actual_part

-- `len(expected) == len(actual) and all(...)` over the zipped segments.
unfoldable pub segments_match : List Text → List Text → Bool
unfolding segment_matches
segments_match [] [] = true
segments_match [] (actual_part ∷ actual) = false
segments_match (expected_part ∷ expected) [] = false
segments_match (expected_part ∷ expected) (actual_part ∷ actual) =
    segment_matches expected_part actual_part && segments_match expected actual

-- The match of a path, once the method fits.
unfoldable pub path_matches : Text → Text → Text → Bool
unfolding rstrip_slashes strip_slashes segments_match
path_matches route_match_type template path =
    if text_eq route_match_type (codes "PathPrefix")
    then if text_eq template (codes "/")
      then starts_with_char slash path
      else text_eq path (rstrip_slashes template)
        || starts_with (rstrip_slashes template ++ slash ∷ []) path
    else if not (has_char b'{' template)
    then text_eq path template
    else segments_match (split slash (strip_slashes template)) (split slash (strip_slashes path))

-- The dictionary `required` of `validate_active`.
abbrev pub profile_required : SigningProfile → List (Text × Text)
profile_required s =
    (codes "request_base_url", s.request_base_url)
    ∷ (codes "kid", s.key_id)
    ∷ (codes "subject", s.subject)
    ∷ (codes "trust_domain", s.trust_domain)
    ∷ (codes "issuer", s.issuer)
    ∷ (codes "route_id", s.route_id)
    ∷ (codes "route_path", s.route_path)
    ∷ (codes "method", s.method)
    ∷ (codes "audience", s.audience)
    ∷ []

unfoldable pub check_profile : List (Text × Text) → Result Text (Unit {0})
check_profile [] = ok tt
check_profile ((name, value) ∷ rest) = do
  raise_if (is_empty value) (codes "signing_profile_missing_" ++ name)
  check_profile rest

abbrev pub is_present : Option Text → Bool
is_present none = false
is_present (some s) = true

-- The test on the parsed base URL.
unfoldable pub is_bad_base : ParsedUrl → Bool
is_bad_base base =
    not (text_eq base.scheme (codes "http") || text_eq base.scheme (codes "https"))
    || is_empty base.netloc
    || is_present base.username
    || is_present base.password
    || not (is_empty base.query)
    || not (is_empty base.fragment)

module _ ⦃p : Platform⦄ where
  open p use {upper, urlparse}

  -- `SigningProfile.matches`.
  unfoldable pub matches : SigningProfile → Text → Text → Bool
  unfolding path_matches
  matches s method path =
      if text_eq (upper (strip method)) s.method
      then path_matches s.route_match_type (strip s.route_path) path
      else false

  -- `SigningProfile.validate_active`.
  unfoldable pub validate_active : SigningProfile → Result Text (Unit {0})
  unfolding check_profile is_bad_base
  validate_active s = do
    raise_if (not (text_eq s.state (codes "active"))) (
        codes "signing_profile_unavailable"
        ++ (if is_empty s.reason then [] else codes ": " ++ s.reason))
    check_profile (profile_required s)
    raise_if (not (is_empty s.canonical_route_id) && not (text_eq s.canonical_route_id s.route_id))
        (codes "signing_profile_route_id_mismatch")
    raise_if
        (not (
          text_eq s.route_match_type (codes "Exact")
          || text_eq s.route_match_type (codes "PathPrefix")))
        (codes "signing_profile_invalid_route_match_type")
    base ← urlparse s.request_base_url
    raise_if (is_bad_base base) (codes "signing_profile_invalid_request_base_url")

  -- `SigningProfile.from_control`, before its last check.
  unfoldable pub read_control : Fields → SigningProfile
  read_control raw = record {
    state = text_of (get (codes "state") raw);
    reason = text_of (get (codes "reason") raw);
    key_origin = text_of (get (codes "key_origin") raw);
    request_base_url =
        or_else (text_of (get (codes "request_base_url") raw))
          (text_of (get (codes "auth_site_url") raw));
    key_id = text_of (get (codes "kid") raw);
    subject = text_of (get (codes "subject") raw);
    trust_domain = text_of (get (codes "trust_domain") raw);
    issuer = text_of (get (codes "issuer") raw);
    route_id = text_of (get (codes "route_id") raw);
    canonical_route_id = text_of (get (codes "canonical_route_id") raw);
    route_match_type = text_of (get (codes "route_match_type") raw);
    route_path = text_of (get (codes "route_path") raw);
    method = upper (text_of (get (codes "method") raw));
    audience = text_of (get (codes "audience") raw);
    control = raw;
  }

  -- `SigningProfile.from_control`.
  unfoldable pub from_control : Fields → Result Text SigningProfile
  unfolding read_control validate_active
  from_control raw = do validate_active (read_control raw); ok (read_control raw)
