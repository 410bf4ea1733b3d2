-- ===== src/Transcript/Build.antt =====
-- src/trustplane_auth/transcript.py: `_build_transcript`, `_validate_transcript`, `_canonical_lines`
-- and `build_request`.
use trustplane_auth_sdk_pyth.Base.{
  zero, suc, not, none, some, List, [], ◌∷◌, ◌++◌, map, Text, length, ◌==◌, if◌then◌else◌, Result,
  ok, err, ◌>>=◌, ◌>>◌, raise_if,
}
use trustplane_auth_sdk_pyth.Base.Int.{ℤ, pos, negsuc, int_eq, floor_div}
use trustplane_auth_sdk_pyth.Text.{codes, is_empty, strip, join, decimal}
use trustplane_auth_sdk_pyth.Platform.{Platform}
use trustplane_auth_sdk_pyth.Query.{normalize_query_rfc3986}
use trustplane_auth_sdk_pyth.Transcript.Data.{
  RequestInput, RequestMaterial, SelectedHeader, TranscriptV1, transcript_v1_version,
  query_normalization_rfc3986, transcript_v1_covered_fields, utc_datetime, int_timestamp,
}
use trustplane_auth_sdk_pyth.Transcript.Headers.{
  sha256_text, body_sha256, canonical_allow_list, select_headers,
}

-- Python's `a or b` of texts.
abbrev pub or_else : Text → Text → Text
or_else [] b = b
or_else (c ∷ a) b = c ∷ a

-- `name.replace('.', '_')`.
unfoldable pub underscored : Text → Text
underscored [] = []
underscored (c ∷ s) = (if c == b'.' then b'_' else c) ∷ underscored s

-- The issue time: `issued_at_unix`, or `issued_at` where that is 0.
unfoldable pub issue_time : RequestInput → ℤ
unfolding utc_datetime int_timestamp
issue_time input = elim input.issued_at [
  | none ↦ input.issued_at_unix
  | some value ↦
      if int_eq input.issued_at_unix (pos 0)
      then int_timestamp (utc_datetime value)
      else input.issued_at_unix
]

-- `0 if bucket_seconds == 0 else issued_at // bucket_seconds`; a negative bucket is refused.
unfoldable pub time_bucket : ℤ → ℤ → Result Text ℤ
unfolding floor_div codes
time_bucket (pos zero) issued_at = ok (pos 0)
time_bucket (pos (suc k)) issued_at = ok (floor_div issued_at (suc k))
time_bucket (negsuc k) issued_at = err (codes "invalid_time_bucket_seconds")

-- The query of the request, less one leading `?`.
unfoldable pub query_of : Text → Text
query_of [] = []
query_of (c ∷ s) = if c == b'?' then s else c ∷ s

-- The dictionary `required` of `_validate_transcript`.
abbrev pub required : TranscriptV1 → List (Text × Text)
required t =
    (codes "method", t.method)
    ∷ (codes "scheme", t.scheme)
    ∷ (codes "authority", t.authority)
    ∷ (codes "path", t.path)
    ∷ (codes "audience", t.audience)
    ∷ (codes "route_id", t.route_id)
    ∷ (codes "content_encoding", t.content_encoding)
    ∷ (codes "query_normalization.algorithm", t.query_normalization.algorithm)
    ∷ (codes "query_normalization.sha256", t.query_normalization.sha256)
    ∷ (codes "query_sha256", t.query_sha256)
    ∷ (codes "body_sha256", t.body_sha256)
    ∷ (codes "passport_jti", t.passport_jti)
    ∷ (codes "nonce", t.nonce)
    ∷ (codes "key_binding", t.key_binding)
    ∷ []

unfoldable pub check_required : List (Text × Text) → Result Text (Unit {0})
unfolding underscored
check_required [] = ok tt
check_required ((name, value) ∷ rest) = do
  raise_if (is_empty value) (codes "missing_" ++ underscored name)
  check_required rest

-- `_validate_transcript`.
unfoldable pub validate_transcript : TranscriptV1 → Result Text (Unit {0})
unfolding check_required
validate_transcript t = do
  check_required (required t)
  raise_if (int_eq t.issued_at (pos 0)) (codes "missing_issued_at")
  raise_if (not (length t.headers.allow_list == length t.headers.selected))
      (codes "missing_selected_headers")

-- `_selected_header_line`.
abbrev pub selected_entry : SelectedHeader → Text
selected_entry h = h.name ++ b':' ∷ h.value_sha256

unfoldable pub selected_header_line : List SelectedHeader → Text
unfolding join
selected_header_line headers = join (b',' ∷ []) (map selected_entry headers)

-- `str(n)`.
unfoldable pub int_text : ℤ → Text
unfolding decimal
int_text (pos n) = decimal n
int_text (negsuc n) = b'-' ∷ decimal (suc n)

-- `_canonical_lines`.
unfoldable pub canonical_lines : TranscriptV1 → List Text
unfolding selected_header_line int_text
canonical_lines t =
    (codes "version=" ++ transcript_v1_version)
    ∷ (codes "method=" ++ t.method)
    ∷ (codes "scheme=" ++ t.scheme)
    ∷ (codes "authority=" ++ t.authority)
    ∷ (codes "path=" ++ t.path)
    ∷ (codes "audience=" ++ t.audience)
    ∷ (codes "route_id=" ++ t.route_id)
    ∷ (codes "content_encoding=" ++ t.content_encoding)
    ∷ (codes "query_normalization.algorithm=" ++ t.query_normalization.algorithm)
    ∷ (codes "query_normalization.normalized=" ++ t.query_normalization.normalized)
    ∷ (codes "query_normalization.sha256=" ++ t.query_normalization.sha256)
    ∷ (codes "query_sha256=" ++ t.query_sha256)
    ∷ (codes "headers.allow_list=" ++ join (b',' ∷ []) t.headers.allow_list)
    ∷ (codes "headers.selected=" ++ selected_header_line t.headers.selected)
    ∷ (codes "body_sha256=" ++ t.body_sha256)
    ∷ (codes "passport_jti=" ++ t.passport_jti)
    ∷ (codes "nonce=" ++ t.nonce)
    ∷ (codes "issued_at=" ++ int_text t.issued_at)
    ∷ (codes "time_bucket=" ++ int_text t.time_bucket)
    ∷ (codes "key_binding=" ++ t.key_binding)
    ∷ []

-- The text whose digest the client signs.
abbrev pub canonical_text : TranscriptV1 → Text
canonical_text t = join (b'\n' ∷ []) (canonical_lines t)

module _ ⦃p : Platform⦄ where
  open p use {lower, upper}

  -- `_build_transcript` up to its last check.
  unfoldable pub assemble : RequestInput → ℤ → Text → TranscriptV1
  unfolding issue_time
  assemble input bucket normalized =
      let allow_list = canonical_allow_list input.header_allow_list in
      record {
        method = upper (strip input.method);
        scheme = lower (strip input.scheme);
        authority = lower (strip input.authority);
        path = strip input.path;
        audience = strip input.audience;
        route_id = strip input.route_id;
        content_encoding = or_else (lower (strip input.content_encoding)) (codes "identity");
        query_normalization = record {
          algorithm = query_normalization_rfc3986;
          normalized = normalized;
          sha256 = sha256_text normalized;
        };
        query_sha256 = sha256_text normalized;
        headers = record {
          allow_list = allow_list;
          selected = select_headers input.headers allow_list;
        };
        body_sha256 = or_else (strip input.body_sha256) (body_sha256 input.body);
        passport_jti = strip input.passport_jti;
        nonce = strip input.nonce;
        issued_at = issue_time input;
        time_bucket = bucket;
        key_binding = strip input.key_binding;
        covered_fields = transcript_v1_covered_fields;
      }

  -- `_build_transcript`.
  unfoldable pub build_transcript : RequestInput → Result Text TranscriptV1
  unfolding assemble query_of time_bucket
  build_transcript input = do
    bucket ← time_bucket input.time_bucket_seconds (issue_time input)
    normalized ← normalize_query_rfc3986 (query_of (strip input.raw_query))
    let transcript = assemble input bucket normalized
    validate_transcript transcript
    ok transcript

  -- `build_request`.
  unfoldable pub build_request : RequestInput → Result Text RequestMaterial
  build_request input = do
    transcript ← build_transcript input
    ok (record {
      transcript_sha256 = sha256_text (canonical_text transcript);
      body_sha256 = transcript.body_sha256;
      canonical_lines = canonical_lines transcript;
    })
