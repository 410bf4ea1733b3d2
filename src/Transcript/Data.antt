-- ===== src/Transcript/Data.antt =====
-- src/trustplane_auth/transcript.py: the constants and the data of a transcript.
use trustplane_auth_sdk_pyth.Base.{Option, none, some, List, [], ◌∷◌, Text, Bytes}
use trustplane_auth_sdk_pyth.Base.Int.{ℤ, pos, ◌-ℤ◌, trunc_div}
use trustplane_auth_sdk_pyth.Text.{codes}
use trustplane_auth_sdk_pyth.Text.Utf8.{encode}

abbrev pub header_authorization : Text
header_authorization = codes "Authorization"

abbrev pub header_body_sha256 : Text
header_body_sha256 = codes "X-TrustPlane-Body-SHA256"

abbrev pub header_nonce : Text
header_nonce = codes "X-TrustPlane-Nonce"

abbrev pub header_proof : Text
header_proof = codes "X-TrustPlane-Proof"

abbrev pub header_transcript_sha256 : Text
header_transcript_sha256 = codes "X-TrustPlane-Transcript-SHA256"

abbrev pub default_authorization_type : Text
default_authorization_type = codes "Bearer"

abbrev pub software_key_binding : Text
software_key_binding = codes "software"

abbrev pub transcript_v1_version : Text
transcript_v1_version = codes "trustplane-transcript-v1"

abbrev pub query_normalization_rfc3986 : Text
query_normalization_rfc3986 = codes "rfc3986-sort-keys-values"

abbrev pub default_time_bucket_seconds : ℤ
default_time_bucket_seconds = pos 20

-- A header item: a `Header`, a mapping with the keys `name` and `value`, or a pair.
pub data HeaderItem : Type 0 where
  header : Text → Text → HeaderItem
  mapping : List (Text × Text) → HeaderItem
  pair : Text → Text → HeaderItem

-- `bytes`, `str`, and what `bytes(...)` copies.
pub data Body : Type 0 where
  bytes : Bytes → Body
  str : Text → Body
  buffer : Bytes → Body

-- A `datetime`: its wall clock in microseconds from the epoch, and its offset from UTC in
-- microseconds, if it has a time zone.
pub record Datetime : Type 0 where
  pub wall : ℤ
  pub offset : Option ℤ

pub record RequestInput : Type 0 where
  pub method : Text
  pub scheme : Text
  pub authority : Text
  pub path : Text
  pub raw_query : Text
  pub audience : Text
  pub route_id : Text
  pub content_encoding : Text
  pub body : Body
  pub body_sha256 : Text
  pub headers : List HeaderItem
  pub header_allow_list : List Text
  pub nonce : Text
  pub issued_at : Option Datetime
  pub issued_at_unix : ℤ
  pub passport_jti : Text
  pub key_binding : Text
  pub time_bucket_seconds : ℤ

-- `RequestInput()`.
abbrev pub default_request : RequestInput
default_request = record {
  method = [];
  scheme = [];
  authority = [];
  path = [];
  raw_query = [];
  audience = [];
  route_id = [];
  content_encoding = [];
  body = bytes [];
  body_sha256 = [];
  headers = [];
  header_allow_list = [];
  nonce = [];
  issued_at = none;
  issued_at_unix = pos 0;
  passport_jti = [];
  key_binding = [];
  time_bucket_seconds = default_time_bucket_seconds;
}

pub record RequestMaterial : Type 0 where
  pub transcript_sha256 : Text
  pub body_sha256 : Text
  pub canonical_lines : List Text

pub record QueryNormalization : Type 0 where
  pub algorithm : Text
  pub normalized : Text
  pub sha256 : Text

pub record SelectedHeader : Type 0 where
  pub name : Text
  pub value_sha256 : Text

pub record TranscriptHeaders : Type 0 where
  pub allow_list : List Text
  pub selected : List SelectedHeader

pub record TranscriptV1 : Type 0 where
  pub method : Text
  pub scheme : Text
  pub authority : Text
  pub path : Text
  pub audience : Text
  pub route_id : Text
  pub content_encoding : Text
  pub query_normalization : QueryNormalization
  pub query_sha256 : Text
  pub headers : TranscriptHeaders
  pub body_sha256 : Text
  pub passport_jti : Text
  pub nonce : Text
  pub issued_at : ℤ
  pub time_bucket : ℤ
  pub key_binding : Text
  pub covered_fields : List Text

abbrev pub transcript_v1_covered_fields : List Text
transcript_v1_covered_fields =
    codes "method"
    ∷ codes "scheme"
    ∷ codes "authority"
    ∷ codes "path"
    ∷ codes "audience"
    ∷ codes "route_id"
    ∷ codes "content_encoding"
    ∷ codes "query_normalization.algorithm"
    ∷ codes "query_normalization.normalized"
    ∷ codes "query_normalization.sha256"
    ∷ codes "query_sha256"
    ∷ codes "headers.allow_list"
    ∷ codes "headers.selected"
    ∷ codes "body_sha256"
    ∷ codes "passport_jti"
    ∷ codes "nonce"
    ∷ codes "issued_at"
    ∷ codes "time_bucket"
    ∷ codes "key_binding"
    ∷ []

-- `_body_bytes`.
unfoldable pub body_bytes : Body → Bytes
body_bytes (bytes b) = b
body_bytes (str s) = encode s
body_bytes (buffer b) = b

-- `_utc_datetime`: a naive datetime is taken as UTC.
unfoldable pub utc_datetime : Datetime → Datetime
utc_datetime value = elim value.offset [
  | none ↦ record value { offset = some (pos 0) }
  | some offset ↦ record { wall = value.wall -ℤ offset; offset = some (pos 0) }
]

-- `int(value.timestamp())` of a datetime in UTC.
unfoldable pub int_timestamp : Datetime → ℤ
int_timestamp value = trunc_div value.wall 1_000_000
