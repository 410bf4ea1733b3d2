-- ===== src/Platform.antt =====
-- What the SDK takes from its platform and the model does not define: SHA-256, the Unicode tables
-- behind `str.lower` and `str.upper`, `urllib.parse` and the codec of `json`.
use trustplane_auth_sdk_pyth.Base.{
  ℕ, ◌<◌, ◌≡◌, ◌≤◌, ◌⊎◌, ◌+◌, ◌-◌, Option, Text, Bytes, All, length, between, if◌then◌else◌, Result,
  ok,
}
use trustplane_auth_sdk_pyth.Base.Int.{ℤ}
use trustplane_auth_sdk_pyth.Json.{Json, IsExact}

-- A `urllib.parse.ParseResult`.
pub record ParsedUrl : Type 0 where
  pub scheme : Text
  pub netloc : Text
  pub path : Text
  pub params : Text
  pub query : Text
  pub fragment : Text
  pub username : Option Text
  pub password : Option Text

pub record Platform : Type 0 where
  -- `hashlib.sha256(b).hexdigest()`
  pub sha256_hex : Bytes → Text
  -- `s.lower()` and `s.upper()`
  pub lower : Text → Text
  pub upper : Text → Text
  -- `urlparse(url)`, which may raise `ValueError`
  pub urlparse : Text → Result Text ParsedUrl
  -- `urlunparse((scheme, netloc, path, params, query, fragment))`
  pub urlunparse : Text → Text → Text → Text → Text → Text → Text
  -- `json.loads(b.decode("utf-8"))`; the error is the message of the exception
  pub json_loads : Bytes → Result Text Json
  -- `json.dumps(value, separators=(",", ":"), ensure_ascii=False).encode("utf-8")`
  pub json_dumps : Json → Bytes
  -- `json.loads(b)`, or nothing where it raises `UnicodeDecodeError` or `JSONDecodeError`
  pub json_loads_bytes : Bytes → Option Json
  -- `json.dumps(value, separators=(",", ":")).encode()`
  pub json_dumps_ascii : Json → Bytes
  -- `int(s)`, or nothing where it raises `ValueError`
  pub parse_int : Text → Option ℤ
  -- `parsedate_to_datetime(s).astimezone(timezone.utc)` in microseconds from the epoch, or nothing
  -- where it raises `TypeError` or `ValueError`
  pub parse_http_date : Text → Option ℤ

-- A lower-case hex digit.
abbrev pub IsLowerHex : ℕ → Type 0
IsLowerHex c = (b'0' ≤ c) × (c ≤ b'9') ⊎ (b'a' ≤ c) × (c ≤ b'f')

abbrev pub ascii_lower : ℕ → ℕ
ascii_lower c = if between b'A' b'Z' c then c + 32 else c

abbrev pub ascii_upper : ℕ → ℕ
ascii_upper c = if between b'a' b'z' c then c - 32 else c

-- The documented behaviour that theorems rely on: a digest is 64 hex digits, and a value that the
-- codec carries exactly is dumped to bytes and loaded again.
pub record PlatformLaws (p : Platform) : Type 0 where
  pub digest_length : (b : Bytes) → length (p.sha256_hex b) ≡ 64
  pub digest_hex : (b : Bytes) → All IsLowerHex (p.sha256_hex b)
  pub loads-dumps : (v : Json) → IsExact v → p.json_loads (p.json_dumps v) ≡ ok v
  pub dumps_bytes : (v : Json) → IsExact v → All (λ b. b < 256) (p.json_dumps v)
