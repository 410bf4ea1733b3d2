-- ===== src/Passport.antt =====
-- src/trustplane_auth/passport.py: the passports that a local key issues.
pub mod Exact
pub mod Token
pub mod Issued
use trustplane_auth_sdk_pyth.Base.{
  ℕ, ◌*◌, Bool, not, ◌&&◌, Option, none, some, List, [], ◌∷◌, ◌++◌, Text, Bytes, if◌then◌else◌,
  Result, ok, err, ◌>>=◌, ◌>>◌, raise_if,
}
use trustplane_auth_sdk_pyth.Base.Int.{ℤ, pos, negsuc, ◌+ℤ◌, int_leb, times, floor_div}
use trustplane_auth_sdk_pyth.Text.{codes, is_empty, strip}
use trustplane_auth_sdk_pyth.Json.{Json, int, str, dict, Fields, end, field}
use trustplane_auth_sdk_pyth.Platform.{Platform}
use trustplane_auth_sdk_pyth.Crypto.{Crypto, PrivateKey}
use trustplane_auth_sdk_pyth.Base64.{b64url}
use trustplane_auth_sdk_pyth.Transcript.Data.{Datetime, utc_datetime, int_timestamp}
use trustplane_auth_sdk_pyth.Transcript.Build.{or_else}
use trustplane_auth_sdk_pyth.Signing.{check_claims}

-- The time to live is a `timedelta`, in microseconds.
pub record PassportOptions : Type 0 where
  pub issuer : Text
  pub subject : Text
  pub audience : Text
  pub trust_domain : Text
  pub key_id : Text
  pub private_key : PrivateKey
  pub ttl : ℤ
  pub now : Option Datetime
  pub jti : Text
  pub random_bytes : ℕ → Bytes

-- `timedelta(minutes=10)`
abbrev pub default_passport_ttl : ℤ
default_passport_ttl = pos 600_000_000

pub record IssuedPassport : Type 0 where
  pub token : Text
  pub issuer : Text
  pub subject : Text
  pub audience : Text
  pub trust_domain : Text
  pub key_id : Text
  pub jti : Text
  pub issued_at : Datetime
  pub expires_at : Datetime
  pub public_key_b64url : Text
  pub key_binding : Text
  pub passport_shape : Text

-- The dictionary `required`.
abbrev pub passport_required : PassportOptions → List (Text × Text)
passport_required options =
    (codes "issuer", options.issuer)
    ∷ (codes "subject", options.subject)
    ∷ (codes "audience", options.audience)
    ∷ (codes "trust_domain", options.trust_domain)
    ∷ (codes "kid", options.key_id)
    ∷ []

-- The wall clock of a datetime: the years 1 to 9999.
abbrev pub date_in_range : ℤ → Bool
date_in_range wall =
    int_leb (negsuc 62_135_596_799_999_999) wall && int_leb wall (pos 253_402_300_799_999_999)

-- `now.astimezone(timezone.utc).replace(microsecond=0)` of a datetime that a naive one is made aware for.
unfoldable pub whole_second : Datetime → Result Text Datetime
whole_second now =
    let utc = utc_datetime now in
    raise_if (not (date_in_range utc.wall)) (codes "date value out of range")
    >> ok (record utc { wall = times (floor_div utc.wall 1_000_000) 1_000_000 })

-- `now + ttl`
unfoldable pub plus_delta : Datetime → ℤ → Result Text Datetime
plus_delta now ttl =
    let wall = now.wall +ℤ ttl in
    raise_if (not (date_in_range wall)) (codes "date value out of range")
    >> ok (record now { wall = wall })

abbrev pub now_or : Option Datetime → Datetime → Datetime
now_or none clock = clock
now_or (some now) clock = now

-- `options.jti.strip() or f"jti-{...}"`
abbrev pub passport_jti : PassportOptions → Text
passport_jti options =
    or_else (strip options.jti) (codes "jti-" ++ b64url (options.random_bytes 16))

abbrev pub passport_header : PassportOptions → Json
passport_header options = dict (
    field (codes "alg") (str (codes "EdDSA"))
      (field (codes "kid") (str options.key_id) (field (codes "typ") (str (codes "JWT")) end)))

abbrev pub passport_cnf : Text → Json
passport_cnf public_key_b64url = dict (
    field (codes "kid") (str public_key_b64url) (
      field (codes "public_key_b64url") (str public_key_b64url)
        (field (codes "key_binding") (str (codes "software")) end)))

abbrev pub passport_claims : PassportOptions → ℤ → ℤ → Text → Json
passport_claims options iat exp public_key_b64url = dict (
    field (codes "iss") (str options.issuer) (
      field (codes "sub") (str options.subject) (
        field (codes "aud") (str options.audience) (
          field (codes "iat") (int iat) (
            field (codes "exp") (int exp) (
              field (codes "jti") (str (passport_jti options)) (
                field (codes "trust_domain") (str options.trust_domain)
                  (field (codes "cnf") (passport_cnf public_key_b64url) end))))))))

module _ ⦃p : Platform⦄ where
  -- `_json_b64`.
  abbrev pub json_b64 : Json → Text
  json_b64 value = b64url (p.json_dumps value)

  module _ ⦃c : Crypto⦄ where
    -- The signed part of the token, and the token. The text is ASCII, so its bytes are its code points.
    abbrev pub unsigned_token : Json → Json → Text
    unsigned_token header claims = json_b64 header ++ b'.' ∷ json_b64 claims

    abbrev pub signed_token : PrivateKey → Text → Text
    signed_token private_key unsigned = unsigned ++ b'.' ∷ b64url (c.sign private_key unsigned)

    abbrev pub issued_passport : PassportOptions → Datetime → Datetime → IssuedPassport
    issued_passport options now expires_at =
        let public_key_b64url = b64url (c.raw_public_key options.private_key) in
        let claims =
          passport_claims options (int_timestamp now) (int_timestamp expires_at)
            public_key_b64url in
        record {
          token =
              signed_token options.private_key (unsigned_token (passport_header options) claims);
          issuer = options.issuer;
          subject = options.subject;
          audience = options.audience;
          trust_domain = options.trust_domain;
          key_id = options.key_id;
          jti = passport_jti options;
          issued_at = now;
          expires_at = expires_at;
          public_key_b64url = public_key_b64url;
          key_binding = codes "software";
          passport_shape = codes "passport-v0.1";
        }

    -- `issue_passport`, at the time that `clock` shows.
    unfoldable pub issue_passport : Datetime → PassportOptions → Result Text IssuedPassport
    unfolding check_claims whole_second plus_delta
    issue_passport clock options = do
      check_claims (codes "missing_") (codes "non_canonical_") (passport_required options)
      raise_if (int_leb options.ttl (pos 0)) (codes "invalid_passport_ttl")
      now ← whole_second (now_or options.now clock)
      expires_at ← plus_delta now options.ttl
      ok (issued_passport options now expires_at)
