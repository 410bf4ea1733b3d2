-- ===== src/Signing/Data.antt =====
-- The data of signing, the claims of a passport, and the checks that need no key.
use trustplane_auth_sdk_pyth.Base.{
  suc, ◌+◌, ◌*◌, Bool, false, not, ◌&&◌, ◌||◌, Option, none, some, List, [], ◌∷◌, ◌++◌, Text, Bytes,
  between, ◌==◌, Result, ok, err, ◌>>=◌, ◌>>◌, raise_if,
}
use trustplane_auth_sdk_pyth.Base.Int.{ℤ, pos, int_eq}
use trustplane_auth_sdk_pyth.Text.{codes, text_eq, is_empty, strip, lstrip_by, starts_with}
use trustplane_auth_sdk_pyth.Json.{Json, int, list, dict, cons, Fields, end, get}
use trustplane_auth_sdk_pyth.Crypto.{PrivateKey}
use trustplane_auth_sdk_pyth.Transcript.Data.{
  Datetime, RequestInput, default_request, software_key_binding, utc_datetime, int_timestamp,
}
use trustplane_auth_sdk_pyth.Query.Percent.{is_hex, hex_value}

-- The key argument: a key object, `bytes` or `str`.
pub data KeyInput : Type 0 where
  key_object : PrivateKey → KeyInput
  key_bytes : Bytes → KeyInput
  key_text : Text → KeyInput

pub record ProofInput : Type 0 where
  pub request : RequestInput
  pub passport_token : Text
  pub private_key : KeyInput
  pub key_id : Text
  pub signer_class : Text

-- The keyword arguments of `sign_request`.
pub record SignArguments : Type 0 where
  pub request : Option RequestInput
  pub passport_token : Text
  pub private_key : Option KeyInput
  pub key_id : Text
  pub signer_class : Text

pub record SignedRequest : Type 0 where
  pub transcript_sha256 : Text
  pub body_sha256 : Text
  pub headers : List (Text × Text)
  pub canonical_lines : List Text
  pub key_id : Text
  pub signer_class : Text

pub record PassportBinding : Type 0 where
  pub audience : Text
  pub jti : Text
  pub issued_at : ℤ
  pub key_id : Text
  pub key_binding : Text
  pub public_key_b64url : Text

-- `_claim_string`.
unfoldable pub claim_string : Json → Text
claim_string (Json.str s) = s
claim_string _ = []

-- `_audience_string`: a text, or the first of a list.
unfoldable pub audience_string : Json → Text
unfolding claim_string
audience_string (Json.str s) = s
audience_string (list (cons raw rest)) = claim_string raw
audience_string _ = []

-- `_numeric_unix`: a positive integer, and no Boolean.
unfoldable pub numeric_unix : Json → Option ℤ
numeric_unix (int (pos (suc n))) = some (pos (suc n))
numeric_unix _ = none

-- `payload.get("cnf")`, if it is a dictionary, and else an empty one.
unfoldable pub cnf_of : Json → Fields
cnf_of (dict fields) = fields
cnf_of _ = end

-- The binding that a payload states.
unfoldable pub binding_of : Json → Result Text PassportBinding
unfolding claim_string audience_string numeric_unix cnf_of get
binding_of (dict payload) = elim (numeric_unix (get (codes "iat") payload)) [
  | none ↦ err (codes "passport_missing_iat")
  | some issued_at ↦
      let cnf = cnf_of (get (codes "cnf") payload) in
      ok (record {
        audience = audience_string (get (codes "aud") payload);
        jti = claim_string (get (codes "jti") payload);
        issued_at = issued_at;
        key_id = claim_string (get (codes "kid") cnf);
        key_binding = claim_string (get (codes "key_binding") cnf);
        public_key_b64url = claim_string (get (codes "public_key_b64url") cnf);
      })
]
binding_of _ = err (codes "invalid_passport_token")

-- `raise ValueError(f"invalid_passport_token: {exc}")`.
unfoldable pub wrap_token : Result Text Json → Result Text Json
wrap_token (ok payload) = ok payload
wrap_token (err exc) = err (codes "invalid_passport_token: " ++ exc)

-- The dictionary `required` of `_validate_passport_binding`.
abbrev pub binding_required : PassportBinding → List (Text × Text)
binding_required claims =
    (codes "aud", claims.audience)
    ∷ (codes "jti", claims.jti)
    ∷ (codes "cnf_kid", claims.key_id)
    ∷ (codes "cnf_key_binding", claims.key_binding)
    ∷ (codes "cnf_public_key_b64url", claims.public_key_b64url)
    ∷ []

-- Each claim is present and has no blanks around it.
unfoldable pub check_claims : Text → Text → List (Text × Text) → Result Text (Unit {0})
check_claims missing non_canonical [] = ok tt
check_claims missing non_canonical ((name, value) ∷ rest) = do
  raise_if (is_empty (strip value)) (missing ++ name)
  raise_if (not (text_eq value (strip value))) (non_canonical ++ name)
  check_claims missing non_canonical rest

-- `_validate_optional_software`.
unfoldable pub validate_optional_software : Text → Result Text (Unit {0})
validate_optional_software value =
    raise_if (not (is_empty (strip value)) && not (text_eq value software_key_binding))
      (codes "local_raw_key_supports_only_software_key_binding")

-- A value of the request that is given and is not the passport's.
abbrev pub disagrees : Text → Text → Bool
disagrees given claimed = not (is_empty (strip given)) && not (text_eq (strip given) claimed)

abbrev pub time_disagrees : Option Datetime → ℤ → Bool
time_disagrees none issued_at = false
time_disagrees (some value) issued_at = not (int_eq (int_timestamp (utc_datetime value)) issued_at)

-- `_validate_signing_consistency`.
unfoldable pub validate_signing_consistency :
    RequestInput → Text → Text → PassportBinding → Result Text (Unit {0})
unfolding validate_optional_software
validate_signing_consistency request key_id signer_class claims = do
  validate_optional_software request.key_binding
  validate_optional_software signer_class
  raise_if (disagrees request.audience claims.audience) (codes "passport_audience_mismatch")
  raise_if (disagrees request.passport_jti claims.jti) (codes "passport_jti_mismatch")
  raise_if
      (not (int_eq request.issued_at_unix (pos 0))
        && not (int_eq request.issued_at_unix claims.issued_at))
      (codes "passport_iat_mismatch")
  raise_if (time_disagrees request.issued_at claims.issued_at) (codes "passport_iat_mismatch")
  raise_if (disagrees key_id claims.key_id) (codes "passport_cnf_kid_mismatch")

-- `_coerce_signing_request` of a `RequestInput` or `None`.
unfoldable pub coerce_signing_request : Option RequestInput → RequestInput
coerce_signing_request none = default_request
coerce_signing_request (some request) = request

-- `request_data`: the passport's values take the place of the request's.
unfoldable pub bind_request : RequestInput → PassportBinding → RequestInput
bind_request request claims = record request {
  audience = claims.audience;
  passport_jti = claims.jti;
  issued_at = none;
  issued_at_unix = claims.issued_at;
  key_binding = software_key_binding;
}

-- `bytes.fromhex` of a text without blanks.
unfoldable pub from_hex : Text → Result Text Bytes
unfolding is_hex hex_value
from_hex [] = ok []
from_hex (c ∷ []) = err (codes "non-hexadecimal number found in fromhex() arg")
from_hex (h ∷ l ∷ rest) = do
  raise_if (not (is_hex h && is_hex l)) (codes "non-hexadecimal number found in fromhex() arg")
  tail ← from_hex rest
  ok ((hex_value h * 16 + hex_value l) ∷ tail)

-- `bytes.strip().startswith(b"-----BEGIN")`: ASCII blanks alone.
unfoldable pub is_pem : Bytes → Bool
is_pem raw = starts_with (codes "-----BEGIN") (lstrip_by (λ b. between 9 13 b || b == 32) raw)
