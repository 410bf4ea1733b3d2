-- ===== src/Signing.antt =====
-- src/trustplane_auth/signing.py: a request signed under a passport.
pub mod Binding
pub mod Consistency
pub mod Signed
mod Data
unfoldable pub use Data.*
use trustplane_auth_sdk_pyth.Base.{
  ℕ, suc, ◌+◌, ◌-◌, ◌*◌, ◌<◌, Bool, true, false, not, ◌&&◌, ◌||◌, Option, none, some, List, [], ◌∷◌,
  ◌++◌, Text, Bytes, length, ltb, between, ◌==◌, if◌then◌else◌, Result, ok, err, ◌>>=◌, ◌>>◌,
  raise_if,
}
use trustplane_auth_sdk_pyth.Base.Int.{ℤ, pos, negsuc, int_eq}
use trustplane_auth_sdk_pyth.Text.{
  codes, text_eq, is_empty, strip, split, decimal, lstrip_by, starts_with,
}
use trustplane_auth_sdk_pyth.Text.Utf8.{encode}
use trustplane_auth_sdk_pyth.Json.{
  Json, null, bool, int, float, str, list, dict, Items, nil, cons, Fields, end, get,
}
use trustplane_auth_sdk_pyth.Platform.{Platform}
use trustplane_auth_sdk_pyth.Crypto.{Crypto, PrivateKey, PemKey, ed25519, other_type}
use trustplane_auth_sdk_pyth.Base64.{b64url, decode_base64url, decode_canonical_base64url}
use trustplane_auth_sdk_pyth.Transcript.Data.{
  Datetime, RequestInput, RequestMaterial, default_request, software_key_binding,
  default_authorization_type, header_authorization, header_transcript_sha256, header_proof,
  header_nonce, header_body_sha256, utc_datetime, int_timestamp,
}
use trustplane_auth_sdk_pyth.Transcript.Build.{build_request}
use trustplane_auth_sdk_pyth.Query.Percent.{is_hex, hex_value}

module _ ⦃c : Crypto⦄ where
  open c use {raw_public_key, sign, load_pem}

  unfoldable pub ed25519_only : PemKey → Result Text PrivateKey
  ed25519_only (ed25519 k) = ok k
  ed25519_only other_type = err (codes "invalid_private_key_type")

  unfoldable pub load_key_bytes : Bytes → Result Text PrivateKey
  unfolding is_pem ed25519_only
  load_key_bytes raw =
      if is_pem raw
      then load_pem raw >>= ed25519_only
      else if length raw == 32
      then ok (record { seed = raw })
      else err (codes "invalid_private_key_size: " ++ decimal (length raw))

  -- `_load_private_key`.
  unfoldable pub load_private_key : KeyInput → Result Text PrivateKey
  unfolding load_key_bytes
  load_private_key (key_object k) = ok k
  load_private_key (key_bytes b) = load_key_bytes b
  load_private_key (key_text s) = load_key_bytes (encode s)

  -- `_validate_passport_binding`.
  unfoldable pub validate_passport_binding : PassportBinding → PrivateKey → Result Text (Unit {0})
  unfolding check_claims
  validate_passport_binding claims private_key = do
    check_claims (codes "passport_missing_") (codes "passport_non_canonical_")
        (binding_required claims)
    raise_if (not (text_eq claims.key_binding software_key_binding))
        (codes "local_raw_key_supports_only_software_key_binding")
    public_key ← decode_canonical_base64url claims.public_key_b64url (codes "cnf_public_key_b64url")
    raise_if (not (length public_key == 32))
        (codes "invalid_cnf_public_key_size: " ++ decimal (length public_key))
    raise_if (not (text_eq public_key (raw_public_key private_key)))
        (codes "cnf_public_key_mismatch")

module _ ⦃p : Platform⦄ where
  open p use {json_loads}

  -- The payload of a token's parts: the second of at least two.
  unfoldable pub payload_of : List Text → Result Text Json
  unfolding wrap_token
  payload_of (header ∷ payload ∷ rest) = wrap_token (decode_base64url payload >>= json_loads)
  payload_of _ = err (codes "invalid_passport_token")

  -- `_parse_passport_binding`.
  unfoldable pub parse_passport_binding : Text → Result Text PassportBinding
  unfolding payload_of binding_of
  parse_passport_binding token = payload_of (split b'.' token) >>= binding_of

  module _ ⦃c : Crypto⦄ where
    open c use {sign}

    -- The five headers.
    abbrev pub signed_headers : Text → Text → RequestMaterial → Text → List (Text × Text)
    signed_headers token nonce material proof_header =
        (header_authorization, default_authorization_type ++ b' ' ∷ token)
        ∷ (header_transcript_sha256, material.transcript_sha256)
        ∷ (header_proof, proof_header)
        ∷ (header_nonce, strip nonce)
        ∷ (header_body_sha256, material.body_sha256)
        ∷ []

    -- `sign_request` from the point where the request is bound.
    unfoldable pub sign_bound :
        Text → PrivateKey → PassportBinding → RequestInput → Result Text SignedRequest
    unfolding from_hex
    sign_bound token private_key claims request_data = do
      material ← build_request request_data
      digest ← from_hex material.transcript_sha256
      ok (record {
        transcript_sha256 = material.transcript_sha256;
        body_sha256 = material.body_sha256;
        headers =
            signed_headers token request_data.nonce material (b64url (sign private_key digest));
        canonical_lines = material.canonical_lines;
        key_id = claims.key_id;
        signer_class = software_key_binding;
      })

    -- `sign_request` once its arguments are checked for presence.
    unfoldable pub sign_with : Text → KeyInput → SignArguments → Result Text SignedRequest
    unfolding bind_request sign_bound
    sign_with token raw_key arguments = do
      private_key ← load_private_key raw_key
      claims ← parse_passport_binding token
      validate_passport_binding claims private_key
      let request = coerce_signing_request arguments.request
      validate_signing_consistency request arguments.key_id arguments.signer_class claims
      sign_bound token private_key claims (bind_request request claims)

    -- A `ProofInput` takes the place of the keyword arguments.
    unfoldable pub effective : Option ProofInput → SignArguments → SignArguments
    effective none arguments = arguments
    effective (some proof) arguments = record {
      request = some proof.request;
      passport_token = proof.passport_token;
      private_key = some proof.private_key;
      key_id = proof.key_id;
      signer_class = proof.signer_class;
    }

    unfoldable pub sign_checked : SignArguments → Result Text SignedRequest
    unfolding sign_with
    sign_checked arguments = do
      raise_if (is_empty (strip arguments.passport_token)) (codes "missing_passport_token")
      elim arguments.private_key [
        | none ↦ err (codes "missing_private_key")
        | some raw_key ↦ sign_with (strip arguments.passport_token) raw_key arguments
      ]

    -- `sign_request`.
    unfoldable pub sign_request : Option ProofInput → SignArguments → Result Text SignedRequest
    unfolding effective sign_checked
    sign_request proof arguments = sign_checked (effective proof arguments)
