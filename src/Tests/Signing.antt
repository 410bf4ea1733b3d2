-- ===== src/Tests/Signing.antt =====
-- The theorems on signing at a concrete passport and request.
use trustplane_auth_sdk_pyth.Base.{◌≡◌, refl, none, some, [], Text, All, Result, ok, err}
use trustplane_auth_sdk_pyth.Base.Int.{pos}
use trustplane_auth_sdk_pyth.Text.{codes, strip, text_eq, split, join, mem_text, decimal}
use trustplane_auth_sdk_pyth.Text.Utf8.{encode, encode_char}
use trustplane_auth_sdk_pyth.Json.{get}
use trustplane_auth_sdk_pyth.Base.Order.{sort}
use trustplane_auth_sdk_pyth.Query.{normalize_query_rfc3986}
use trustplane_auth_sdk_pyth.Query.Percent.{is_hex}
use trustplane_auth_sdk_pyth.Transcript.Build.{build_request, build_transcript, validate_transcript}
use trustplane_auth_sdk_pyth.Transcript.Headers.{
  sha256_text, body_sha256, canonical_allow_list, select_headers,
}
use trustplane_auth_sdk_pyth.Base64.{
  b64url, replicate, decode_canonical_base64url, decode_base64url,
}
use trustplane_auth_sdk_pyth.Transcript.Data.{RequestInput, default_request, software_key_binding}
use trustplane_auth_sdk_pyth.Crypto.{PrivateKey}
use trustplane_auth_sdk_pyth.Signing.{
  PassportBinding, SignArguments, SignedRequest, key_object, binding_required,
  validate_passport_binding, validate_signing_consistency, sign_request, effective,
  coerce_signing_request, load_private_key, parse_passport_binding, from_hex,
}
use trustplane_auth_sdk_pyth.Signing.Binding.{
  IsCanonical, validate_passport_binding_sound, validate_passport_binding_complete,
}
use trustplane_auth_sdk_pyth.Signing.Consistency.{IsConsistent, validate_signing_consistency_sound}
use trustplane_auth_sdk_pyth.Signing.Signed.{
  Binds, Verifiable, sign_request-Binds, sign_request-Verifiable,
}
use trustplane_auth_sdk_pyth.Tests.{toy_platform, toy_crypto, toy_laws, toy_public}

abbrev seven_key : PrivateKey
seven_key = record { seed = replicate 32 7 }

abbrev toy_binding : PassportBinding
toy_binding = record {
  audience = codes "api";
  jti = codes "j1";
  issued_at = pos 40;
  key_id = codes "k1";
  key_binding = codes "software";
  public_key_b64url = b64url toy_public;
}

binding-accepted : validate_passport_binding toy_binding seven_key ≡ ok tt
unfolding validate_passport_binding codes strip text_eq b64url replicate decode_canonical_base64url
    decode_base64url
binding-accepted = refl

validate_passport_binding_sound_example :
    All (λ e. IsCanonical e.1) (binding_required toy_binding)
    × (toy_binding.key_binding ≡ software_key_binding)
    × (toy_binding.public_key_b64url ≡ b64url toy_public)
validate_passport_binding_sound_example =
    validate_passport_binding_sound toy_binding seven_key binding-accepted

binding-IsCanonical : All (λ e. IsCanonical e.1) (binding_required toy_binding)
binding-IsCanonical = (validate_passport_binding_sound toy_binding seven_key binding-accepted).0

validate_passport_binding_complete_example : validate_passport_binding toy_binding seven_key ≡ ok tt
validate_passport_binding_complete_example =
    validate_passport_binding_complete toy_laws toy_binding seven_key binding-IsCanonical refl refl

abbrev buy_request : RequestInput
buy_request = record default_request {
  method = codes "post";
  scheme = codes "https";
  authority = codes "api.example";
  path = codes "/v1/orders";
  audience = codes "api";
  route_id = codes "r1";
  nonce = codes "n1";
}

buy-consistent : validate_signing_consistency buy_request (codes "k1") [] toy_binding ≡ ok tt
unfolding validate_signing_consistency codes strip text_eq
buy-consistent = refl

validate_signing_consistency_sound_example : IsConsistent buy_request (codes "k1") [] toy_binding
validate_signing_consistency_sound_example =
    validate_signing_consistency_sound buy_request (codes "k1") [] toy_binding buy-consistent

abbrev buy_arguments : SignArguments
buy_arguments = record {
  request = some buy_request;
  passport_token = codes " aa.aaaa.aa ";
  private_key = some (key_object seven_key);
  key_id = [];
  signer_class = [];
}

abbrev signed_of : Result Text SignedRequest → SignedRequest
signed_of (ok r) = r
signed_of (err e) = record {
  transcript_sha256 = [];
  body_sha256 = [];
  headers = [];
  canonical_lines = [];
  key_id = [];
  signer_class = [];
}

buy_signed : SignedRequest
buy_signed = signed_of (sign_request none buy_arguments)

buy-signed : sign_request none buy_arguments ≡ ok buy_signed
unfolding buy_signed sign_request load_private_key parse_passport_binding split
    validate_signing_consistency coerce_signing_request build_request build_transcript
    normalize_query_rfc3986 validate_transcript sha256_text body_sha256 canonical_allow_list sort
    mem_text select_headers encode encode_char get from_hex is_hex join decimal
    validate_passport_binding codes strip text_eq b64url replicate decode_canonical_base64url
    decode_base64url
buy-signed = refl

sign_request-Binds_example :
    Binds (strip (codes " aa.aaaa.aa ")) (coerce_signing_request (some buy_request)) buy_signed
unfolding effective
sign_request-Binds_example = sign_request-Binds none buy_arguments buy_signed buy-signed

sign_request-Verifiable_example :
    Verifiable
      (strip (codes " aa.aaaa.aa "))
      (coerce_signing_request (some buy_request)).nonce
      buy_signed
unfolding effective
sign_request-Verifiable_example =
    sign_request-Verifiable toy_laws none buy_arguments buy_signed buy-signed
