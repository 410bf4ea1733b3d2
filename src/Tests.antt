-- ===== src/Tests.antt =====
-- A platform and a key package small enough to compute with, for the examples.
mod Query
mod Transcript
mod Profile
mod Encodings
mod Signing
mod Codec
mod Passport
mod Enrollment
mod Protected
mod Broker
mod Enrolled
use trustplane_auth_sdk_pyth.Base.{
  ℕ, ◌≡◌, refl, List, [], ◌∷◌, ◌++◌, map, arith, Text, Bytes, All, length, Option, none, some,
  Result, ok, err, Bool, true, false,
}
use trustplane_auth_sdk_pyth.Text.{codes, text_eq, text_eq_refl}
use trustplane_auth_sdk_pyth.Json.{Json, null, int, str, dict, Fields, end, field}
use trustplane_auth_sdk_pyth.Base.Int.{pos}
use trustplane_auth_sdk_pyth.Platform.{Platform, ParsedUrl, ascii_lower, ascii_upper}
use trustplane_auth_sdk_pyth.Crypto.{Crypto, CryptoLaws, PrivateKey, PemKey, other_type}
use trustplane_auth_sdk_pyth.Base64.{replicate, b64url}

abbrev pub toy_public : Bytes
toy_public = replicate 32 0

-- The claims of the only passport that the toy codec knows.
abbrev pub toy_claims : Json
toy_claims = dict (
    field (codes "aud") (str (codes "api")) (
      field (codes "jti") (str (codes "j1")) (
        field (codes "iat") (int (pos 40)) (
          field (codes "cnf")
            (dict (
              field (codes "kid") (str (codes "k1")) (
                field (codes "public_key_b64url") (str (b64url toy_public))
                  (field (codes "key_binding") (str (codes "software")) end))))
            end))))

instance abbrev pub toy_platform : Platform
toy_platform = record {
  sha256_hex = λ b. replicate 64 b'0';
  lower = map ascii_lower;
  upper = map ascii_upper;
  urlparse = λ url. err (codes "no url");
  urlunparse = λ scheme netloc path params query fragment. scheme ++ codes "://" ++ netloc ++ path;
  json_loads = λ b. ok toy_claims;
  json_dumps = λ v. codes "{}";
  json_loads_bytes = λ b. some toy_claims;
  json_dumps_ascii = λ v. codes "{}";
  parse_int = λ s. none;
  parse_http_date = λ s. none;
}

instance abbrev pub toy_crypto : Crypto
toy_crypto = record {
  raw_public_key = λ k. toy_public;
  sign = λ k m. 42 ∷ [];
  verify = λ k m s. text_eq s (42 ∷ []);
  load_pem = λ b. ok other_type;
}

pub toy_laws : CryptoLaws toy_crypto
unfolding replicate text_eq
toy_laws = record {
  public_length = λ k. refl;
  public_bytes = λ k. ground arith;
  signature_bytes = λ k m. ground arith;
  verify-sign = λ k m. refl;
}
