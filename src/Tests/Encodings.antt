-- ===== src/Tests/Encodings.antt =====
-- The theorems on base64url and on keys at concrete bytes.
use trustplane_auth_sdk_pyth.Base.{◌≡◌, ◌↔◌, refl, [], ◌∷◌, arith, Bytes, length, ok}
use trustplane_auth_sdk_pyth.Text.{codes}
use trustplane_auth_sdk_pyth.Crypto.{PrivateKey}
use trustplane_auth_sdk_pyth.Base64.{
  b64url, decode_base64url, decode_canonical_base64url, replicate,
}
use trustplane_auth_sdk_pyth.Base64.RoundTrip.{
  AreBytes, decode_base64url-b64url, decode_canonical_iff,
}
use trustplane_auth_sdk_pyth.Keys.{private_key_from_base64url, export_local_ed25519_key}
use trustplane_auth_sdk_pyth.Keys.Laws.{private_key_from_base64url-export}
use trustplane_auth_sdk_pyth.Tests.{toy_crypto, toy_platform, toy_laws}

abbrev four : Bytes
four = 0 ∷ 255 ∷ 16 ∷ 62 ∷ []

four-AreBytes : AreBytes four
four-AreBytes = ground arith

decode_base64url-b64url_example : decode_base64url (b64url four) ≡ ok four
decode_base64url-b64url_example = decode_base64url-b64url four four-AreBytes

decode_canonical_iff_example :
    (decode_canonical_base64url (codes "AP8QPg") (codes "key") ≡ ok four)
    ↔ (codes "AP8QPg" ≡ b64url four)
decode_canonical_iff_example =
    decode_canonical_iff (codes "AP8QPg") (codes "key") four four-AreBytes

abbrev seven_key : PrivateKey
seven_key = record { seed = replicate 32 7 }

seven-length : length (replicate 32 7) ≡ 32
unfolding replicate
seven-length = refl

seven-AreBytes : AreBytes (replicate 32 7)
unfolding replicate
seven-AreBytes = ground arith

private_key_from_base64url-export_example :
    private_key_from_base64url (export_local_ed25519_key seven_key).private_key_b64url
    ≡ ok seven_key
private_key_from_base64url-export_example =
    private_key_from_base64url-export toy_laws seven_key seven-length seven-AreBytes
