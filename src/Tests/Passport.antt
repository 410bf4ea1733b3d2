-- ===== src/Tests/Passport.antt =====
-- The theorems on issued passports at a concrete passport.
use trustplane_auth_sdk_pyth.Base.{
  ℕ, zero, suc, ◌≡◌, refl, true, none, some, [], ◌∷◌, ◌++◌, arith, Text, Bytes, All, ok,
}
use trustplane_auth_sdk_pyth.Base.Int.{pos, trunc_div, floor_div, ◌+ℤ◌}
use trustplane_auth_sdk_pyth.Text.{codes, split, strip, text_eq}
use trustplane_auth_sdk_pyth.Base64.{replicate, b64url, decode_base64url}
use trustplane_auth_sdk_pyth.Platform.{Platform, PlatformLaws, IsLowerHex}
use trustplane_auth_sdk_pyth.Transcript.Data.{Datetime, int_timestamp, utc_datetime}
use trustplane_auth_sdk_pyth.Signing.{parse_passport_binding, validate_passport_binding}
use trustplane_auth_sdk_pyth.Passport.{
  PassportOptions, IssuedPassport, issue_passport, issued_passport,
}
use trustplane_auth_sdk_pyth.Passport.Exact.{IsEncodable}
use trustplane_auth_sdk_pyth.Passport.Issued.{
  issued_binding, issue_passport-accepted, issue_passport-verifies,
}
use trustplane_auth_sdk_pyth.Tests.{toy_platform, toy_crypto, toy_laws}
use trustplane_auth_sdk_pyth.Tests.Codec.{dumps, loads, loads-dumps, dumps_bytes}

abbrev codec_platform : Platform
codec_platform = record toy_platform { json_loads = loads; json_dumps = dumps }

zeros-IsLowerHex : (n : ℕ) → All IsLowerHex (replicate n b'0')
unfolding replicate
zeros-IsLowerHex zero = tt
zeros-IsLowerHex (suc n) = (ground arith, zeros-IsLowerHex n)

codec_laws : PlatformLaws codec_platform
unfolding replicate
codec_laws = record {
  digest_length = λ b. refl;
  digest_hex = λ b. zeros-IsLowerHex 64;
  loads-dumps = loads-dumps;
  dumps_bytes = dumps_bytes;
}

abbrev options : PassportOptions
options = record {
  issuer = codes "i";
  subject = codes "s";
  audience = codes "api";
  trust_domain = codes "d";
  key_id = codes "k1";
  private_key = record { seed = replicate 32 7 };
  ttl = pos 600_000_000;
  now = some (record { wall = pos 40_500_000; offset = none });
  jti = [];
  random_bytes = λ n. replicate n 9;
}

abbrev at_40 : Datetime
at_40 = record { wall = pos 40_000_000; offset = some (pos 0) }

abbrev at_640 : Datetime
at_640 = record { wall = pos 640_000_000; offset = some (pos 0) }

options-IsEncodable : IsEncodable options
unfolding codes replicate
options-IsEncodable = record {
  issuer = ground arith;
  subject = ground arith;
  audience = ground arith;
  trust_domain = ground arith;
  key_id = ground arith;
  jti = tt;
  random_bytes = ground arith;
}

abbrev passport : IssuedPassport
passport = issued_passport ⦃p = codec_platform⦄ ⦃c = toy_crypto⦄ options at_40 at_640

passport-issued : issue_passport ⦃p = codec_platform⦄ ⦃c = toy_crypto⦄ at_640 options ≡ ok passport
unfolding issue_passport codes strip text_eq utc_datetime ◌+ℤ◌ floor_div
passport-issued = refl

issue_passport-accepted_example :
    (parse_passport_binding ⦃p = codec_platform⦄ passport.token
      ≡ ok (issued_binding ⦃p = codec_platform⦄ ⦃c = toy_crypto⦄ options passport))
    × (validate_passport_binding ⦃c = toy_crypto⦄
          (issued_binding ⦃p = codec_platform⦄ ⦃c = toy_crypto⦄ options passport)
          options.private_key
        ≡ ok tt)
unfolding int_timestamp trunc_div
issue_passport-accepted_example =
    issue_passport-accepted ⦃p = _⦄ codec_laws toy_laws at_640 options passport options-IsEncodable
      passport-issued 39 refl

issue_passport-verifies_example :
    (header : Text) × (claims : Text) × (signature : Bytes) × (public_key : Bytes) × (split b'.'
        passport.token
      ≡ header ∷ claims ∷ b64url signature ∷ [])
    × (decode_base64url (b64url signature) ≡ ok signature)
    × (decode_base64url passport.public_key_b64url ≡ ok public_key)
    × (toy_crypto.verify public_key (header ++ b'.' ∷ claims) signature ≡ true)
issue_passport-verifies_example =
    issue_passport-verifies ⦃p = _⦄ codec_laws toy_laws at_640 options passport options-IsEncodable
      passport-issued
