-- ===== src/Passport/Exact.antt =====
-- The JSON values of a passport are carried exactly by the codec.
use mathlib.Core.Path.{subst}
use trustplane_auth_sdk_pyth.Base.{
  ℕ, ◌≡◌, ◌≢◌, refl, true, not, [], ◌∷◌, ◌++◌, all, ltb, arith, Text, Bytes, All, All-append,
  All-imp, ok, >>=-eq-ok, raise_if, raise_if-eq-ok,
}
use trustplane_auth_sdk_pyth.Base.Int.{ℤ, pos, negsuc, times, floor_div, trunc_div, ◌+ℤ◌}
use trustplane_auth_sdk_pyth.Text.{codes, text_eq, strip, All-strip, Lacks}
use trustplane_auth_sdk_pyth.Text.Utf8.{IsScalar}
use trustplane_auth_sdk_pyth.Json.{int, IsExact, HoldsExact}
use trustplane_auth_sdk_pyth.Crypto.{Crypto, CryptoLaws}
use trustplane_auth_sdk_pyth.Base64.{b64url, is_base64url}
use trustplane_auth_sdk_pyth.Base64.RoundTrip.{AreBytes, b64url-All}
use trustplane_auth_sdk_pyth.Transcript.Data.{Datetime, int_timestamp, utc_datetime}
use trustplane_auth_sdk_pyth.Transcript.Build.{or_else}
use trustplane_auth_sdk_pyth.Passport.{
  PassportOptions, passport_jti, passport_header, passport_claims, date_in_range, whole_second,
  plus_delta,
}

base64url-IsScalar : (c : ℕ) → is_base64url c ≡ true → IsScalar c
unfolding is_base64url
base64url-IsScalar c h = ground arith

base64url-dot : (c : ℕ) → is_base64url c ≡ true → c ≢ b'.'
unfolding is_base64url
base64url-dot c h = ground arith

b64url-IsScalar : (b : Bytes) → AreBytes b → All IsScalar (b64url b)
b64url-IsScalar b h = All-imp base64url-IsScalar (b64url b) (b64url-All b h)

pub b64url-Lacks : (b : Bytes) → AreBytes b → Lacks b'.' (b64url b)
b64url-Lacks b h = All-imp base64url-dot (b64url b) (b64url-All b h)

-- The options' texts can be encoded, and the random bytes are bytes.
pub record IsEncodable (options : PassportOptions) : Type 0 where
  pub issuer : All IsScalar options.issuer
  pub subject : All IsScalar options.subject
  pub audience : All IsScalar options.audience
  pub trust_domain : All IsScalar options.trust_domain
  pub key_id : All IsScalar options.key_id
  pub jti : All IsScalar options.jti
  pub random_bytes : AreBytes (options.random_bytes 16)

pub jti-IsScalar :
    (options : PassportOptions) → IsEncodable options → All IsScalar (passport_jti options)
jti-IsScalar options e = scalar (strip options.jti) (All-strip IsScalar options.jti e.jti)
  where
    scalar :
        (s : Text)
        → All IsScalar s
        → All IsScalar (or_else s (codes "jti-" ++ b64url (options.random_bytes 16)))
    scalar [] h =
        All-append IsScalar (codes "jti-") _ (unfold codes in ground arith)
          (b64url-IsScalar _ e.random_bytes)
    scalar (c ∷ s) h = h

int_timestamp-IsExact :
    (d : Datetime) → date_in_range d.wall ≡ true → IsExact (int (int_timestamp d))
unfolding int_timestamp trunc_div IsExact
int_timestamp-IsExact d h = exact d.wall h
  where
    exact : (w : ℤ) → date_in_range w ≡ true → IsExact (int (trunc_div w 1_000_000))
    exact (pos n) h = ground arith
    exact (negsuc n) h = ground arith

floored :
    (w : ℤ)
    → date_in_range w ≡ true
    → date_in_range (times (floor_div w 1_000_000) 1_000_000) ≡ true
unfolding floor_div
floored (pos n) h = ground arith
floored (negsuc n) h = ground arith

pub whole_second-in_range :
    (d now : Datetime) → whole_second d ≡ ok now → date_in_range now.wall ≡ true
unfolding whole_second
whole_second-in_range d now h =
    let (_, ranged, h1) = >>=-eq-ok (raise_if (not (date_in_range (utc_datetime d).wall)) _) _ h in
    let same : record (utc_datetime d) {
      wall = times (floor_div (utc_datetime d).wall 1_000_000) 1_000_000;
    }
        ≡ now =
      cc in
    let w = floored (utc_datetime d).wall (ground (arith, raise_if-eq-ok _ _ ranged)) in
    subst (λ (x : Datetime). date_in_range x.wall ≡ true) same w

pub plus_delta-in_range :
    (d e : Datetime) (ttl : ℤ) → plus_delta d ttl ≡ ok e → date_in_range e.wall ≡ true
unfolding plus_delta
plus_delta-in_range d e ttl h =
    let (_, ranged, h1) = >>=-eq-ok (raise_if (not (date_in_range (d.wall +ℤ ttl))) _) _ h in
    let same : record d { wall = d.wall +ℤ ttl } ≡ e = cc in
    subst (λ (x : Datetime). date_in_range x.wall ≡ true) same
      (ground (arith, raise_if-eq-ok _ _ ranged))

ascii-IsScalar : (s : Text) → all (λ x. ltb x 128) s ≡ true → All IsScalar s
ascii-IsScalar [] h = tt
ascii-IsScalar (x ∷ s) h = (ground arith, ascii-IsScalar s (ground arith))

pub header-IsExact :
    (options : PassportOptions) → IsEncodable options → IsExact (passport_header options)
unfolding IsExact HoldsExact codes text_eq
header-IsExact options e = (
  ascii-IsScalar (codes "alg") refl,
  ascii-IsScalar (codes "EdDSA") refl,
  refl,
  (
    ascii-IsScalar (codes "kid") refl,
    e.key_id,
    refl,
    (ascii-IsScalar (codes "typ") refl, ascii-IsScalar (codes "JWT") refl, refl, tt),
  ),
)

module _ ⦃c : Crypto⦄ (claws : CryptoLaws c) where
  pub claims-IsExact :
      (options : PassportOptions) (now expires_at : Datetime)
      → IsEncodable options
      → date_in_range now.wall ≡ true
      → date_in_range expires_at.wall ≡ true
      → IsExact (
          passport_claims options
            (int_timestamp now)
            (int_timestamp expires_at)
            (b64url (c.raw_public_key options.private_key)))
  unfolding IsExact HoldsExact codes text_eq
  claims-IsExact options now expires_at e hn he =
      let public =
        b64url-IsScalar (c.raw_public_key options.private_key)
          (claws.public_bytes options.private_key) in
      (
        ascii-IsScalar (codes "iss") refl,
        e.issuer,
        refl,
        (
          ascii-IsScalar (codes "sub") refl,
          e.subject,
          refl,
          (
            ascii-IsScalar (codes "aud") refl,
            e.audience,
            refl,
            (
              ascii-IsScalar (codes "iat") refl,
              int_timestamp-IsExact now hn,
              refl,
              (
                ascii-IsScalar (codes "exp") refl,
                int_timestamp-IsExact expires_at he,
                refl,
                (
                  ascii-IsScalar (codes "jti") refl,
                  jti-IsScalar options e,
                  refl,
                  (
                    ascii-IsScalar (codes "trust_domain") refl,
                    e.trust_domain,
                    refl,
                    (
                      ascii-IsScalar (codes "cnf") refl,
                      (
                        ascii-IsScalar (codes "kid") refl,
                        public,
                        refl,
                        (
                          ascii-IsScalar (codes "public_key_b64url") refl,
                          public,
                          refl,
                          (
                            ascii-IsScalar (codes "key_binding") refl,
                            ascii-IsScalar (codes "software") refl,
                            refl,
                            tt,
                          ),
                        ),
                      ),
                      refl,
                      tt,
                    ),
                  ),
                ),
              ),
            ),
          ),
        ),
      )
