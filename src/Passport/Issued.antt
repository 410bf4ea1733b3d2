-- ===== src/Passport/Issued.antt =====
-- What a passport that was issued says of itself, once parsed.
use mathlib.Core.Path.{subst}
use trustplane_auth_sdk_pyth.Base.{
  ℕ, suc, ◌≡◌, refl, sym, ap, ◌∙◌, true, [], ◌∷◌, ◌++◌, Text, Bytes, All, ok, >>=-eq-ok, raise_if,
}
use trustplane_auth_sdk_pyth.Base.Int.{pos, int_leb}
use trustplane_auth_sdk_pyth.Text.{codes, strip, split}
use trustplane_auth_sdk_pyth.Platform.{Platform, PlatformLaws}
use trustplane_auth_sdk_pyth.Crypto.{Crypto, CryptoLaws}
use trustplane_auth_sdk_pyth.Base64.{b64url, decode_base64url}
use trustplane_auth_sdk_pyth.Base64.RoundTrip.{decode_base64url-b64url}
use trustplane_auth_sdk_pyth.Transcript.Data.{Datetime, int_timestamp}
use trustplane_auth_sdk_pyth.Signing.{
  PassportBinding, check_claims, parse_passport_binding, validate_passport_binding,
}
use trustplane_auth_sdk_pyth.Signing.Binding.{
  IsCanonical, check_claims_sound, validate_passport_binding_complete,
}
use trustplane_auth_sdk_pyth.Passport.Exact.{
  IsEncodable, whole_second-in_range, plus_delta-in_range, header-IsExact, claims-IsExact,
}
use trustplane_auth_sdk_pyth.Passport.Token.{
  claims-read, jti-IsCanonical, public-IsCanonical, token-parsed,
}
use trustplane_auth_sdk_pyth.Passport.{
  PassportOptions, IssuedPassport, passport_required, date_in_range, whole_second, plus_delta,
  now_or, issued_passport, issue_passport,
}

module _ ⦃p : Platform⦄ ⦃c : Crypto⦄ where
  -- How a passport that is issued came about.
  record Issued (clock : Datetime) (options : PassportOptions) (r : IssuedPassport) : Type 0 where
    now : Datetime
    expires_at : Datetime
    filled : All (λ e. IsCanonical e.1) (passport_required options)
    now_ranged : date_in_range now.wall ≡ true
    expires_ranged : date_in_range expires_at.wall ≡ true
    same : r ≡ issued_passport options now expires_at

  issue_passport-Issued :
      (clock : Datetime) (options : PassportOptions) (r : IssuedPassport)
      → issue_passport clock options ≡ ok r
      → Issued clock options r
  unfolding issue_passport
  issue_passport-Issued clock options r h =
      let (_, filled, h1) = >>=-eq-ok (check_claims _ _ (passport_required options)) _ h in
      let (_, lasting, h2) = >>=-eq-ok (raise_if (int_leb options.ttl (pos 0)) _) _ h1 in
      let (now, hn, h3) = >>=-eq-ok (whole_second (now_or options.now clock)) _ h2 in
      let (expires_at, he, h4) = >>=-eq-ok (plus_delta now options.ttl) _ h3 in
      record {
        now = now;
        expires_at = expires_at;
        filled =
            check_claims_sound (codes "missing_") (codes "non_canonical_")
              (passport_required options) filled;
        now_ranged = whole_second-in_range (now_or options.now clock) now hn;
        expires_ranged = plus_delta-in_range now expires_at options.ttl he;
        same = cc;
      }

  -- The binding that the claims of an issued passport state.
  abbrev pub issued_binding : PassportOptions → IssuedPassport → PassportBinding
  issued_binding options r = record {
    audience = options.audience;
    jti = r.jti;
    issued_at = int_timestamp r.issued_at;
    key_id = b64url (c.raw_public_key options.private_key);
    key_binding = codes "software";
    public_key_b64url = b64url (c.raw_public_key options.private_key);
  }

  module _ (plaws : PlatformLaws p) (claws : CryptoLaws c) where
    -- A passport that is issued at a positive time, from options whose texts can be encoded, is
    -- read back with the audience and the identifier that it was issued with, and its binding to
    -- the issuing key is accepted, if the codec loads what it dumps.
    pub issue_passport-accepted :
        (clock : Datetime) (options : PassportOptions) (r : IssuedPassport)
        → IsEncodable options
        → issue_passport clock options ≡ ok r
        → (s : ℕ) → int_timestamp r.issued_at ≡ pos (suc s)
        → (parse_passport_binding r.token ≡ ok (issued_binding options r))
          × (validate_passport_binding (issued_binding options r) options.private_key ≡ ok tt)
    issue_passport-accepted clock options r e h s timed =
        let i = issue_passport-Issued clock options r h in
        let k = options.private_key in
        let claims =
          claims-IsExact claws options i.now i.expires_at e i.now_ranged i.expires_ranged in
        let (parts, parsed) = token-parsed plaws claws k _ _ (header-IsExact options e) claims in
        let positive : int_timestamp i.now ≡ pos (suc s) =
          ap (λ r. int_timestamp r.issued_at) (sym i.same) ∙ timed in
        subst
          (λ r.
            (parse_passport_binding r.token ≡ ok (issued_binding options r))
            × (validate_passport_binding (issued_binding options r) options.private_key ≡ ok tt))
          (sym i.same)
          (
            parsed ∙ claims-read options s _ (int_timestamp i.expires_at) _ positive,
            validate_passport_binding_complete claws _ k
                (
                  i.filled.1.1.0,
                  (
                    jti-IsCanonical options e,
                    (
                      public-IsCanonical claws k,
                      (unfold codes strip in (cc, refl), (public-IsCanonical claws k, tt)),
                    ),
                  ),
                )
                refl refl,
          )

    -- The token of a passport that is issued from options whose texts can be encoded has three
    -- parts, the last of which decodes to a signature that verifies over the first two under the
    -- public key that the passport names, if the package verifies the signatures that it makes.
    pub issue_passport-verifies :
        (clock : Datetime) (options : PassportOptions) (r : IssuedPassport)
        → IsEncodable options
        → issue_passport clock options ≡ ok r
        → (header : Text) × (claims : Text) × (signature : Bytes) × (public_key : Bytes) × (split
              b'.' r.token
            ≡ header ∷ claims ∷ b64url signature ∷ [])
          × (decode_base64url (b64url signature) ≡ ok signature)
          × (decode_base64url r.public_key_b64url ≡ ok public_key)
          × (c.verify public_key (header ++ b'.' ∷ claims) signature ≡ true)
    issue_passport-verifies clock options r e h =
        let i = issue_passport-Issued clock options r h in
        let k = options.private_key in
        let claims =
          claims-IsExact claws options i.now i.expires_at e i.now_ranged i.expires_ranged in
        let (parts, parsed) = token-parsed plaws claws k _ _ (header-IsExact options e) claims in
        (
          _,
          _,
          _,
          c.raw_public_key k,
          ap (λ r. split b'.' r.token) i.same ∙ parts,
          decode_base64url-b64url _ (claws.signature_bytes k _),
          ap (λ r. decode_base64url r.public_key_b64url) i.same
              ∙ decode_base64url-b64url (c.raw_public_key k) (claws.public_bytes k),
          claws.verify-sign k _,
        )
