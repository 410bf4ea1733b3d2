-- ===== src/Passport/Token.antt =====
-- The token of a passport in its parts, and its claims read back.
use trustplane_auth_sdk_pyth.Base.{
  append_assoc, append-nil, ℕ, zero, suc, ◌≡◌, ◌≢◌, refl, sym, ap, ◌∙◌, false, [], ◌∷◌, ◌++◌, arith,
  Text, Bytes, All-append, All-imp, length, ok,
}
use trustplane_auth_sdk_pyth.Base.Int.{ℤ, pos, negsuc}
use trustplane_auth_sdk_pyth.Text.{
  codes, is_space, strip, strip_of, strip-strip, split, split-join, join,
}
use trustplane_auth_sdk_pyth.Json.{Json, IsExact, get}
use trustplane_auth_sdk_pyth.Platform.{Platform, PlatformLaws}
use trustplane_auth_sdk_pyth.Crypto.{Crypto, CryptoLaws, PrivateKey}
use trustplane_auth_sdk_pyth.Base64.{b64url}
use trustplane_auth_sdk_pyth.Base64.RoundTrip.{
  AreBytes, decode_base64url-b64url, b64url-All, b64url-nonempty, strip-b64url, not_blank,
}
use trustplane_auth_sdk_pyth.Transcript.Build.{or_else}
use trustplane_auth_sdk_pyth.Signing.{payload_of, binding_of, parse_passport_binding}
use trustplane_auth_sdk_pyth.Signing.Binding.{IsCanonical}
use trustplane_auth_sdk_pyth.Passport.Exact.{IsEncodable, b64url-Lacks}
use trustplane_auth_sdk_pyth.Passport.{
  PassportOptions, passport_jti, passport_claims, json_b64, unsigned_token, signed_token,
}

pub claims-read :
    (options : PassportOptions) (s : ℕ) (iat exp : ℤ) (public : Text)
    → iat ≡ pos (suc s)
    → binding_of (passport_claims options iat exp public)
      ≡ ok (record {
        audience = options.audience;
        jti = passport_jti options;
        issued_at = iat;
        key_id = public;
        key_binding = codes "software";
        public_key_b64url = public;
      })
unfolding binding_of get codes
claims-read options s (pos zero) exp public e = cc
claims-read options s (pos (suc n)) exp public e = refl
claims-read options s (negsuc n) exp public e = cc

pub jti-IsCanonical :
    (options : PassportOptions) → IsEncodable options → IsCanonical (passport_jti options)
jti-IsCanonical options e = canonical (strip options.jti) (strip-strip options.jti)
  where
    random : Text
    random = b64url (options.random_bytes 16)

    canonical : (s : Text) → strip s ≡ s → IsCanonical (or_else s (codes "jti-" ++ random))
    canonical [] h = (
      unfold codes in cc,
      sym (
          strip_of _ (
            All-append (λ x. is_space x ≡ false) (codes "jti-") random
              (unfold codes is_space in (refl, (refl, (refl, (refl, tt)))))
              (All-imp not_blank random (b64url-All _ e.random_bytes)))),
    )
    canonical (x ∷ s) h = (cc, sym h)

module _ ⦃c : Crypto⦄ (claws : CryptoLaws c) where
  pub public-IsCanonical : (k : PrivateKey) → IsCanonical (b64url (c.raw_public_key k))
  public-IsCanonical k = (
    nonempty (c.raw_public_key k) (claws.public_bytes k) (claws.public_length k),
    sym (strip-b64url (c.raw_public_key k) (claws.public_bytes k)),
  )
    where
      nonempty : (b : Bytes) → AreBytes b → length b ≡ 32 → b64url b ≢ []
      nonempty [] h e = absurd (omega arith)
      nonempty (x ∷ b) h e = λ empty. cc (b64url-nonempty x b h)

module _ ⦃p : Platform⦄ ⦃c : Crypto⦄ (plaws : PlatformLaws p) (claws : CryptoLaws c) where
  -- The three parts of a token come apart at its dots, and its claims are read back.
  pub token-parsed :
      (k : PrivateKey) (header claims : Json)
      → IsExact header
      → IsExact claims
      → (split b'.' (signed_token k (unsigned_token header claims))
          ≡ json_b64 header
            ∷ json_b64 claims
            ∷ b64url (c.sign k (unsigned_token header claims))
            ∷ [])
        × (parse_passport_binding (signed_token k (unsigned_token header claims))
            ≡ binding_of claims)
  unfolding parse_passport_binding payload_of
  token-parsed k header claims hh hc =
      let parts = parted in
      (
        parts,
        rw (
          parts,
          decode_base64url-b64url (p.json_dumps claims) (plaws.dumps_bytes claims hc),
          plaws.loads-dumps claims hc,
        ),
      )
    where
      joined :
          signed_token k (unsigned_token header claims)
          ≡ join (b'.' ∷ []) (
              json_b64 header
              ∷ json_b64 claims
              ∷ b64url (c.sign k (unsigned_token header claims))
              ∷ [])
      joined =
          unfold join in
          rw (
            append_assoc (json_b64 header) (b'.' ∷ json_b64 claims)
                (b'.' ∷ b64url (c.sign k (unsigned_token header claims))),
            append-nil,
          )

      parted :
          split b'.' (signed_token k (unsigned_token header claims))
          ≡ json_b64 header
            ∷ json_b64 claims
            ∷ b64url (c.sign k (unsigned_token header claims))
            ∷ []
      parted =
          ap (split b'.') joined
          ∙ split-join b'.' (json_b64 header)
              (json_b64 claims ∷ b64url (c.sign k (unsigned_token header claims)) ∷ [])
              (
                b64url-Lacks _ (plaws.dumps_bytes header hh),
                (
                  b64url-Lacks _ (plaws.dumps_bytes claims hc),
                  (b64url-Lacks _ (claws.signature_bytes k _), tt),
                ),
              )
