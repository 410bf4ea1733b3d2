-- ===== src/Signing/Binding.antt =====
-- The passports that `_validate_passport_binding` accepts for a key.
use trustplane_auth_sdk_pyth.Base.{
  ◌≡◌, ◌≢◌, refl, ap, ◌∙◌, false, not, List, [], ◌∷◌, ◌++◌, arith, Text, All, length, ◌==◌, ok,
  >>=-eq-ok, raise_if, raise_if-eq-ok,
}
use trustplane_auth_sdk_pyth.Text.{codes, text_eq, text_eq_iff, text_eq_refl, is_empty, strip}
use trustplane_auth_sdk_pyth.Crypto.{Crypto, CryptoLaws, PrivateKey}
use trustplane_auth_sdk_pyth.Base64.{b64url, decode_canonical_base64url}
use trustplane_auth_sdk_pyth.Base64.RoundTrip.{decode_canonical_sound, decode_canonical-b64url}
use trustplane_auth_sdk_pyth.Transcript.Data.{software_key_binding}
use trustplane_auth_sdk_pyth.Signing.{
  PassportBinding, binding_required, check_claims, validate_passport_binding,
}

-- A claim that is present, with no blanks around it.
abbrev pub IsCanonical : Text → Type 0
IsCanonical value = (value ≢ []) × (value ≡ strip value)

is_empty-strip : (value : Text) → is_empty (strip value) ≡ false → value ≢ []
is_empty-strip [] h = unfold strip in cc
is_empty-strip (c ∷ value) h = cc

pub check_claims_sound :
    (m n : Text) (es : List (Text × Text))
    → check_claims m n es ≡ ok tt
    → All (λ e. IsCanonical e.1) es
unfolding check_claims
check_claims_sound m n [] h = tt
check_claims_sound m n ((name, value) ∷ es) h =
    let (_, present, h1) = >>=-eq-ok (raise_if (is_empty (strip value)) (m ++ name)) _ h in
    let (_, exact, h2) =
      >>=-eq-ok (raise_if (not (text_eq value (strip value))) (n ++ name)) _ h1 in
    (
      (
        is_empty-strip value (raise_if-eq-ok _ _ present),
        ground (arith, raise_if-eq-ok _ _ exact, text_eq_iff value (strip value)),
      ),
      check_claims_sound m n es h2,
    )

strip_of_canonical : (value : Text) → IsCanonical value → is_empty (strip value) ≡ false
strip_of_canonical [] (h, _) = absurd (h refl)
strip_of_canonical (c ∷ value) (_, e) = rw (← e)

check_claims_complete :
    (m n : Text) (es : List (Text × Text))
    → All (λ e. IsCanonical e.1) es
    → check_claims m n es ≡ ok tt
unfolding check_claims
check_claims_complete m n [] h = refl
check_claims_complete m n ((name, value) ∷ es) (p, h) =
    rw (strip_of_canonical value p, (text_eq_iff value (strip value)).1 p.1)
      (check_claims_complete m n es h)

module _ ⦃c : Crypto⦄ where
  -- A passport that is accepted names every claim canonically, is bound in software, and holds
  -- the public key of the very private key that signs, spelled canonically.
  pub validate_passport_binding_sound :
      (claims : PassportBinding) (k : PrivateKey)
      → validate_passport_binding claims k ≡ ok tt
      → All (λ e. IsCanonical e.1) (binding_required claims)
        × (claims.key_binding ≡ software_key_binding)
        × (claims.public_key_b64url ≡ b64url (c.raw_public_key k))
  unfolding validate_passport_binding
  validate_passport_binding_sound claims k h =
      let (_, filled, h1) = >>=-eq-ok (check_claims _ _ (binding_required claims)) _ h in
      let (_, software, h2) =
        >>=-eq-ok (raise_if (not (text_eq claims.key_binding software_key_binding)) _) _ h1 in
      let (public, decoded, h3) =
        >>=-eq-ok (decode_canonical_base64url claims.public_key_b64url _) _ h2 in
      let (_, sized, h4) = >>=-eq-ok (raise_if (not (length public == 32)) _) _ h3 in
      let same : public ≡ c.raw_public_key k =
        (text_eq_iff public (c.raw_public_key k)).0 (ground (arith, raise_if-eq-ok _ _ h4)) in
      (
        check_claims_sound (codes "passport_missing_") (codes "passport_non_canonical_")
            (binding_required claims) filled,
        ground (
          arith,
          raise_if-eq-ok _ _ software,
          text_eq_iff claims.key_binding software_key_binding,
        ),
        decode_canonical_sound _ _ _ decoded ∙ ap b64url same,
      )

module _ ⦃c : Crypto⦄ (laws : CryptoLaws c) where
  -- Every passport that names each claim canonically, is bound in software and holds the public
  -- key of the private key is accepted, if public keys are 32 bytes.
  pub validate_passport_binding_complete :
      (claims : PassportBinding) (k : PrivateKey)
      → All (λ e. IsCanonical e.1) (binding_required claims)
      → claims.key_binding ≡ software_key_binding
      → claims.public_key_b64url ≡ b64url (c.raw_public_key k)
      → validate_passport_binding claims k ≡ ok tt
  unfolding validate_passport_binding
  validate_passport_binding_complete claims k filled software same =
      rw
        (
          check_claims_complete (codes "passport_missing_") (codes "passport_non_canonical_")
              (binding_required claims) filled,
          (text_eq_iff claims.key_binding software_key_binding).1 software,
        )
        (rw (decoded, laws.public_length k, text_eq_refl (c.raw_public_key k)))
    where
      decoded :
          decode_canonical_base64url claims.public_key_b64url (codes "cnf_public_key_b64url")
          ≡ ok (c.raw_public_key k)
      decoded =
          ap (λ v. decode_canonical_base64url v (codes "cnf_public_key_b64url")) same
          ∙ decode_canonical-b64url (c.raw_public_key k) _ (laws.public_bytes k)
