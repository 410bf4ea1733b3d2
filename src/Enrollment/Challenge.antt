-- ===== src/Enrollment/Challenge.antt =====
-- The challenges that `_validate_challenge` lets through.
use trustplane_auth_sdk_pyth.Base.{
  ◌≡◌, ◌≢◌, refl, true, false, not, ◌||◌, List, [], ◌∷◌, arith, Text, All, any, Bool-cases, inl,
  inr, ok, >>=-eq-ok, raise_if, raise_if-eq-ok,
}
use trustplane_auth_sdk_pyth.Text.{codes, text_eq, text_eq_iff, mem_text, is_empty, strip}
use trustplane_auth_sdk_pyth.Enrollment.Validate.{
  EnrollmentChallenge, exact, challenge_values, jwt_providers, expected_proof_encoding, check_azure,
  validate_challenge,
}

-- A text that is there and has no blanks around it.
abbrev pub IsExactText : Text → Type 0
IsExactText value = (value ≢ []) × (value ≡ strip value)

-- The encoding that a provider and a mode of proof call for, and whether there is an audience.
pub data AsksFor (provider mode encoding audience : Text) : Type 0 where
  token :
      mem_text provider jwt_providers ≡ true
      → mode ≡ []
      → encoding ≡ codes "jwt_compact"
      → AsksFor provider mode encoding audience
  aws :
      provider ≡ codes "aws_ec2_iid"
      → mode ≡ []
      → encoding ≡ codes "aws_iid_base64"
      → AsksFor provider mode encoding audience
  azure_token :
      provider ≡ codes "azure_instance_identity"
      → mode ≡ codes "managed_identity_jwt"
      → encoding ≡ codes "jwt_compact"
      → IsExactText audience
      → AsksFor provider mode encoding audience
  azure_document :
      provider ≡ codes "azure_instance_identity"
      → mode ≡ codes "imds_attested_document"
      → encoding ≡ codes "azure_imds_attested_document_base64"
      → audience ≡ []
      → AsksFor provider mode encoding audience

exact-eq-true : (value : Text) → exact value ≡ true → IsExactText value
exact-eq-true [] h = cc
exact-eq-true (c ∷ value) h = (cc, ground (arith, text_eq_iff (c ∷ value) (strip (c ∷ value))))

All-exact :
    (values : List Text) → any (λ value. not (exact value)) values ≡ false → All IsExactText values
All-exact [] h = tt
All-exact (value ∷ values) h = (exact-eq-true value (ground arith), All-exact values (ground arith))

empty_of : (value : Text) → not (is_empty value) ≡ false → value ≡ []
empty_of [] h = refl
empty_of (c ∷ value) h = cc

both_of : (a b c d : Text) → (not (text_eq a b) || not (text_eq c d)) ≡ false → (a ≡ b) × (c ≡ d)
both_of a b c d h = ((text_eq_iff a b).0 (ground arith), (text_eq_iff c d).0 (ground arith))

refused_only : {P : Type 0} {exc : Text} → raise_if true exc ≡ ok tt → P
refused_only h = cc

azure_asks :
    (c : EnrollmentChallenge) (provider : Text)
    → provider ≡ codes "azure_instance_identity"
    → check_azure c ≡ ok tt
    → AsksFor provider c.proof_mode c.required_proof_encoding c.expected_audience
unfolding check_azure
azure_asks c provider azure h =
    elim (Bool-cases (text_eq c.proof_mode (codes "managed_identity_jwt"))) [
      | inl jwt ↦
          let passed = raise_if-eq-ok _ _ (rw jwt at h) in
          azure_token azure ((text_eq_iff _ _).0 jwt)
            ((text_eq_iff c.required_proof_encoding (codes "jwt_compact")).0 (ground arith))
            (exact-eq-true c.expected_audience (ground arith))
      | inr other ↦ elim (Bool-cases (text_eq c.proof_mode (codes "imds_attested_document"))) [
        | inl document ↦
            let passed = raise_if-eq-ok _ _ (rw (other, document) at h) in
            azure_document azure ((text_eq_iff _ _).0 document)
              ((text_eq_iff c.required_proof_encoding
                  (codes "azure_imds_attested_document_base64")).0
                (ground arith))
              (empty_of c.expected_audience (ground arith))
        | inr neither ↦ refused_only (rw (other, neither) at h)
      ]
    ]

unused_of :
    (mode a b : Text) → (not (is_empty mode) || not (text_eq a b)) ≡ false → (mode ≡ []) × (a ≡ b)
unused_of mode a b h = (empty_of mode (ground arith), (text_eq_iff a b).0 (ground arith))

plain_asks :
    (c : EnrollmentChallenge) (provider : Text)
    → c.proof_mode ≡ []
    → c.required_proof_encoding ≢ []
    → c.required_proof_encoding ≡ expected_proof_encoding provider
    → AsksFor provider c.proof_mode c.required_proof_encoding c.expected_audience
unfolding expected_proof_encoding
plain_asks c provider mode filled h = elim (Bool-cases (mem_text provider jwt_providers)) [
  | inl jwt ↦ token jwt mode (rw jwt at h)
  | inr other ↦ elim (Bool-cases (text_eq provider (codes "aws_ec2_iid"))) [
    | inl is_aws ↦ aws ((text_eq_iff _ _).0 is_aws) mode (rw (other, is_aws) at h)
    | inr neither ↦ absurd (filled (rw (other, neither) at h))
  ]
]

-- A challenge that is let through holds its seven values with no blanks around them, is for the
-- policy and the provider of the enrolment, and asks for the encoding, the mode and the audience
-- of the provider.
pub validate_challenge_sound :
    (c : EnrollmentChallenge) (policy provider : Text)
    → validate_challenge c policy provider ≡ ok tt
    → All IsExactText (challenge_values c)
      × (c.enrollment_policy_ref ≡ policy)
      × (c.source_kind ≡ provider)
      × AsksFor provider c.proof_mode c.required_proof_encoding c.expected_audience
unfolding validate_challenge
validate_challenge_sound c policy provider h =
    let (_, exact_values, h1) =
      >>=-eq-ok (raise_if (any (λ value. not (exact value)) (challenge_values c)) _) _ h in
    let (_, sourced, h2) =
      >>=-eq-ok
        (raise_if
          (not (text_eq c.enrollment_policy_ref policy) || not (text_eq c.source_kind provider)) _)
        _ h1 in
    let values = All-exact (challenge_values c) (raise_if-eq-ok _ _ exact_values) in
    let (policed, provided) =
      both_of c.enrollment_policy_ref policy c.source_kind provider (raise_if-eq-ok _ _ sourced) in
    (
      values,
      policed,
      provided,
      elim (Bool-cases (text_eq provider (codes "azure_instance_identity"))) [
        | inl azure ↦ azure_asks c provider ((text_eq_iff _ _).0 azure) (rw azure at h2)
        | inr other ↦
            let (mode, encoding) =
              unused_of c.proof_mode c.required_proof_encoding (expected_proof_encoding provider)
                (raise_if-eq-ok _ _ (rw other at h2)) in
            plain_asks c provider mode values.1.1.1.1.1.0.0 encoding
      ],
    )
