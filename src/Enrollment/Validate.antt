-- ===== src/Enrollment/Validate.antt =====
-- src/trustplane_auth/enrollment.py: the challenge that a control plane answers an enrolment with.
use trustplane_auth_sdk_pyth.Base.{
  Bool, not, ◌&&◌, ◌||◌, List, [], ◌∷◌, Text, any, if◌then◌else◌, Result, err, ◌>>◌, raise_if,
}
use trustplane_auth_sdk_pyth.Text.{codes, text_eq, mem_text, is_empty, strip}
use trustplane_auth_sdk_pyth.Json.{Json, str, Fields, get}

pub record EnrollmentChallenge : Type 0 where
  pub challenge_id : Text
  pub nonce : Text
  pub enrollment_policy_ref : Text
  pub source_kind : Text
  pub source_revision_id : Text
  pub required_proof_encoding : Text
  pub poll_capability : Text
  pub expires_at : Text
  pub proof_mode : Text
  pub expected_audience : Text

-- `_first` of one value.
unfoldable pub first_text : Json → Text
first_text (str s) = strip s
first_text _ = []

-- `_challenge`.
unfoldable pub read_challenge : Fields → EnrollmentChallenge
unfolding first_text get
read_challenge raw = record {
  challenge_id = first_text (get (codes "challenge_id") raw);
  nonce = first_text (get (codes "nonce") raw);
  enrollment_policy_ref = first_text (get (codes "enrollment_policy_ref") raw);
  source_kind = first_text (get (codes "source_kind") raw);
  source_revision_id = first_text (get (codes "source_revision_id") raw);
  required_proof_encoding = first_text (get (codes "required_proof_encoding") raw);
  poll_capability = first_text (get (codes "poll_capability") raw);
  expires_at = first_text (get (codes "expires_at") raw);
  proof_mode = first_text (get (codes "proof_mode") raw);
  expected_audience = first_text (get (codes "expected_audience") raw);
}

-- `_exact`.
abbrev pub exact : Text → Bool
exact value = not (is_empty value) && text_eq value (strip value)

abbrev pub challenge_values : EnrollmentChallenge → List Text
challenge_values c =
    c.challenge_id ∷ c.nonce ∷ c.enrollment_policy_ref ∷ c.source_kind ∷ c.source_revision_id
    ∷ c.required_proof_encoding ∷ c.poll_capability ∷ []

abbrev pub jwt_providers : List Text
jwt_providers =
    codes "oidc_jwks"
    ∷ codes "ci_oidc"
    ∷ codes "spiffe"
    ∷ codes "kubernetes_service_account_oidc"
    ∷ codes "gcp_instance_identity"
    ∷ []

-- `_expected_proof_encoding`.
unfoldable pub expected_proof_encoding : Text → Text
unfolding mem_text
expected_proof_encoding provider =
    if mem_text provider jwt_providers
    then codes "jwt_compact"
    else if text_eq provider (codes "aws_ec2_iid")
    then codes "aws_iid_base64"
    else []

-- What an Azure challenge asks for.
unfoldable pub check_azure : EnrollmentChallenge → Result Text (Unit {0})
check_azure c =
    if text_eq c.proof_mode (codes "managed_identity_jwt")
    then raise_if
        (not (text_eq c.required_proof_encoding (codes "jwt_compact"))
          || not (exact c.expected_audience))
        (codes "malformed_enrollment_challenge")
    else if text_eq c.proof_mode (codes "imds_attested_document")
    then raise_if
        (not (text_eq c.required_proof_encoding (codes "azure_imds_attested_document_base64"))
          || not (is_empty c.expected_audience))
        (codes "malformed_enrollment_challenge")
    else err (codes "unsupported_azure_proof_mode")

-- `_validate_challenge`; the error is the code of the EnrollmentError.
unfoldable pub validate_challenge : EnrollmentChallenge → Text → Text → Result Text (Unit {0})
unfolding check_azure expected_proof_encoding
validate_challenge c policy provider = do
  raise_if (any (λ value. not (exact value)) (challenge_values c))
      (codes "malformed_enrollment_challenge")
  raise_if (not (text_eq c.enrollment_policy_ref policy) || not (text_eq c.source_kind provider))
      (codes "enrollment_provider_source_mismatch")
  if text_eq provider (codes "azure_instance_identity")
      then check_azure c
      else raise_if
          (not (is_empty c.proof_mode)
            || not (text_eq c.required_proof_encoding (expected_proof_encoding provider)))
          (codes "enrollment_required_proof_encoding_mismatch")
