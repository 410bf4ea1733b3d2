-- ===== src/Enrollment/Proofs.antt =====
-- The proofs that the providers of an enrolment make.
use trustplane_auth_sdk_pyth.Base.{ℕ, map, Text, Bytes, ◌==◌, if◌then◌else◌}
use trustplane_auth_sdk_pyth.Text.{codes, strip}
use trustplane_auth_sdk_pyth.Json.{str, dict, Fields, end, field}
use trustplane_auth_sdk_pyth.Base64.{urlsafe_b64encode}
use trustplane_auth_sdk_pyth.Enrollment.Client.{EnrollmentProof}

-- A character of the standard alphabet for one of the URL-safe alphabet.
abbrev standard_char : ℕ → ℕ
standard_char c = if c == b'-' then b'+' else if c == b'_' then b'/' else c

-- `base64.b64encode(b).decode()`: the URL-safe encoding in the standard alphabet.
unfoldable pub b64encode : Bytes → Text
unfolding urlsafe_b64encode
b64encode b = map standard_char (urlsafe_b64encode b)

unfoldable pub jwt_enrollment_proof : Text → EnrollmentProof
jwt_enrollment_proof token = record { encoding = codes "jwt_compact"; value = str (strip token) }

unfoldable pub aws_iid_enrollment_proof : Bytes → Bytes → EnrollmentProof
unfolding b64encode
aws_iid_enrollment_proof document signature = record {
  encoding = codes "aws_iid_base64";
  value = dict (
      field (codes "document_b64") (str (b64encode document))
        (field (codes "signature_b64") (str (b64encode signature)) end));
}

unfoldable pub azure_imds_enrollment_proof : Bytes → Fields → EnrollmentProof
unfolding b64encode
azure_imds_enrollment_proof pkcs7 compute_metadata = record {
  encoding = codes "azure_imds_attested_document_base64";
  value = dict (
      field (codes "pkcs7_b64") (str (b64encode pkcs7))
        (field (codes "compute_metadata") (dict compute_metadata) end));
}
