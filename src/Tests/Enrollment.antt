-- ===== src/Tests/Enrollment.antt =====
-- The theorem on challenges at a concrete challenge.
use trustplane_auth_sdk_pyth.Enrollment.Proofs.{b64encode}
use trustplane_auth_sdk_pyth.Base.{◌≡◌, refl, [], ◌∷◌, All, ok}
use trustplane_auth_sdk_pyth.Text.{codes, strip, text_eq, mem_text}
use trustplane_auth_sdk_pyth.Enrollment.Validate.{
  EnrollmentChallenge, challenge_values, expected_proof_encoding, validate_challenge,
}
use trustplane_auth_sdk_pyth.Enrollment.Challenge.{IsExactText, AsksFor, validate_challenge_sound}

abbrev aws_challenge : EnrollmentChallenge
aws_challenge = record {
  challenge_id = codes "c1";
  nonce = codes "n1";
  enrollment_policy_ref = codes "p1";
  source_kind = codes "aws_ec2_iid";
  source_revision_id = codes "r1";
  required_proof_encoding = codes "aws_iid_base64";
  poll_capability = codes "poll";
  expires_at = [];
  proof_mode = [];
  expected_audience = [];
}

aws-passed : validate_challenge aws_challenge (codes "p1") (codes "aws_ec2_iid") ≡ ok tt
unfolding validate_challenge codes strip text_eq expected_proof_encoding mem_text
aws-passed = refl

validate_challenge_sound_example :
    All IsExactText (challenge_values aws_challenge)
    × (aws_challenge.enrollment_policy_ref ≡ codes "p1")
    × (aws_challenge.source_kind ≡ codes "aws_ec2_iid")
    × AsksFor (codes "aws_ec2_iid") [] (codes "aws_iid_base64") []
validate_challenge_sound_example =
    validate_challenge_sound aws_challenge (codes "p1") (codes "aws_ec2_iid") aws-passed

-- Texts of the three lengths, with their padding and the two characters that the alphabets differ in.
b64encode-one : b64encode (codes "f") ≡ codes "Zg=="
unfolding b64encode codes
b64encode-one = refl

b64encode-two : b64encode (251 ∷ 255 ∷ []) ≡ codes "+/8="
unfolding b64encode codes
b64encode-two = refl

b64encode-three : b64encode (codes "foo") ≡ codes "Zm9v"
unfolding b64encode codes
b64encode-three = refl
