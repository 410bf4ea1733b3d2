-- ===== src/Tests/Enrolled.antt =====
-- The theorems on `enroll` at a run: a challenge, a submission, one round of polling, and an active key.
use trustplane_auth_sdk_pyth.Base.{
  ◌∙◌, if◌then◌else◌, ℕ, zero, suc, ◌+◌, ◌*◌, ◌≤◌, ◌<◌, ◌≡◌, refl, [], ◌∷◌, ◌++◌, map, arith, Bytes,
  Option, none, some, ok, err, true, false,
}
use trustplane_auth_sdk_pyth.Base.Int.{pos}
use trustplane_auth_sdk_pyth.Text.{text_eq_iff, codes, text_eq, strip}
use trustplane_auth_sdk_pyth.Json.{Json, str, dict, end, field}
use trustplane_auth_sdk_pyth.Platform.{Platform, ParsedUrl, ascii_lower, ascii_upper}
use trustplane_auth_sdk_pyth.Base64.{replicate}
use trustplane_auth_sdk_pyth.Enrollment.Validate.{EnrollmentChallenge, validate_challenge}
use trustplane_auth_sdk_pyth.Enrollment.Status.{EnrollmentResult}
use trustplane_auth_sdk_pyth.Enrollment.Environment.{
  Action, raise, plain_error, Environment, EnvironmentLaws, response, return,
}
use trustplane_auth_sdk_pyth.Enrollment.Http.{control_url}
use trustplane_auth_sdk_pyth.Enrollment.Client.{
  EnrollmentProof, EnrollmentOptions, enroll, int_part,
}
use trustplane_auth_sdk_pyth.Enrollment.Timing.{Ends, IsTame, IsTame-return}
use trustplane_auth_sdk_pyth.Enrollment.Termination.{least_delay}
use trustplane_auth_sdk_pyth.Enrollment.Completion.{enroll-Ends}
use trustplane_auth_sdk_pyth.Enrollment.Calls.{CallLaws, Uses, Uses-return}
use trustplane_auth_sdk_pyth.Enrollment.Attempts.{enroll-calls}
use trustplane_auth_sdk_pyth.Enrollment.Challenge.{validate_challenge_sound}
use trustplane_auth_sdk_pyth.Enrollment.Provider.{with_provider, enroll-with_provider}
use trustplane_auth_sdk_pyth.Tests.{toy_crypto}

abbrev control_base : ParsedUrl
control_base = record {
  scheme = codes "https";
  netloc = codes "c";
  path = [];
  params = [];
  query = [];
  fragment = [];
  username = none;
  password = none;
}

-- The answers, by the number of the call.
abbrev answers : Bytes → Option Json
answers (zero ∷ b) = some (
    dict (
      field (codes "challenge_id") (str (codes "c1")) (
        field (codes "nonce") (str (codes "n1")) (
          field (codes "enrollment_policy_ref") (str (codes "p1")) (
            field (codes "source_kind") (str (codes "aws_ec2_iid")) (
              field (codes "source_revision_id") (str (codes "r1")) (
                field (codes "required_proof_encoding") (str (codes "aws_iid_base64"))
                  (field (codes "poll_capability") (str (codes "poll")) end))))))))
answers (suc zero ∷ b) = some (
    dict (
      field (codes "request_id") (str (codes "q1"))
        (field (codes "status") (str (codes "pending")) end)))
answers b = some (dict (field (codes "runtime_activation_status") (str (codes "active")) end))

instance abbrev control_platform : Platform
control_platform = record {
  sha256_hex = λ b. replicate 64 b'0';
  lower = map ascii_lower;
  upper = map ascii_upper;
  urlparse = λ url. ok control_base;
  urlunparse = λ scheme netloc path params query fragment. scheme ++ codes "://" ++ netloc ++ path;
  json_loads = λ b. err [];
  json_dumps = λ v. codes "{}";
  json_loads_bytes = answers;
  json_dumps_ascii = λ v. codes "{}";
  parse_int = λ s. none;
  parse_http_date = λ s. none;
}

-- The time and the number of calls: a call takes a microsecond.
abbrev World : Type 0
World = ℕ × ℕ

instance abbrev control_plane : Environment World
control_plane = record {
  monotonic = λ w. (w.0, w);
  utc_now = λ w. (pos w.0, w);
  sleep = λ d w. (w.0 + d, w.1);
  transport = λ r t w.
      (response (record { status = 200; headers = []; body = w.1 ∷ [] }), (w.0 + 1, w.1 + 1));
}

abbrev control_laws : EnvironmentLaws control_plane
control_laws = record {
  clock = λ w. w.0;
  monotonic-clock = λ w. (omega arith, omega arith);
  utc_now-clock = λ w. omega arith;
  sleep-clock = λ d w. omega arith;
  transport-clock = λ r t w. omega arith;
}

abbrev call_laws : CallLaws control_plane
call_laws = record {
  calls = λ w. w.1;
  monotonic-calls = λ w. refl;
  utc_now-calls = λ w. refl;
  sleep-calls = λ d w. refl;
  transport-calls = λ r t w. refl;
}

abbrev toy_options : EnrollmentOptions World
toy_options = record {
  control_url = codes "https://c";
  enrollment_policy_ref = codes "p1";
  provider = codes "aws_ec2_iid";
  private_key = record { seed = replicate 32 7 };
  proof_provider =
      λ challenge. return (record { encoding = codes "aws_iid_base64"; value = str (codes "doc") });
  wait_for_activation = true;
  no_wait_for_activation = false;
  poll_interval = pos 1_000_000;
  timeout = pos 3_000_000;
  submit_attempts = 2;
  client_metadata = none;
}

abbrev enrolled : EnrollmentResult
enrolled = record {
  request_id = codes "q1";
  status = codes "active";
  decision_status = [];
  runtime_activation_status = codes "active";
  key_id = [];
  key_fingerprint = codes "sha256:" ++ replicate 64 b'0';
  expires_at = [];
  target_configuration_version = pos 0;
}

provider-IsTame :
    (challenge : EnrollmentChallenge)
    → IsTame control_laws.clock (toy_options.proof_provider challenge)
provider-IsTame challenge = IsTame-return control_laws.clock _

provider-Uses :
    (challenge : EnrollmentChallenge)
    → Uses call_laws.calls 0 (toy_options.proof_provider challenge)
provider-Uses challenge = Uses-return call_laws.calls 0 _

enough_rounds : int_part toy_options.timeout < 4 * least_delay (int_part toy_options.poll_interval)
enough_rounds = omega arith

enroll-Ends_example : Ends control_laws.clock (0, 0) (enroll 5 toy_options (0, 0))
enroll-Ends_example = enroll-Ends control_laws 4 toy_options (0, 0) provider-IsTame enough_rounds

enroll-calls_example :
    call_laws.calls (enroll 5 toy_options (0, 0)).1
    ≤ call_laws.calls (0, 0) + (1 + (toy_options.submit_attempts + 5))
enroll-calls_example = enroll-calls call_laws 5 toy_options (0, 0) provider-Uses

-- A provider that answers the challenges of its own source alone.
abbrev careful_provider : EnrollmentChallenge → Action World EnrollmentProof
careful_provider challenge =
    if text_eq challenge.source_kind (codes "aws_ec2_iid")
    then toy_options.proof_provider challenge
    else raise (plain_error (codes "unknown_source"))

own_source : control_platform.lower (strip toy_options.provider) ≡ codes "aws_ec2_iid"
unfolding codes strip
own_source = refl

same-providers :
    (challenge : EnrollmentChallenge)
    → validate_challenge challenge toy_options.enrollment_policy_ref
        (control_platform.lower (strip toy_options.provider))
      ≡ ok tt
    → toy_options.proof_provider challenge ≡ careful_provider challenge
same-providers challenge valid =
    let (exact_values, policy, source, encoding) = validate_challenge_sound challenge _ _ valid in
    let known : text_eq challenge.source_kind (codes "aws_ec2_iid") ≡ true =
      (text_eq_iff _ _).1 (source ∙ own_source) in
    rw known refl

enroll-with_provider_example :
    enroll 5 toy_options (0, 0) ≡ enroll 5 (with_provider toy_options careful_provider) (0, 0)
enroll-with_provider_example =
    enroll-with_provider 5 toy_options careful_provider (0, 0) same-providers
