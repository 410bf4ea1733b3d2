-- ===== src/Enrollment/Client/Options.antt =====
-- The options of `EnrollmentClient.enroll`, and what it computes without the environment.
use trustplane_auth_sdk_pyth.Base.{
  ℕ, ◌+◌, ◌*◌, ◌^◌, Bool, not, ◌&&◌, ◌||◌, Option, none, some, List, [], ◌∷◌, ◌++◌, Text, Bytes,
  ltb, leb, ◌==◌, if◌then◌else◌, Result, ok, err,
}
use trustplane_auth_sdk_pyth.Base.Int.{ℤ, pos, int_leb}
use trustplane_auth_sdk_pyth.Text.{codes, text_eq, is_empty, mem_text}
use trustplane_auth_sdk_pyth.Text.Utf8.{encode}
use trustplane_auth_sdk_pyth.Json.{Json, null, str, dict, Fields, end, field, get}
use trustplane_auth_sdk_pyth.Crypto.{PrivateKey}
use trustplane_auth_sdk_pyth.Base64.{b64url}
use trustplane_auth_sdk_pyth.Enrollment.Validate.{
  EnrollmentChallenge, exact, expected_proof_encoding,
}
use trustplane_auth_sdk_pyth.Enrollment.Status.{first}
use trustplane_auth_sdk_pyth.Enrollment.Environment.{
  Failure, enrollment_error, overflow_error, Action, return, raise, ◌>>◌, raise_when, plain_error,
}

pub record EnrollmentProof : Type 0 where
  pub encoding : Text
  pub value : Json

-- The times are in microseconds; the proof provider is code of the caller.
pub record EnrollmentOptions (W : Type 0) : Type 0 where
  pub control_url : Text
  pub enrollment_policy_ref : Text
  pub provider : Text
  pub private_key : PrivateKey
  pub proof_provider : EnrollmentChallenge → Action W EnrollmentProof
  pub wait_for_activation : Bool
  pub no_wait_for_activation : Bool
  pub poll_interval : ℤ
  pub timeout : ℤ
  pub submit_attempts : ℕ
  pub client_metadata : Option Fields

abbrev pub max_poll_delay : ℕ
max_poll_delay = 30_000_000

abbrev pub smaller : ℕ → ℕ → ℕ
smaller a b = if leb a b then a else b

abbrev pub larger : ℕ → ℕ → ℕ
larger a b = if leb a b then b else a

-- What a round of `_poll` ends with: the final status, or the delay and the attempt to go on with.
pub data Round : Type 0 where
  settled : Fields → Round
  later : ℕ → ℕ → Round

-- `max(min(interval * (2**attempt), 30.0), exc.retry_after)`
unfoldable pub backoff : ℕ → ℕ → ℕ → ℕ
backoff interval attempt retry_after =
    larger (smaller (interval * 2 ^ attempt) max_poll_delay) retry_after

-- The product of a float and an `int` of more than 1024 bits raises `OverflowError`.
unfoldable pub on_throttle : {W : Type 0} → ℕ → ℕ → Failure → Action W Round
unfolding backoff
on_throttle interval attempt (enrollment_error code status_code retry_after) =
    if not (status_code == 429)
    then raise (enrollment_error code status_code retry_after)
    else if leb 1024 attempt
    then raise overflow_error
    else return (later (backoff interval attempt retry_after) (attempt + 1))
on_throttle interval attempt failure = raise failure

-- `enrollment_pop_transcript`.
unfoldable pub enrollment_pop_transcript : Text → Text → Text → Bytes → Bytes
enrollment_pop_transcript challenge_id nonce policy_ref public_key = encode (
    codes "trustplane-enrollment-pop-v1"
    ++ (b'\n'
        ∷ (challenge_id
            ++ (b'\n'
                ∷ (nonce
                    ++ (b'\n' ∷ (policy_ref ++ (b'\n' ∷ (b64url public_key ++ b'\n' ∷ [])))))))))

abbrev pub transient_codes : List Text
transient_codes = codes "control_unavailable" ∷ codes "control_transient_failure" ∷ []

abbrev pub challenge_body : Text → Bytes → Option Fields → Json
challenge_body policy public_key metadata = dict (
    field (codes "enrollment_policy_ref") (str policy) (
      field (codes "public_key_b64url") (str (b64url public_key))
        (elim metadata [ none ↦ end | some m ↦ field (codes "client_metadata") (dict m) end ])))

-- The status that a poll that runs out of time is given.
abbrev pub pending_status : Text → Fields
pending_status request_id = field (codes "request_id") (str request_id) (
    field (codes "status") (str (codes "pending"))
      (field (codes "runtime_activation_status") (str (codes "pending")) end))

-- The checks of `enroll` on its options, behind that of the control URL.
unfoldable pub check_options : {W : Type 0} → EnrollmentOptions W → Text → Action W (Unit {0})
unfolding expected_proof_encoding
check_options options provider = do
  raise_when (not (exact options.enrollment_policy_ref))
      (plain_error (codes "control_url_and_policy_required"))
  raise_when
      (is_empty (expected_proof_encoding provider)
        && not (text_eq provider (codes "azure_instance_identity")))
      (plain_error (codes "unsupported_enrollment_provider"))
  raise_when (int_leb options.timeout (pos 0)) (plain_error (codes "invalid_enrollment_timeout"))
  raise_when (int_leb options.poll_interval (pos 0))
      (plain_error (codes "invalid_enrollment_poll_interval"))
  raise_when (ltb options.submit_attempts 1 || ltb 5 options.submit_attempts)
      (plain_error (codes "invalid_enrollment_submit_attempts"))

abbrev pub int_part : ℤ → ℕ
int_part (pos n) = n
int_part _ = 0

-- `except EnrollmentError` with a code other than `enrollment_timeout` raises again.
abbrev pub on_poll_timeout : {W : Type 0} → Text → Failure → Action W Fields
on_poll_timeout request_id (enrollment_error code status_code retry_after) =
    if text_eq code (codes "enrollment_timeout")
    then return (pending_status request_id)
    else raise (enrollment_error code status_code retry_after)
on_poll_timeout request_id failure = raise failure

abbrev pub is_null : Json → Bool
is_null null = Bool.true
is_null _ = Bool.false

-- `ValueError`s of the pure checks have the code as their message.
abbrev pub coded {ℓ} : {A : Type ℓ} → Result Text A → Result Failure A
coded (ok a) = ok a
coded (err code) = err (plain_error code)

-- The submission.
abbrev pub submission_of : EnrollmentChallenge → EnrollmentProof → Text → Json
submission_of challenge proof signature = dict (
    field (codes "challenge_id") (str challenge.challenge_id) (
      field (codes "nonce") (str challenge.nonce) (
        field (codes "proof") proof.value (
          field (codes "proof_encoding") (str proof.encoding)
            (field (codes "pop_signature_b64url") (str signature) end)))))

-- `except EnrollmentError` of the submission: what is not transient, or the last, is raised again.
unfoldable pub on_submit_failure :
    {W : Type 0} → ℕ → ℕ → Action W Fields → Failure → Action W Fields
unfolding mem_text
on_submit_failure attempt attempts again (enrollment_error code status_code retry_after) =
    if not (mem_text code transient_codes) || attempt + 1 == attempts
    then raise (enrollment_error code status_code retry_after)
    else again
on_submit_failure attempt attempts again failure = raise failure

-- `_first(status.get("request_id"), status.get("id"))`
unfoldable pub request_id_of : Fields → Text
unfolding first get
request_id_of status = first (get (codes "request_id") status ∷ get (codes "id") status ∷ [])
