-- ===== src/Enrollment/Client.antt =====
-- `EnrollmentClient`: the submission of a proof, the polling of the status and `enroll`.
mod Options
unfoldable pub use Options.*
use trustplane_auth_sdk_pyth.Base.{
  ℕ, zero, suc, ◌+◌, ◌*◌, ◌^◌, Bool, not, ◌&&◌, ◌||◌, Option, none, some, List, [], ◌∷◌, ◌++◌, Text,
  Bytes, ltb, leb, ◌==◌, if◌then◌else◌, Result, ok, err,
}
use trustplane_auth_sdk_pyth.Base.Int.{ℤ, pos, int_leb}
use trustplane_auth_sdk_pyth.Text.{codes, text_eq, is_empty, mem_text, strip}
use trustplane_auth_sdk_pyth.Text.Utf8.{encode}
use trustplane_auth_sdk_pyth.Json.{Json, null, str, dict, Fields, end, field, get}
use trustplane_auth_sdk_pyth.Platform.{Platform}
use trustplane_auth_sdk_pyth.Crypto.{Crypto, PrivateKey}
use trustplane_auth_sdk_pyth.Base64.{b64url}
use trustplane_auth_sdk_pyth.Query.Percent.{encode_rfc3986}
use trustplane_auth_sdk_pyth.Enrollment.Validate.{
  EnrollmentChallenge, read_challenge, exact, expected_proof_encoding, validate_challenge,
}
use trustplane_auth_sdk_pyth.Enrollment.Status.{
  first, terminal, failed, normalize_status, EnrollmentResult, result_of,
}
use trustplane_auth_sdk_pyth.Enrollment.Environment.{
  Failure, enrollment_error, overflow_error, unfinished, Environment, Action, return, raise, pure,
  ◌>>=◌, ◌>>◌, try_except, raise_when, plain_error,
}
use trustplane_auth_sdk_pyth.Enrollment.Http.{
  enrollment_challenge_path, enrollment_submission_path, enrollment_status_path, control_url,
  read_clock, call_json, wait, value_errors,
}

module _ {W : Type 0} ⦃p : Platform⦄ ⦃e : Environment W⦄ where
  -- A status that was read.
  unfoldable pub read_round : ℕ → Fields → Action W Round
  unfolding normalize_status terminal
  read_round interval raw =
      let status = normalize_status raw in
      if terminal status then return (settled status) else return (later interval 0)

  -- The body of the loop of `_poll`, up to its wait.
  unfoldable pub poll_round : Text → Text → Text → ℕ → ℕ → ℕ → Action W Round
  unfolding on_throttle read_round
  poll_round base request_id capability interval deadline attempt =
      try_except
        (pure (value_errors (encode_rfc3986 request_id)) >>= λ quoted.
          call_json (codes "GET") base (enrollment_status_path ++ quoted) none capability deadline
          >>= read_round interval)
        (on_throttle interval attempt)

  -- The end of a round: the loop is left, or goes on after a wait.
  unfoldable pub next_round : ℕ → (ℕ → Action W Fields) → Round → Action W Fields
  unfolding wait
  next_round deadline again (settled status) = return status
  next_round deadline again (later delay attempt) = wait delay deadline >> again attempt

  -- `_poll`, for as many rounds as the first argument says.
  unfoldable pub poll : ℕ → Text → Text → Text → ℕ → ℕ → ℕ → Action W Fields
  unfolding poll_round next_round
  poll zero base request_id capability interval deadline attempt = raise unfinished
  poll (suc rounds) base request_id capability interval deadline attempt =
      poll_round base request_id capability interval deadline attempt
      >>= next_round deadline (poll rounds base request_id capability interval deadline)

  -- The loop over the attempts to submit: those that are left, and those that were made.
  unfoldable pub submit : ℕ → ℕ → ℕ → Text → Json → ℕ → Action W Fields
  unfolding call_json wait on_submit_failure
  submit zero attempt attempts base submission deadline =
      raise (plain_error (codes "control_unavailable"))
  submit (suc left) attempt attempts base submission deadline =
      try_except
        (call_json (codes "POST") base enrollment_submission_path (some submission) [] deadline)
        (on_submit_failure attempt attempts (
          wait ((attempt + 1) * 100_000) deadline
          >> submit left (attempt + 1) attempts base submission deadline))

  -- The end of `enroll`.
  unfoldable pub finish : Text → Bytes → Fields → Action W EnrollmentResult
  unfolding failed result_of
  finish request_id public_key status =
      let result = result_of request_id status public_key in
      if failed result then raise (plain_error result.status) else return result

  -- `enroll` from the status that the submission is answered with.
  unfoldable pub await_status :
      ℕ → EnrollmentOptions W → Text → EnrollmentChallenge → ℕ → Text → Fields → Action W Fields
  unfolding poll terminal
  await_status rounds options base challenge deadline request_id status =
      if (options.wait_for_activation || not options.no_wait_for_activation)
        && not (terminal status)
      then try_except
          (poll rounds base request_id challenge.poll_capability (int_part options.poll_interval)
            deadline 0)
          (on_poll_timeout request_id)
      else return status

  module _ ⦃c : Crypto⦄ where
    open c use {raw_public_key, sign}

    -- `enroll` from its reading of the clock.
    unfoldable pub enroll_until :
        ℕ → EnrollmentOptions W → Text → Text → ℕ → Action W EnrollmentResult
    unfolding submit await_status finish read_challenge validate_challenge request_id_of
    enroll_until rounds options base provider deadline = do
      let public_key = raw_public_key options.private_key
      let policy = options.enrollment_policy_ref
      raw ←
          call_json (codes "POST") base enrollment_challenge_path
            (some (challenge_body policy public_key options.client_metadata)) [] deadline
      let challenge = read_challenge raw
      pure (coded (validate_challenge challenge policy provider))
      proof ← options.proof_provider challenge
      raise_when
          (not (text_eq proof.encoding challenge.required_proof_encoding) || is_null proof.value)
          (plain_error (codes "enrollment_required_proof_encoding_mismatch"))
      let signature =
          sign options.private_key
            (enrollment_pop_transcript challenge.challenge_id challenge.nonce policy public_key)
      answer ←
          submit options.submit_attempts 0 options.submit_attempts base
            (submission_of challenge proof (b64url signature)) deadline
      let status = normalize_status answer
      let request_id = request_id_of status
      raise_when (is_empty request_id) (plain_error (codes "malformed_enrollment_submission"))
      final ← await_status rounds options base challenge deadline request_id status
      finish request_id public_key final

    -- `enroll` behind the checks of its options.
    unfoldable pub enroll_checked :
        ℕ → EnrollmentOptions W → Text → Text → Action W EnrollmentResult
    unfolding read_clock enroll_until
    enroll_checked rounds options base provider = do
      now ← read_clock
      enroll_until rounds options base provider (now + int_part options.timeout)

    -- `EnrollmentClient.enroll`, with a bound on the rounds of `_poll`.
    unfoldable pub enroll : ℕ → EnrollmentOptions W → Action W EnrollmentResult
    unfolding check_options enroll_checked
    enroll rounds options = do
      base ← control_url options.control_url
      let provider = p.lower (strip options.provider)
      check_options options provider
      enroll_checked rounds options base provider
