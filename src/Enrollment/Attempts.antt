-- ===== src/Enrollment/Attempts.antt =====
-- The calls of the transport that an enrolment makes.
use trustplane_auth_sdk_pyth.Base.{
  ℕ, zero, suc, ◌+◌, ◌*◌, ◌≤◌, ◌++◌, none, some, List, [], arith, Text,
}
use trustplane_auth_sdk_pyth.Text.{codes}
use trustplane_auth_sdk_pyth.Json.{Json, Fields}
use trustplane_auth_sdk_pyth.Platform.{Platform}
use trustplane_auth_sdk_pyth.Crypto.{Crypto}
use trustplane_auth_sdk_pyth.Enrollment.Validate.{EnrollmentChallenge}
use trustplane_auth_sdk_pyth.Enrollment.Status.{normalize_status, terminal}
use trustplane_auth_sdk_pyth.Enrollment.Environment.{
  Failure, enrollment_error, value_error, overflow_error, unfinished, Environment, Action, return,
  pure, ◌>>=◌, ◌>>◌, try_except,
}
use trustplane_auth_sdk_pyth.Enrollment.Http.{
  value_errors, call_json, wait, enrollment_submission_path, enrollment_status_path,
}
use trustplane_auth_sdk_pyth.Query.Percent.{encode_rfc3986}
use trustplane_auth_sdk_pyth.Enrollment.Client.{
  EnrollmentOptions, Round, settled, later, on_throttle, read_round, next_round, poll_round, poll,
  on_poll_timeout, submit, on_submit_failure, await_status, finish, enroll_checked, enroll_until,
  enroll, check_options, int_part,
}
use trustplane_auth_sdk_pyth.Enrollment.Calls.{
  CallLaws, Uses, Uses-then, Uses-bind, Uses-last, Uses-try_except, Uses-at_most, Uses-pure,
  Uses-return, Uses-raise, Uses-raise_when, Uses-if, call_json-Uses, control_url-Uses, wait-Uses,
  read_clock-Uses,
}

module _ {W : Type 0} (calls : W → ℕ) where
  on_throttle-Uses :
      (interval attempt : ℕ) (failure : Failure)
      → Uses calls 0 (on_throttle interval attempt failure)
  unfolding on_throttle
  on_throttle-Uses interval attempt (enrollment_error code status_code retry) =
      search (Uses-if, Uses-raise, Uses-return)
  on_throttle-Uses interval attempt (value_error m) = Uses-raise calls 0 _
  on_throttle-Uses interval attempt overflow_error = Uses-raise calls 0 _
  on_throttle-Uses interval attempt unfinished = Uses-raise calls 0 _

  on_submit_failure-Uses :
      (n attempt attempts : ℕ) (again : Action W Fields) (failure : Failure)
      → Uses calls n again
      → Uses calls n (on_submit_failure attempt attempts again failure)
  unfolding on_submit_failure
  on_submit_failure-Uses n attempt attempts again (enrollment_error code status_code retry) h =
      search (Uses-if, Uses-raise)
  on_submit_failure-Uses n attempt attempts again (value_error m) h = Uses-raise calls n _
  on_submit_failure-Uses n attempt attempts again overflow_error h = Uses-raise calls n _
  on_submit_failure-Uses n attempt attempts again unfinished h = Uses-raise calls n _

  on_poll_timeout-Uses :
      (request_id : Text) (failure : Failure) → Uses calls 0 (on_poll_timeout request_id failure)
  on_poll_timeout-Uses request_id (enrollment_error code status_code retry) =
      search (Uses-if, Uses-raise, Uses-return)
  on_poll_timeout-Uses request_id (value_error m) = Uses-raise calls 0 _
  on_poll_timeout-Uses request_id overflow_error = Uses-raise calls 0 _
  on_poll_timeout-Uses request_id unfinished = Uses-raise calls 0 _

module _ {W : Type 0} ⦃p : Platform⦄ ⦃e : Environment W⦄ (laws : CallLaws e) where
  open laws use {calls}

  submit-Uses :
      (left attempt attempts : ℕ) (base : Text) (submission : Json) (deadline : ℕ)
      → Uses calls left (submit left attempt attempts base submission deadline)
  unfolding submit
  submit-Uses zero attempt attempts base submission deadline = Uses-raise calls 0 _
  submit-Uses (suc left) attempt attempts base submission deadline =
      let delay = (attempt + 1) * 100_000 in
      let rest = submit left (attempt + 1) attempts base submission deadline in
      Uses-at_most calls (1 + left) (suc left) _ (omega arith) (
        Uses-try_except calls 1 left
          (call_json (codes "POST") base enrollment_submission_path (some submission) [] deadline)
          (on_submit_failure attempt attempts (wait delay deadline >> rest))
          (call_json-Uses laws (codes "POST") base enrollment_submission_path (some submission) []
            deadline)
          (λ failure.
            on_submit_failure-Uses calls left attempt attempts (wait delay deadline >> rest) failure
              (Uses-then calls left (wait delay deadline) (λ done. rest)
                (wait-Uses laws delay deadline)
                (λ done. submit-Uses left (attempt + 1) attempts base submission deadline))))

  poll_round-Uses :
      (base request_id capability : Text) (interval deadline attempt : ℕ)
      → Uses calls 1 (poll_round base request_id capability interval deadline attempt)
  unfolding poll_round read_round
  poll_round-Uses base request_id capability interval deadline attempt =
      let quoted = pure (value_errors (encode_rfc3986 request_id)) in
      Uses-try_except calls 1 0 (quoted >>= λ path. status_call path >>= read_round interval)
        (on_throttle interval attempt)
        (Uses-bind calls 0 1 quoted (λ path. status_call path >>= read_round interval)
          (Uses-pure calls 0 _)
          (λ path.
            Uses-last calls 1 (status_call path) (read_round interval)
              (call_json-Uses laws _ _ _ _ _ _)
              (λ raw.
                Uses-if calls 0 (terminal (normalize_status raw)) _ _ (Uses-return calls 0 _)
                  (Uses-return calls 0 _))))
        (on_throttle-Uses calls interval attempt)
    where
      status_call : Text → Action W Fields
      status_call path =
          call_json (codes "GET") base (enrollment_status_path ++ path) none capability deadline

  poll-Uses :
      (rounds : ℕ) (base request_id capability : Text) (interval deadline attempt : ℕ)
      → Uses calls rounds (poll rounds base request_id capability interval deadline attempt)
  unfolding poll next_round
  poll-Uses zero base request_id capability interval deadline attempt =
      Uses-raise calls 0 unfinished
  poll-Uses (suc rounds) base request_id capability interval deadline attempt =
      Uses-at_most calls (1 + rounds) (suc rounds) _ (omega arith) (
        Uses-bind calls 1 rounds (poll_round base request_id capability interval deadline attempt) _
          (poll_round-Uses base request_id capability interval deadline attempt)
          (on_round
            (λ attempt'. poll-Uses rounds base request_id capability interval deadline attempt')))
    where
      on_round :
          ((attempt' : ℕ)
            → Uses calls rounds (poll rounds base request_id capability interval deadline attempt'))
          → (round : Round)
          → Uses calls rounds
              (next_round deadline (poll rounds base request_id capability interval deadline) round)
      on_round again (settled status) = Uses-return calls rounds status
      on_round again (later delay attempt') =
          Uses-then calls rounds (wait delay deadline) _ (wait-Uses laws delay deadline)
            (λ done. again attempt')

  await_status-Uses :
      (rounds : ℕ) (options : EnrollmentOptions W) (base : Text) (challenge : EnrollmentChallenge)
      (deadline : ℕ) (request_id : Text) (status : Fields)
      → Uses calls rounds (await_status rounds options base challenge deadline request_id status)
  unfolding await_status
  await_status-Uses rounds options base challenge deadline request_id status =
      let polling =
        poll rounds base request_id challenge.poll_capability (int_part options.poll_interval)
          deadline 0 in
      Uses-if calls rounds _ (try_except polling (on_poll_timeout request_id)) (return status)
        (Uses-at_most calls (rounds + 0) rounds _ (omega arith) (
          Uses-try_except calls rounds 0 polling (on_poll_timeout request_id)
            (poll-Uses rounds _ _ _ _ _ _) (on_poll_timeout-Uses calls request_id)))
        (Uses-return calls rounds status)

  finish-Uses :
      (request_id : Text) (public_key : List ℕ) (status : Fields)
      → Uses calls 0 (finish request_id public_key status)
  unfolding finish
  finish-Uses request_id public_key status = search (Uses-if, Uses-raise, Uses-return)

  check_options-Uses :
      (options : EnrollmentOptions W) (provider : Text)
      → Uses calls 0 (check_options options provider)
  unfolding check_options
  check_options-Uses options provider = search (Uses-then, Uses-raise_when) depth 12

  module _ ⦃c : Crypto⦄ where
    enroll_until-Uses :
        (rounds : ℕ) (options : EnrollmentOptions W) (base provider : Text) (deadline : ℕ)
        → ((challenge : EnrollmentChallenge) → Uses calls 0 (options.proof_provider challenge))
        → Uses calls
            (1 + (options.submit_attempts + rounds))
            (enroll_until rounds options base provider deadline)
    unfolding enroll_until
    enroll_until-Uses rounds options base provider deadline free =
        search
          (
            Uses-then, Uses-last, Uses-bind, call_json-Uses, Uses-pure, Uses-raise_when,
            submit-Uses, await_status-Uses, finish-Uses, free,
          )
          depth 20

    -- An enrolment calls the transport at most once for the challenge, once for each attempt to
    -- submit and once for each round of polling, if nothing but the transport counts as a call
    -- and the proof provider makes none.
    pub enroll-calls :
        (rounds : ℕ) (options : EnrollmentOptions W) (w : W)
        → ((challenge : EnrollmentChallenge) → Uses calls 0 (options.proof_provider challenge))
        → calls (enroll rounds options w).1 ≤ calls w + (1 + (options.submit_attempts + rounds))
    unfolding enroll enroll_checked
    enroll-calls rounds options w free = calls_of.uses w
      where
        calls_of : Uses calls (1 + (options.submit_attempts + rounds)) (enroll rounds options)
        calls_of =
            search
              (
                Uses-then, control_url-Uses, check_options-Uses, read_clock-Uses, enroll_until-Uses,
                free,
              )
              depth 20
