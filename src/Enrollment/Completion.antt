-- ===== src/Enrollment/Completion.antt =====
-- The steps of enrolment around the polling: the clock after them, and the loop over the attempts.
use trustplane_auth_sdk_pyth.Base.{
  ℕ, zero, suc, ◌+◌, ◌*◌, ◌≤◌, ◌<◌, ◌≢◌, ap, Bool, true, false, some, List, [], arith, Text,
  if◌then◌else◌, Result, ok, err,
}
use trustplane_auth_sdk_pyth.Text.{codes, strip}
use trustplane_auth_sdk_pyth.Json.{Json, Fields}
use trustplane_auth_sdk_pyth.Platform.{Platform}
use trustplane_auth_sdk_pyth.Crypto.{Crypto}
use trustplane_auth_sdk_pyth.Enrollment.Validate.{EnrollmentChallenge}
use trustplane_auth_sdk_pyth.Enrollment.Environment.{
  Failure, enrollment_error, value_error, overflow_error, unfinished, Environment, EnvironmentLaws,
  Action, return, raise, pure, go_on, caught, ◌>>=◌, ◌>>◌, try_except,
}
use trustplane_auth_sdk_pyth.Enrollment.Http.{
  read_clock, control_url, call_json, wait, value_errors, enrollment_submission_path,
}
use trustplane_auth_sdk_pyth.Enrollment.Client.{
  EnrollmentOptions, poll, on_poll_timeout, submit, on_submit_failure, await_status, finish,
  enroll_checked, enroll_until, enroll, check_options, int_part, coded, pending_status,
}
use trustplane_auth_sdk_pyth.Enrollment.Timing.{
  Ends, IsTame, IsTame-bind, IsTame-try_except, IsTame-return, IsTame-raise, IsTame-pure,
  IsTame-error, IsTame-check, IsTame-if, call_json-IsTame, wait-IsTame,
}
use trustplane_auth_sdk_pyth.Enrollment.Termination.{value_errors_end, least_delay, poll-Ends}

module _ {W : Type 0} (clock : W → ℕ) (start : ℕ) where
  -- The same of the worlds at or after a time.
  record IsTameFrom {A : Type 0} (m : Action W A) : Type 0 where
    ends : (w : W) → start ≤ clock w → Ends clock w (m w)

  IsTameFrom-of : {A : Type 0} (m : Action W A) → IsTame clock m → IsTameFrom m
  IsTameFrom-of m h = record { ends = λ w s. h.ends w }

  IsTameFrom-bind :
      {A B : Type 0} (m : Action W A) (rest : A → Action W B)
      → IsTameFrom m
      → ((a : A) → IsTameFrom (rest a))
      → IsTameFrom (m >>= rest)
  IsTameFrom-bind {A = A} {B = B} m rest h k = record {
    ends = λ w s. on_result w s (m w) (h.ends w s);
  }
    where
      on_result :
          (w : W)
          → start ≤ clock w
          → (r : Result Failure A × W) → Ends clock w r
          → Ends clock w (go_on rest r)
      on_result w s (ok a, w') (p, q) =
          let (p', q') = (k a).ends w' (omega arith) in (omega arith, q')
      on_result w s (err failure, w') (p, q) = (p, λ e. q cc)

  IsTameFrom-try_except :
      {A : Type 0} (m : Action W A) (handler : Failure → Action W A)
      → IsTameFrom m
      → ((failure : Failure) → failure ≢ unfinished → IsTame clock (handler failure))
      → IsTameFrom (try_except m handler)
  IsTameFrom-try_except {A = A} m handler h k = record {
    ends = λ w s. on_result w (m w) (h.ends w s);
  }
    where
      on_result :
          (w : W) (r : Result Failure A × W) → Ends clock w r → Ends clock w (caught handler r)
      on_result w (ok a, w') (p, q) = (p, cc)
      on_result w (err failure, w') (p, q) =
          let (p', q') = (k failure (λ e. q (ap err e))).ends w' in (omega arith, q')

  IsTameFrom-if :
      {A : Type 0} (test : Bool) (m n : Action W A)
      → IsTameFrom m
      → IsTameFrom n
      → IsTameFrom (if test then m else n)
  IsTameFrom-if true m n h k = h
  IsTameFrom-if false m n h k = k

module _ {W : Type 0} ⦃p : Platform⦄ ⦃e : Environment W⦄ (laws : EnvironmentLaws e) where
  open laws use {clock}

  control_url-IsTame : (raw : Text) → IsTame clock (control_url raw)
  unfolding control_url
  control_url-IsTame raw =
      IsTame-bind clock (pure (value_errors (p.urlparse (strip raw)))) _
        (IsTame-pure clock _ (value_errors_end (p.urlparse (strip raw))))
        (λ parsed. search (IsTame-bind, IsTame-check, IsTame-return))

  on_submit_failure-IsTame :
      (attempt attempts : ℕ) (again : Action W Fields) (failure : Failure)
      → IsTame clock again
      → failure ≢ unfinished
      → IsTame clock (on_submit_failure attempt attempts again failure)
  unfolding on_submit_failure
  on_submit_failure-IsTame attempt attempts again (enrollment_error code status_code retry) h n =
      IsTame-if clock _ (raise (enrollment_error code status_code retry)) again
        (IsTame-error clock code status_code retry) h
  on_submit_failure-IsTame attempt attempts again (value_error m) h n =
      IsTame-raise clock (value_error m) n
  on_submit_failure-IsTame attempt attempts again overflow_error h n =
      IsTame-raise clock overflow_error n
  on_submit_failure-IsTame attempt attempts again unfinished h n = IsTame-raise clock unfinished n

  submit-IsTame :
      (left attempt attempts : ℕ) (base : Text) (submission : Json) (deadline : ℕ)
      → IsTame clock (submit left attempt attempts base submission deadline)
  unfolding submit
  submit-IsTame zero attempt attempts base submission deadline = IsTame-error clock _ 0 0
  submit-IsTame (suc left) attempt attempts base submission deadline =
      let delay = (attempt + 1) * 100_000 in
      let rest = submit left (attempt + 1) attempts base submission deadline in
      IsTame-try_except clock
        (call_json (codes "POST") base enrollment_submission_path (some submission) [] deadline)
        (on_submit_failure attempt attempts (wait delay deadline >> rest))
        (call_json-IsTame laws (codes "POST") base enrollment_submission_path (some submission) []
          deadline)
        (λ failure n.
          on_submit_failure-IsTame attempt attempts (wait delay deadline >> rest) failure
            (IsTame-bind clock (wait delay deadline) (λ done. rest)
              (wait-IsTame laws delay deadline)
              (λ done. submit-IsTame left (attempt + 1) attempts base submission deadline))
            n)

  coded_end : {A : Type 0} (r : Result Text A) → coded r ≢ err unfinished
  coded_end (ok a) h = cc
  coded_end (err message) h = cc

  check_options-IsTame :
      (options : EnrollmentOptions W) (provider : Text)
      → IsTame clock (check_options options provider)
  unfolding check_options
  check_options-IsTame options provider = search (IsTame-bind, IsTame-check)

  on_poll_timeout-IsTame :
      (request_id : Text) (failure : Failure)
      → failure ≢ unfinished
      → IsTame clock (on_poll_timeout request_id failure)
  on_poll_timeout-IsTame request_id (enrollment_error code status_code retry) n =
      IsTame-if clock _ (return (pending_status request_id))
        (raise (enrollment_error code status_code retry)) (IsTame-return clock _)
        (IsTame-error clock code status_code retry)
  on_poll_timeout-IsTame request_id (value_error m) n = IsTame-raise clock (value_error m) n
  on_poll_timeout-IsTame request_id overflow_error n = IsTame-raise clock overflow_error n
  on_poll_timeout-IsTame request_id unfinished n = IsTame-raise clock unfinished n

  await_status-IsTameFrom :
      (rounds : ℕ) (options : EnrollmentOptions W) (base : Text) (challenge : EnrollmentChallenge)
      (deadline : ℕ) (request_id : Text) (status : Fields) (start : ℕ)
      → deadline < start + rounds * least_delay (int_part options.poll_interval)
      → IsTameFrom clock start
          (await_status (suc rounds) options base challenge deadline request_id status)
  unfolding await_status
  await_status-IsTameFrom rounds options base challenge deadline request_id status start h =
      let polling =
        poll (suc rounds) base request_id challenge.poll_capability (int_part options.poll_interval)
          deadline 0 in
      IsTameFrom-if clock start _ (try_except polling (on_poll_timeout request_id)) (return status)
        (IsTameFrom-try_except clock start polling (on_poll_timeout request_id)
          (record {
            ends = λ w s.
                poll-Ends laws rounds base request_id challenge.poll_capability
                  (int_part options.poll_interval) deadline 0 w (omega arith);
          })
          (on_poll_timeout-IsTame request_id))
        (IsTameFrom-of clock start (return status) (IsTame-return clock status))

  finish-IsTame :
      (request_id : Text) (public_key : List ℕ) (status : Fields)
      → IsTame clock (finish request_id public_key status)
  unfolding finish
  finish-IsTame request_id public_key status = search (IsTame-if, IsTame-error, IsTame-return)

  -- A step behind a reading of the clock starts at or after the time that was read.
  read_clock-bind :
      {A : Type 0} (rest : ℕ → Action W A)
      → ((now : ℕ) → IsTameFrom clock now (rest now))
      → IsTame clock (read_clock >>= rest)
  unfolding read_clock
  read_clock-bind rest h = record {
    ends = λ w.
        let (before, after) = laws.monotonic-clock w in
        let (k, n) = (h (e.monotonic w).0).ends (e.monotonic w).1 after in (omega arith, n);
  }

  module _ ⦃c : Crypto⦄ where
    enroll_until-IsTameFrom :
        (rounds : ℕ) (options : EnrollmentOptions W) (base provider : Text) (deadline start : ℕ)
        → ((challenge : EnrollmentChallenge) → IsTame clock (options.proof_provider challenge))
        → deadline < start + rounds * least_delay (int_part options.poll_interval)
        → IsTameFrom clock start (enroll_until (suc rounds) options base provider deadline)
    unfolding enroll_until
    enroll_until-IsTameFrom rounds options base provider deadline start tame h =
        search
          (
            IsTameFrom-bind, IsTameFrom-of, IsTame-check, call_json-IsTame, submit-IsTame,
            IsTame-pure, coded_end, finish-IsTame, tame, await_status-IsTameFrom,
          )
          depth 20

    enroll_checked-IsTame :
        (rounds : ℕ) (options : EnrollmentOptions W) (base provider : Text)
        → ((challenge : EnrollmentChallenge) → IsTame clock (options.proof_provider challenge))
        → int_part options.timeout < rounds * least_delay (int_part options.poll_interval)
        → IsTame clock (enroll_checked (suc rounds) options base provider)
    unfolding enroll_checked
    enroll_checked-IsTame rounds options base provider tame h =
        read_clock-bind
          (λ now. enroll_until (suc rounds) options base provider (now + int_part options.timeout))
          (λ now. enroll_until-IsTameFrom rounds options base provider _ now tame (omega arith))

    -- If the rounds allowed to the polling, at the least delay between two of them, take longer
    -- than the timeout, the clock does not go back, a sleep lasts as long as it was asked to,
    -- and the proof provider ends, then `enroll` with one round more is never left unfinished,
    -- and ends no earlier than it starts.
    pub enroll-Ends :
        (rounds : ℕ) (options : EnrollmentOptions W) (w : W)
        → ((challenge : EnrollmentChallenge) → IsTame clock (options.proof_provider challenge))
        → int_part options.timeout < rounds * least_delay (int_part options.poll_interval)
        → Ends clock w (enroll (suc rounds) options w)
    unfolding enroll
    enroll-Ends rounds options w tame h =
        (IsTame-bind clock (control_url options.control_url) _
            (control_url-IsTame options.control_url)
            (λ base.
              IsTame-bind clock (check_options options _) _ (check_options-IsTame options _)
                (λ checked. enroll_checked-IsTame rounds options base _ tame h))).ends
          w
