-- ===== src/Enrollment/Awaited.antt =====
-- What the polling of a status returns, and what stands in for one that ran out of time.
use trustplane_auth_sdk_pyth.Base.{
  ℕ, zero, suc, ◌+◌, ◌≡◌, refl, true, not, ◌&&◌, ◌||◌, none, ◌++◌, Text, ◌⊎◌, inl, inr, leb, ◌==◌,
  arith, if◌then◌else◌, Result, ok, err,
}
use mathlib.Core.Path.{subst}
use trustplane_auth_sdk_pyth.Text.{codes, text_eq, text_eq_iff}
use trustplane_auth_sdk_pyth.Json.{Fields}
use trustplane_auth_sdk_pyth.Platform.{Platform}
use trustplane_auth_sdk_pyth.Enrollment.Validate.{EnrollmentChallenge}
use trustplane_auth_sdk_pyth.Enrollment.Status.{normalize_status, terminal}
use trustplane_auth_sdk_pyth.Enrollment.Environment.{
  Failure, enrollment_error, value_error, overflow_error, unfinished, Environment, return, raise,
  Action, pure, caught, ◌>>=◌, try_except,
}
use trustplane_auth_sdk_pyth.Enrollment.Http.{wait, call_json, value_errors, enrollment_status_path}
use trustplane_auth_sdk_pyth.Query.Percent.{encode_rfc3986}
use trustplane_auth_sdk_pyth.Enrollment.Client.{
  EnrollmentOptions, Round, settled, later, on_throttle, backoff, read_round, next_round,
  poll_round, poll, on_poll_timeout, await_status, pending_status, int_part,
}
use trustplane_auth_sdk_pyth.Enrollment.Gives.{
  OnOk, Gives, Gives-then, Gives-bind, Gives-try_except, Gives-return, Gives-raise, Gives-if,
}

-- A round that ends the polling has a final status.
abbrev IsSettled : Round → Type 0
IsSettled (settled status) = terminal status ≡ true
IsSettled (later delay attempt) = Unit

module _ {W : Type 0} where
  on_throttle-Gives :
      (interval attempt : ℕ) (failure : Failure)
      → Gives {W = W} {A = Round} IsSettled (on_throttle interval attempt failure)
  unfolding on_throttle
  on_throttle-Gives interval attempt (enrollment_error code status_code retry) =
      let next = return (later (backoff interval attempt retry) (attempt + 1)) in
      Gives-if IsSettled (not (status_code == 429))
        (raise (enrollment_error code status_code retry))
        (if leb 1024 attempt then raise overflow_error else next) (λ t. Gives-raise IsSettled _)
        (λ t.
          Gives-if IsSettled (leb 1024 attempt) (raise overflow_error) next
            (λ u. Gives-raise IsSettled _) (λ u. Gives-return IsSettled _ tt))
  on_throttle-Gives interval attempt (value_error m) = Gives-raise IsSettled _
  on_throttle-Gives interval attempt overflow_error = Gives-raise IsSettled _
  on_throttle-Gives interval attempt unfinished = Gives-raise IsSettled _

module _ {W : Type 0} ⦃p : Platform⦄ ⦃e : Environment W⦄ where
  poll_round-Gives :
      (base request_id capability : Text) (interval deadline attempt : ℕ)
      → Gives {W = W} IsSettled (poll_round base request_id capability interval deadline attempt)
  unfolding poll_round read_round
  poll_round-Gives base request_id capability interval deadline attempt =
      let quoted = pure (value_errors (encode_rfc3986 request_id)) in
      Gives-try_except IsSettled (quoted >>= λ path. status_call path >>= read_round interval)
        (on_throttle interval attempt)
        (Gives-then IsSettled quoted (λ path. status_call path >>= read_round interval)
          (λ path. Gives-then IsSettled (status_call path) (read_round interval) (λ raw.
            Gives-if IsSettled (terminal (normalize_status raw)) _ _
              (λ t. Gives-return IsSettled _ t) (λ t. Gives-return IsSettled _ tt))))
        (on_throttle-Gives interval attempt)
    where
      status_call : Text → Action W Fields
      status_call path =
          call_json (codes "GET") base (enrollment_status_path ++ path) none capability deadline

  poll-Gives :
      (rounds : ℕ) (base request_id capability : Text) (interval deadline attempt : ℕ)
      → Gives {W = W}
          (λ status. terminal status ≡ true)
          (poll rounds base request_id capability interval deadline attempt)
  unfolding poll next_round
  poll-Gives zero base request_id capability interval deadline attempt = Gives-raise _ unfinished
  poll-Gives (suc rounds) base request_id capability interval deadline attempt =
      Gives-bind IsSettled _ (poll_round base request_id capability interval deadline attempt) _
        (poll_round-Gives base request_id capability interval deadline attempt)
        (on_round
          (λ attempt'. poll-Gives rounds base request_id capability interval deadline attempt'))
    where
      on_round :
          ((attempt' : ℕ)
            → Gives {W = W}
                (λ status. terminal status ≡ true)
                (poll rounds base request_id capability interval deadline attempt'))
          → (round : Round) → IsSettled round
          → Gives {W = W}
              (λ status. terminal status ≡ true)
              (next_round deadline (poll rounds base request_id capability interval deadline) round)
      on_round again (settled status) h = Gives-return _ status h
      on_round again (later delay attempt') h =
          Gives-then _ (wait delay deadline) _ (λ done. again attempt')

  -- A polling of a request that raised `enrollment_timeout`.
  pub record TimedOut (rounds : ℕ) (options : EnrollmentOptions W) (request_id : Text)
      : Type 0 where
    pub base : Text
    pub capability : Text
    pub deadline : ℕ
    pub status_code : ℕ
    pub retry_after : ℕ
    pub before : W
    pub after : W
    pub raised :
        poll rounds base request_id capability (int_part options.poll_interval) deadline 0 before
        ≡ (err (enrollment_error (codes "enrollment_timeout") status_code retry_after), after)

  -- The status that an enrolment ends with: final, or that of a polling that ran out of time, or
  -- the one that the submission was answered with, when there is no wait.
  abbrev pub IsAwaited : ℕ → EnrollmentOptions W → Text → Fields → Type 0
  IsAwaited rounds options request_id final =
      (options.wait_for_activation || not options.no_wait_for_activation) ≡ true
      → (terminal final ≡ true)
        ⊎ (final ≡ pending_status request_id) × TimedOut rounds options request_id

  -- What is returned for a polling that raised.
  on_poll_timeout-Gives :
      (rounds : ℕ) (options : EnrollmentOptions W) (base request_id capability : Text)
      (deadline : ℕ) (before after : W) (failure : Failure)
      → poll rounds base request_id capability (int_part options.poll_interval) deadline 0 before
        ≡ (err failure, after)
      → Gives {W = W} (IsAwaited rounds options request_id) (on_poll_timeout request_id failure)
  on_poll_timeout-Gives rounds options base request_id capability deadline before after
        (enrollment_error code status_code retry_after) h =
      Gives-if _ (text_eq code (codes "enrollment_timeout")) (return (pending_status request_id))
        (raise (enrollment_error code status_code retry_after))
        (λ t.
          let named : code ≡ codes "enrollment_timeout" = (text_eq_iff _ _).0 t in
          Gives-return _ (pending_status request_id) (λ u. inr (
            refl,
            record {
              base = base;
              capability = capability;
              deadline = deadline;
              status_code = status_code;
              retry_after = retry_after;
              before = before;
              after = after;
              raised =
                  subst
                    (λ code.
                      poll rounds base request_id capability (int_part options.poll_interval)
                        deadline 0 before
                      ≡ (err (enrollment_error code status_code retry_after), after))
                    named h;
            },
          )))
        (λ t. Gives-raise _ _)
  on_poll_timeout-Gives rounds options base request_id capability deadline before after
        (value_error m) h =
      Gives-raise _ _
  on_poll_timeout-Gives rounds options base request_id capability deadline before after
        overflow_error h =
      Gives-raise _ _
  on_poll_timeout-Gives rounds options base request_id capability deadline before after unfinished
        h =
      Gives-raise _ _

  polled-Gives :
      (rounds : ℕ) (options : EnrollmentOptions W) (base request_id capability : Text)
      (deadline : ℕ)
      → Gives {W = W} (IsAwaited rounds options request_id) (
          try_except
            (poll rounds base request_id capability (int_part options.poll_interval) deadline 0)
            (on_poll_timeout request_id))
  polled-Gives rounds options base request_id capability deadline = record {
    gives = λ w. on_result w (polling w) refl (settled_status.gives w);
  }
    where
      polling : Action W Fields
      polling = poll rounds base request_id capability (int_part options.poll_interval) deadline 0

      settled_status : Gives {W = W} (λ status. terminal status ≡ true) polling
      settled_status =
          poll-Gives rounds base request_id capability (int_part options.poll_interval) deadline 0

      on_result :
          (w : W) (r : Result Failure Fields × W)
          → polling w ≡ r
          → OnOk (λ status. terminal status ≡ true) r.0
          → OnOk (IsAwaited rounds options request_id) (caught (on_poll_timeout request_id) r).0
      on_result w (ok status, after) h t = λ u. inl t
      on_result w (err failure, after) h t =
          (on_poll_timeout-Gives rounds options base request_id capability deadline w after failure
              h).gives
            after

  pub await_status-Gives :
      (rounds : ℕ) (options : EnrollmentOptions W) (base : Text) (challenge : EnrollmentChallenge)
      (deadline : ℕ) (request_id : Text) (status : Fields)
      → Gives {W = W}
          (IsAwaited rounds options request_id)
          (await_status rounds options base challenge deadline request_id status)
  unfolding await_status
  await_status-Gives rounds options base challenge deadline request_id status =
      Gives-if (IsAwaited rounds options request_id)
        ((options.wait_for_activation || not options.no_wait_for_activation)
          && not (terminal status))
        (try_except
          (poll rounds base request_id challenge.poll_capability (int_part options.poll_interval)
            deadline 0)
          (on_poll_timeout request_id))
        (return status)
        (λ t. polled-Gives rounds options base request_id challenge.poll_capability deadline)
        (λ t. Gives-return _ status (λ u. inl (ground arith)))
