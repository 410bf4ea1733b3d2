-- ===== src/Enrollment/Timing.antt =====
-- How the actions of enrolment use time.
use trustplane_auth_sdk_pyth.Base.{
  ℕ, ◌+◌, ◌≤◌, ◌≡◌, ◌≢◌, refl, ap, Bool, true, false, Option, none, some, arith, Text, ltb,
  if◌then◌else◌, Result, ok, err,
}
use trustplane_auth_sdk_pyth.Json.{Json}
use trustplane_auth_sdk_pyth.Base.Int.{ℤ}
use trustplane_auth_sdk_pyth.Text.{codes}
use trustplane_auth_sdk_pyth.Platform.{Platform}
use trustplane_auth_sdk_pyth.Enrollment.Environment.{
  Failure, enrollment_error, unfinished, Environment, EnvironmentLaws, HttpRequest, Reply, response,
  timeout_error, os_error, Action, return, raise, pure, go_on, caught, ◌>>=◌, try_except,
  raise_when, plain_error,
}
use trustplane_auth_sdk_pyth.Enrollment.Http.{
  value_errors, endpoint, retry_after, decoded_of, delay_of, read_response, read_reply, read_clock,
  send, pause, call_json, wait,
}

module _ {W : Type 0} (clock : W → ℕ) where
  -- The time does not go back, and no loop is left unfinished.
  abbrev pub Ends : {A : Type 0} → W → Result Failure A × W → Type 0
  Ends w r = (clock w ≤ clock r.1) × (r.0 ≢ err unfinished)

  pub record IsTame {A : Type 0} (m : Action W A) : Type 0 where
    pub ends : (w : W) → Ends w (m w)

  pub IsTame-bind :
      {A B : Type 0} (m : Action W A) (rest : A → Action W B)
      → IsTame m
      → ((a : A) → IsTame (rest a))
      → IsTame (m >>= rest)
  IsTame-bind {A = A} {B = B} m rest h k = record { ends = λ w. on_result w (m w) (h.ends w) }
    where
      on_result : (w : W) (r : Result Failure A × W) → Ends w r → Ends w (go_on rest r)
      on_result w (ok a, w') (p, q) = let (p', q') = (k a).ends w' in (omega arith, q')
      on_result w (err failure, w') (p, q) = (p, λ e. q cc)

  pub IsTame-try_except :
      {A : Type 0} (m : Action W A) (handler : Failure → Action W A)
      → IsTame m
      → ((failure : Failure) → failure ≢ unfinished → IsTame (handler failure))
      → IsTame (try_except m handler)
  IsTame-try_except {A = A} m handler h k = record { ends = λ w. on_result w (m w) (h.ends w) }
    where
      on_result : (w : W) (r : Result Failure A × W) → Ends w r → Ends w (caught handler r)
      on_result w (ok a, w') (p, q) = (p, cc)
      on_result w (err failure, w') (p, q) =
          let (p', q') = (k failure (λ e. q (ap err e))).ends w' in (omega arith, q')

  pub IsTame-return : {A : Type 0} (a : A) → IsTame (return a)
  IsTame-return a = record { ends = λ w. (omega arith, λ e. cc) }

  pub IsTame-raise :
      {A : Type 0} (failure : Failure) → failure ≢ unfinished → IsTame {A = A} (raise failure)
  IsTame-raise failure h = record { ends = λ w. (omega arith, λ e. h cc) }

  pub IsTame-pure : {A : Type 0} (r : Result Failure A) → r ≢ err unfinished → IsTame (pure r)
  IsTame-pure r h = record { ends = λ w. (omega arith, h) }

  pub IsTame-raise_when :
      (test : Bool) (failure : Failure) → failure ≢ unfinished → IsTame (raise_when test failure)
  IsTame-raise_when true failure h = record { ends = λ w. (omega arith, λ e. h cc) }
  IsTame-raise_when false failure h = record { ends = λ w. (omega arith, λ e. cc) }

  pub IsTame-error :
      {A : Type 0} (code : Text) (status_code delay : ℕ)
      → IsTame {A = A} (raise (enrollment_error code status_code delay))
  IsTame-error code status_code delay =
      IsTame-raise (enrollment_error code status_code delay) (λ e. cc)

  pub IsTame-check :
      (test : Bool) (code : Text) (status_code delay : ℕ)
      → IsTame (raise_when test (enrollment_error code status_code delay))
  IsTame-check test code status_code delay =
      IsTame-raise_when test (enrollment_error code status_code delay) (λ e. cc)

  pub IsTame-if :
      {A : Type 0} (test : Bool) (m n : Action W A)
      → IsTame m
      → IsTame n
      → IsTame (if test then m else n)
  IsTame-if true m n h k = h
  IsTame-if false m n h k = k

module _ {W : Type 0} ⦃p : Platform⦄ ⦃e : Environment W⦄ (laws : EnvironmentLaws e) where
  open laws use {clock}

  value_errors_end : {A : Type 0} (r : Result Text A) → value_errors r ≢ err unfinished
  value_errors_end (ok a) h = cc
  value_errors_end (err message) h = cc

  delay_of-IsTame : (seconds date : Option ℤ) → IsTame clock (delay_of seconds date)
  unfolding delay_of
  delay_of-IsTame (some seconds) date = IsTame-return clock _
  delay_of-IsTame none none = IsTame-return clock 0
  delay_of-IsTame none (some date) = record { ends = λ w. (laws.utc_now-clock w, λ e. cc) }

  retry_after-IsTame : (value : Text) → IsTame clock (retry_after value)
  unfolding retry_after
  retry_after-IsTame value = delay_of-IsTame (p.parse_int value) (p.parse_http_date value)

  decoded_of_end : (v : Option Json) → decoded_of v ≢ err unfinished
  unfolding decoded_of
  decoded_of_end v h = ground arith

  read_reply-IsTame : (reply : Reply) → IsTame clock (read_reply reply)
  unfolding read_reply read_response
  read_reply-IsTame timeout_error = search IsTame-error
  read_reply-IsTame os_error = search IsTame-error
  read_reply-IsTame (response r) =
      search (IsTame-if, IsTame-error, IsTame-bind, IsTame-pure, retry_after-IsTame, decoded_of_end)

  pub read_clock-IsTame : IsTame clock read_clock
  unfolding read_clock
  read_clock-IsTame = record { ends = λ w. (omega (arith, laws.monotonic-clock w), λ e. cc) }

  send-IsTame : (request : HttpRequest) (timeout : ℕ) → IsTame clock (send request timeout)
  unfolding send
  send-IsTame request timeout = record {
    ends = λ w. (laws.transport-clock request timeout w, λ e. cc);
  }

  pause-IsTame : (delay : ℕ) → IsTame clock (pause delay)
  unfolding pause
  pause-IsTame delay = record { ends = λ w. (omega (arith, laws.sleep-clock delay w), λ e. cc) }

  endpoint-IsTame : (base path : Text) → IsTame clock (endpoint base path)
  unfolding endpoint
  endpoint-IsTame base path =
      IsTame-bind clock (pure (value_errors (p.urlparse base))) _
        (IsTame-pure clock _ (value_errors_end (p.urlparse base))) (λ parsed. IsTame-return clock _)

  pub wait-IsTame : (delay deadline : ℕ) → IsTame clock (wait delay deadline)
  unfolding wait
  wait-IsTame delay deadline = search (IsTame-bind, IsTame-check, read_clock-IsTame, pause-IsTame)

  pub call_json-IsTame :
      (method base path : Text) (value : Option Json) (capability : Text) (deadline : ℕ)
      → IsTame clock (call_json method base path value capability deadline)
  unfolding call_json
  call_json-IsTame method base path value capability deadline = search (
    IsTame-bind, IsTame-check, read_clock-IsTame, endpoint-IsTame, send-IsTame, read_reply-IsTame,
  )

  -- A wait that returns kept within the deadline, and has waited.
  pub wait-eq-ok :
      (delay deadline : ℕ) (w w' : W)
      → wait delay deadline w ≡ (ok tt, w')
      → (clock w + delay ≤ deadline) × (clock w + delay ≤ clock w')
  unfolding wait read_clock pause
  wait-eq-ok delay deadline w w' h = waited (ltb deadline ((e.monotonic w).0 + delay)) refl h
    where
      waited :
          (late : Bool)
          → ltb deadline ((e.monotonic w).0 + delay) ≡ late
          → go_on
              (λ done. pause delay)
              (raise_when late (plain_error (codes "enrollment_timeout")) (e.monotonic w).1)
            ≡ (ok tt, w')
          → (clock w + delay ≤ deadline) × (clock w + delay ≤ clock w')
      waited true t h = cc (ap (λ r. r.0) h)
      waited false t h =
          let (before, after) = laws.monotonic-clock w in
          let slept = laws.sleep-clock delay (e.monotonic w).1 in
          let same : clock (e.sleep delay (e.monotonic w).1) ≡ clock w' = ap (λ r. clock r.1) h in
          ground arith
