-- ===== src/Enrollment/Calls.antt =====
-- How often enrolment calls the control plane.
use trustplane_auth_sdk_pyth.Base.{
  ℕ, ◌+◌, ◌≤◌, ◌≡◌, Bool, true, false, Option, none, some, arith, Text, if◌then◌else◌, Result, ok,
  err,
}
use trustplane_auth_sdk_pyth.Base.Int.{ℤ}
use trustplane_auth_sdk_pyth.Json.{Json}
use trustplane_auth_sdk_pyth.Platform.{Platform}
use trustplane_auth_sdk_pyth.Enrollment.Environment.{
  Failure, Environment, HttpRequest, Reply, response, timeout_error, os_error, Action, return,
  raise, pure, go_on, caught, ◌>>=◌, try_except, raise_when,
}
use trustplane_auth_sdk_pyth.Enrollment.Http.{
  endpoint, retry_after, delay_of, read_response, read_reply, read_clock, send, pause, call_json,
  wait, control_url,
}

-- A count of the calls of the transport, which nothing else changes.
pub record CallLaws {W : Type 0} (e : Environment W) : Type 0 where
  pub calls : W → ℕ
  pub monotonic-calls : (w : W) → calls (e.monotonic w).1 ≡ calls w
  pub utc_now-calls : (w : W) → calls (e.utc_now w).1 ≡ calls w
  pub sleep-calls : (d : ℕ) (w : W) → calls (e.sleep d w) ≡ calls w
  pub transport-calls :
      (r : HttpRequest) (t : ℕ) (w : W) → calls (e.transport r t w).1 ≡ calls w + 1

module _ {W : Type 0} (calls : W → ℕ) where
  -- An action makes at most so many calls.
  pub record Uses {A : Type 0} (n : ℕ) (m : Action W A) : Type 0 where
    pub uses : (w : W) → calls (m w).1 ≤ calls w + n

  pub Uses-bind :
      {A B : Type 0} (k n : ℕ) (m : Action W A) (rest : A → Action W B)
      → Uses k m
      → ((a : A) → Uses n (rest a))
      → Uses (k + n) (m >>= rest)
  Uses-bind {A = A} k n m rest h i = record { uses = λ w. on_result w (m w) (h.uses w) }
    where
      on_result :
          (w : W) (r : Result Failure A × W)
          → calls r.1 ≤ calls w + k
          → calls (go_on rest r).1 ≤ calls w + (k + n)
      on_result w (ok a, w') p = omega (arith, (i a).uses w')
      on_result w (err failure, w') p = omega arith

  -- A step that makes no call.
  pub Uses-then :
      {A B : Type 0} (n : ℕ) (m : Action W A) (rest : A → Action W B)
      → Uses 0 m
      → ((a : A) → Uses n (rest a))
      → Uses n (m >>= rest)
  Uses-then n m rest h i = record { uses = λ w. omega (arith, (Uses-bind 0 n m rest h i).uses w) }

  pub Uses-last :
      {A B : Type 0} (n : ℕ) (m : Action W A) (rest : A → Action W B)
      → Uses n m
      → ((a : A) → Uses 0 (rest a))
      → Uses n (m >>= rest)
  Uses-last n m rest h i = record { uses = λ w. omega (arith, (Uses-bind n 0 m rest h i).uses w) }

  pub Uses-try_except :
      {A : Type 0} (k n : ℕ) (m : Action W A) (handler : Failure → Action W A)
      → Uses k m
      → ((failure : Failure) → Uses n (handler failure))
      → Uses (k + n) (try_except m handler)
  Uses-try_except {A = A} k n m handler h i = record { uses = λ w. on_result w (m w) (h.uses w) }
    where
      on_result :
          (w : W) (r : Result Failure A × W)
          → calls r.1 ≤ calls w + k
          → calls (caught handler r).1 ≤ calls w + (k + n)
      on_result w (ok a, w') p = omega arith
      on_result w (err failure, w') p = omega (arith, (i failure).uses w')

  pub Uses-at_most : {A : Type 0} (k n : ℕ) (m : Action W A) → k ≤ n → Uses k m → Uses n m
  Uses-at_most k n m h i = record { uses = λ w. omega (arith, i.uses w) }

  pub Uses-pure : {A : Type 0} (n : ℕ) (r : Result Failure A) → Uses n (pure r)
  Uses-pure n r = record { uses = λ w. omega arith }

  pub Uses-return : {A : Type 0} (n : ℕ) (a : A) → Uses n (return a)
  Uses-return n a = record { uses = λ w. omega arith }

  pub Uses-raise : {A : Type 0} (n : ℕ) (failure : Failure) → Uses {A = A} n (raise failure)
  Uses-raise n failure = record { uses = λ w. omega arith }

  pub Uses-raise_when : (n : ℕ) (test : Bool) (failure : Failure) → Uses n (raise_when test failure)
  Uses-raise_when n true failure = record { uses = λ w. omega arith }
  Uses-raise_when n false failure = record { uses = λ w. omega arith }

  pub Uses-if :
      {A : Type 0} (n : ℕ) (test : Bool) (m k : Action W A)
      → Uses n m
      → Uses n k
      → Uses n (if test then m else k)
  Uses-if n true m k h i = h
  Uses-if n false m k h i = i

module _ {W : Type 0} ⦃p : Platform⦄ ⦃e : Environment W⦄ (laws : CallLaws e) where
  open laws use {calls}

  delay_of-Uses : (seconds date : Option ℤ) → Uses calls 0 (delay_of seconds date)
  unfolding delay_of
  delay_of-Uses (some seconds) date = Uses-return calls 0 _
  delay_of-Uses none none = Uses-return calls 0 0
  delay_of-Uses none (some date) = record { uses = λ w. omega (arith, laws.utc_now-calls w) }

  retry_after-Uses : (value : Text) → Uses calls 0 (retry_after value)
  unfolding retry_after
  retry_after-Uses value = delay_of-Uses (p.parse_int value) (p.parse_http_date value)

  read_reply-Uses : (reply : Reply) → Uses calls 0 (read_reply reply)
  unfolding read_reply read_response
  read_reply-Uses timeout_error = Uses-raise calls 0 _
  read_reply-Uses os_error = Uses-raise calls 0 _
  read_reply-Uses (response r) =
      search (Uses-if, Uses-raise, Uses-then, Uses-pure, retry_after-Uses)

  pub read_clock-Uses : Uses calls 0 read_clock
  unfolding read_clock
  read_clock-Uses = record { uses = λ w. omega (arith, laws.monotonic-calls w) }

  send-Uses : (request : HttpRequest) (timeout : ℕ) → Uses calls 1 (send request timeout)
  unfolding send
  send-Uses request timeout = record {
    uses = λ w. omega (arith, laws.transport-calls request timeout w);
  }

  pause-Uses : (delay : ℕ) → Uses calls 0 (pause delay)
  unfolding pause
  pause-Uses delay = record { uses = λ w. omega (arith, laws.sleep-calls delay w) }

  endpoint-Uses : (base path : Text) → Uses calls 0 (endpoint base path)
  unfolding endpoint
  endpoint-Uses base path = search (Uses-then, Uses-pure, Uses-return)

  pub control_url-Uses : (raw : Text) → Uses calls 0 (control_url raw)
  unfolding control_url
  control_url-Uses raw = search (Uses-then, Uses-pure, Uses-return, Uses-raise_when)

  pub wait-Uses : (delay deadline : ℕ) → Uses calls 0 (wait delay deadline)
  unfolding wait
  wait-Uses delay deadline = search (Uses-then, Uses-raise_when, read_clock-Uses, pause-Uses)

  pub call_json-Uses :
      (method base path : Text) (value : Option Json) (capability : Text) (deadline : ℕ)
      → Uses calls 1 (call_json method base path value capability deadline)
  unfolding call_json
  call_json-Uses method base path value capability deadline =
      search
        (
          Uses-then, Uses-last, Uses-raise_when, read_clock-Uses, endpoint-Uses, send-Uses,
          read_reply-Uses,
        )
        depth 12
