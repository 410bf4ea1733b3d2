-- ===== src/Enrollment/Environment.antt =====
-- What `EnrollmentClient` is given: a clock, a transport and a way to sleep, and the actions that use
-- them. Times are in microseconds, and exact where the code computes with floats.
use trustplane_auth_sdk_pyth.Base.{
  ℕ, ◌+◌, ◌≤◌, Option, List, Text, Bytes, Result, ok, err, Bool, true, false,
}
use trustplane_auth_sdk_pyth.Base.Int.{ℤ}

-- What can be raised: an `EnrollmentError(code, status_code, retry_after)`, a `ValueError` of
-- `urllib.parse` or an `OverflowError`. A loop of the model that is not run to its end is `unfinished`.
pub data Failure : Type 0 where
  enrollment_error : Text → ℕ → ℕ → Failure
  value_error : Text → Failure
  overflow_error : Failure
  unfinished : Failure

pub record HttpResponse : Type 0 where
  pub status : ℕ
  pub headers : List (Text × Text)
  pub body : Bytes

pub record HttpRequest : Type 0 where
  pub method : Text
  pub url : Text
  pub headers : List (Text × Text)
  pub body : Option Bytes

-- A transport returns, or raises `TimeoutError` or another `OSError`.
pub data Reply : Type 0 where
  response : HttpResponse → Reply
  timeout_error : Reply
  os_error : Reply

-- The transport, the clocks and the sleep, over the state `W` of the world.
pub record Environment (W : Type 0) : Type 0 where
  pub monotonic : W → ℕ × W
  -- `datetime.now(timezone.utc)`, in microseconds from the epoch
  pub utc_now : W → ℤ × W
  pub sleep : ℕ → W → W
  -- `transport(method, url, headers, body, timeout)`
  pub transport : HttpRequest → ℕ → W → Reply × W

-- The documented behaviour that theorems rely on: the monotonic clock does not go back, and a sleep
-- takes at least as long as it is asked to.
pub record EnvironmentLaws {W : Type 0} (e : Environment W) : Type 0 where
  pub clock : W → ℕ
  pub monotonic-clock :
      (w : W) → (clock w ≤ (e.monotonic w).0) × ((e.monotonic w).0 ≤ clock (e.monotonic w).1)
  pub utc_now-clock : (w : W) → clock w ≤ clock (e.utc_now w).1
  pub sleep-clock : (d : ℕ) (w : W) → clock w + d ≤ clock (e.sleep d w)
  pub transport-clock : (r : HttpRequest) (t : ℕ) (w : W) → clock w ≤ clock (e.transport r t w).1

-- A computation that uses the world, and returns or raises.
abbrev pub Action : Type 0 → Type 0 → Type 0
Action W A = W → Result Failure A × W

module _ {W : Type 0} {A : Type 0} where
  abbrev pub return : A → Action W A
  return a w = (ok a, w)

  abbrev pub raise : Failure → Action W A
  raise failure w = (err failure, w)

  -- What a pure function returns or raises.
  abbrev pub pure : Result Failure A → Action W A
  pure r w = (r, w)

module _ {W : Type 0} {A B : Type 0} where
  abbrev pub go_on : (A → Action W B) → Result Failure A × W → Result Failure B × W
  go_on rest (ok a, w) = rest a w
  go_on rest (err failure, w) = (err failure, w)

  infixl 5 ◌>>=◌
  abbrev pub ◌>>=◌ : Action W A → (A → Action W B) → Action W B
  (m >>= rest) w = go_on rest (m w)

module _ {W : Type 0} {A : Type 0} where
  infixl 5 ◌>>◌
  abbrev pub ◌>>◌ : Action W (Unit {0}) → Action W A → Action W A
  m >> rest = m >>= λ done. rest

  abbrev pub caught : (Failure → Action W A) → Result Failure A × W → Result Failure A × W
  caught handler (ok a, w) = (ok a, w)
  caught handler (err failure, w) = handler failure w

  -- `try: m except ... : handler`, where the handler raises again what it does not catch.
  abbrev pub try_except : Action W A → (Failure → Action W A) → Action W A
  try_except m handler w = caught handler (m w)

-- `if test: raise failure`
abbrev pub raise_when : {W : Type 0} → Bool → Failure → Action W (Unit {0})
raise_when true failure = raise failure
raise_when false failure = return tt

-- `EnrollmentError(code)`
abbrev pub plain_error : Text → Failure
plain_error code = enrollment_error code 0 0
