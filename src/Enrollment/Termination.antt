-- ===== src/Enrollment/Termination.antt =====
-- The polling of a status: its rounds, its waits and its deadline.
use trustplane_auth_sdk_pyth.Base.{
  ℕ, zero, suc, ◌+◌, ◌*◌, ◌^◌, ◌≤◌, ◌<◌, ◌≡◌, ◌≢◌, refl, ap, ◌∙◌, not, arith, Text, Bool-cases, inl,
  inr, leb, ◌==◌, ◌++◌, none, Result, ok, err,
}
use trustplane_auth_sdk_pyth.Json.{Fields}
use trustplane_auth_sdk_pyth.Platform.{Platform}
use trustplane_auth_sdk_pyth.Enrollment.Status.{normalize_status, terminal}
use trustplane_auth_sdk_pyth.Enrollment.Environment.{
  Failure, enrollment_error, value_error, overflow_error, unfinished, Environment, EnvironmentLaws,
  Action, pure, go_on, caught, ◌>>=◌, ◌>>◌,
}
use trustplane_auth_sdk_pyth.Enrollment.Http.{call_json, wait, value_errors, enrollment_status_path}
use trustplane_auth_sdk_pyth.Query.Percent.{encode_rfc3986}
use trustplane_auth_sdk_pyth.Text.{codes}
use trustplane_auth_sdk_pyth.Enrollment.Client.{
  Round, settled, later, smaller, max_poll_delay, backoff, on_throttle, read_round, next_round,
  poll_round, poll,
}
use trustplane_auth_sdk_pyth.Enrollment.Timing.{
  Ends, IsTame, IsTame-pure, IsTame-bind, IsTame-try_except, IsTame-return, IsTame-raise,
  IsTame-error, IsTame-if, call_json-IsTame, wait-IsTame, wait-eq-ok,
}

-- The least time between two rounds.
abbrev pub least_delay : ℕ → ℕ
least_delay interval = smaller interval max_poll_delay

pow_positive : (n : ℕ) → 0 < 2 ^ n
pow_positive zero = omega arith
pow_positive (suc n) = omega (arith, pow_positive n)

le-mul : (a k : ℕ) → 0 < k → a ≤ a * k
le-mul a zero h = absurd (omega arith)
le-mul a (suc k) h = omega arith

least_delay-le-backoff :
    (interval attempt retry : ℕ) → least_delay interval ≤ backoff interval attempt retry
unfolding backoff
least_delay-le-backoff interval attempt retry =
    ground (arith, le-mul interval (2 ^ attempt) (pow_positive attempt))

-- A round that goes on waits for at least that time.
abbrev IsDelayed : ℕ → Result Failure Round → Type 0
IsDelayed least (ok (later delay attempt)) = least ≤ delay
IsDelayed least _ = Unit

module _ {W : Type 0} where
  on_throttle-IsDelayed :
      (interval attempt : ℕ) (failure : Failure) (w : W)
      → IsDelayed (least_delay interval) (on_throttle interval attempt failure w).0
  unfolding on_throttle
  on_throttle-IsDelayed interval attempt (enrollment_error code status_code retry) w =
      ground (arith, least_delay-le-backoff interval attempt retry)
  on_throttle-IsDelayed interval attempt (value_error m) w = tt
  on_throttle-IsDelayed interval attempt overflow_error w = tt
  on_throttle-IsDelayed interval attempt unfinished w = tt

  on_throttle-IsTame :
      (clock : W → ℕ) (interval attempt : ℕ) (failure : Failure)
      → failure ≢ unfinished
      → IsTame clock (on_throttle interval attempt failure)
  unfolding on_throttle
  on_throttle-IsTame clock interval attempt (enrollment_error code status_code retry) h =
      IsTame-if clock (not (status_code == 429)) _ _ (IsTame-error clock code status_code retry) (
        IsTame-if clock (leb 1024 attempt) _ _ (IsTame-raise clock overflow_error (λ e. cc))
          (IsTame-return clock _))
  on_throttle-IsTame clock interval attempt (value_error m) h = IsTame-raise clock (value_error m) h
  on_throttle-IsTame clock interval attempt overflow_error h = IsTame-raise clock overflow_error h
  on_throttle-IsTame clock interval attempt unfinished h = IsTame-raise clock unfinished h

module _ {W : Type 0} ⦃p : Platform⦄ ⦃e : Environment W⦄ where
  poll_round-IsDelayed :
      (base request_id capability : Text) (interval deadline attempt : ℕ) (w : W)
      → IsDelayed
          (least_delay interval)
          (poll_round base request_id capability interval deadline attempt w).0
  unfolding poll_round read_round
  poll_round-IsDelayed base request_id capability interval deadline attempt w =
      quoted (encode_rfc3986 request_id)
    where
      delayed :
          (r : Result Failure Fields × W)
          → IsDelayed
              (least_delay interval)
              (caught (on_throttle interval attempt) (go_on (read_round interval) r)).0
      delayed (err failure, w') = on_throttle-IsDelayed interval attempt failure w'
      delayed (ok raw, w') = elim (Bool-cases (terminal (normalize_status raw))) [
        | inl end ↦ rw end tt
        | inr going ↦ rw going (ground arith)
      ]

      quoted :
          (r : Result Text Text)
          → IsDelayed
              (least_delay interval)
              (caught (on_throttle interval attempt) (
                go_on
                  (λ path.
                    call_json
                      (codes "GET")
                      base
                      (enrollment_status_path ++ path)
                      none
                      capability
                      deadline
                    >>= read_round interval)
                  (value_errors r, w))).0
      quoted (err message) = tt
      quoted (ok path) = delayed (call_json _ _ _ _ _ _ w)

-- A `ValueError` is not a loop that was left unfinished.
pub value_errors_end : {A : Type 0} (r : Result Text A) → value_errors r ≢ err unfinished
value_errors_end (ok a) h = cc
value_errors_end (err message) h = cc

module _ {W : Type 0} ⦃p : Platform⦄ ⦃e : Environment W⦄ (laws : EnvironmentLaws e) where
  open laws use {clock}

  read_round-IsTame : (interval : ℕ) (raw : Fields) → IsTame clock (read_round interval raw)
  unfolding read_round
  read_round-IsTame interval raw =
      IsTame-if clock (terminal (normalize_status raw)) _ _ (IsTame-return clock _)
        (IsTame-return clock _)

  poll_round-IsTame :
      (base request_id capability : Text) (interval deadline attempt : ℕ)
      → IsTame clock (poll_round base request_id capability interval deadline attempt)
  unfolding poll_round read_round
  poll_round-IsTame base request_id capability interval deadline attempt =
      IsTame-try_except clock
        (pure (value_errors (encode_rfc3986 request_id)) >>= λ path.
          status_call path >>= read_round interval)
        _
        (IsTame-bind clock (pure (value_errors (encode_rfc3986 request_id)))
          (λ path. status_call path >>= read_round interval)
          (IsTame-pure clock _ (value_errors_end (encode_rfc3986 request_id)))
          (λ path.
            IsTame-bind clock (status_call path) (read_round interval)
              (call_json-IsTame laws _ _ _ _ _ _) (λ raw. read_round-IsTame interval raw)))
        (on_throttle-IsTame clock interval attempt)
    where
      status_call : Text → Action W Fields
      status_call path =
          call_json (codes "GET") base (enrollment_status_path ++ path) none capability deadline

  -- A wait that returns has left time for it, and hands on to what comes next.
  wait-Ends :
      (delay deadline : ℕ) (again : Action W Fields) (w : W)
      → ((w' : W)
          → clock w + delay ≤ clock w'
          → clock w + delay ≤ deadline
          → Ends clock w' (again w'))
      → Ends clock w ((wait delay deadline >> again) w)
  wait-Ends delay deadline again w h = after (wait delay deadline w) refl
    where
      after :
          (r : Result Failure (Unit {0}) × W)
          → wait delay deadline w ≡ r
          → Ends clock w (go_on (λ done. again) r)
      after (err failure, w') t =
          let (k, n) = (wait-IsTame laws delay deadline).ends w in
          (omega (arith, ap (λ r. clock r.1) t), λ q. n (ap (λ r. r.0) t ∙ (cc)))
      after (ok tt, w') t =
          let (fits, waited) = wait-eq-ok laws delay deadline w w' t in
          let (k, n) = h w' waited fits in (omega arith, n)

  round_Ends :
      (base request_id capability : Text) (interval deadline attempt : ℕ)
      (again : ℕ → Action W Fields) (w : W)
      → ((attempt' : ℕ) (w' : W)
          → clock w + least_delay interval ≤ clock w'
          → clock w + least_delay interval ≤ deadline
          → Ends clock w' (again attempt' w'))
      → Ends clock w (
          go_on
            (next_round deadline again)
            (poll_round base request_id capability interval deadline attempt w))
  unfolding next_round
  round_Ends base request_id capability interval deadline attempt again w h =
      after (poll_round base request_id capability interval deadline attempt w)
        ((poll_round-IsTame base request_id capability interval deadline attempt).ends w)
        (poll_round-IsDelayed base request_id capability interval deadline attempt w)
    where
      after :
          (r : Result Failure Round × W)
          → Ends clock w r
          → IsDelayed (least_delay interval) r.0
          → Ends clock w (go_on (next_round deadline again) r)
      after (err failure, w') (k, n) d = (k, λ e. n (cc))
      after (ok (settled status), w') (k, n) d = (k, λ e. cc)
      after (ok (later delay attempt'), w') (k, n) d =
          let (k', n') =
            wait-Ends delay deadline (again attempt') w'
              (λ w'' p q. h attempt' w'' (omega arith) (omega arith)) in
          (omega arith, n')

  -- With as many rounds as the time up to the deadline has least delays, and one more, no poll is
  -- left unfinished.
  pub poll-Ends :
      (rounds : ℕ) (base request_id capability : Text) (interval deadline attempt : ℕ) (w : W)
      → deadline < clock w + rounds * least_delay interval
      → Ends clock w (poll (suc rounds) base request_id capability interval deadline attempt w)
  unfolding poll
  poll-Ends zero base request_id capability interval deadline attempt w h =
      round_Ends base request_id capability interval deadline attempt _ w
        (λ attempt' w' p q. absurd (omega arith))
  poll-Ends (suc rounds) base request_id capability interval deadline attempt w h =
      round_Ends base request_id capability interval deadline attempt _ w (λ attempt' w' p q.
        poll-Ends rounds base request_id capability interval deadline attempt' w' (omega arith))
