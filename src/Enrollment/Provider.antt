-- ===== src/Enrollment/Provider.antt =====
-- What the proof provider of an enrolment is asked.
use trustplane_auth_sdk_pyth.Base.{ℕ, ◌≡◌, refl, ap, Text, Result, ok, err}
use trustplane_auth_sdk_pyth.Text.{strip}
use trustplane_auth_sdk_pyth.Platform.{Platform}
use trustplane_auth_sdk_pyth.Crypto.{Crypto}
use trustplane_auth_sdk_pyth.Enrollment.Validate.{EnrollmentChallenge, validate_challenge}
use trustplane_auth_sdk_pyth.Enrollment.Environment.{
  Failure, Environment, Action, pure, go_on, ◌>>=◌,
}
use trustplane_auth_sdk_pyth.Enrollment.Client.{
  EnrollmentProof, EnrollmentOptions, coded, check_options, await_status, enroll_until,
  enroll_checked, enroll,
}

module _ {W : Type 0} where
  -- Two actions that do the same.
  record Same {A : Type 0} (m n : Action W A) : Type 0 where
    same : (w : W) → m w ≡ n w

  Same-refl : {A : Type 0} (m : Action W A) → Same m m
  Same-refl m = record { same = λ w. refl }

  Same-bind :
      {A B : Type 0} (m : Action W A) (rest rest' : A → Action W B)
      → ((a : A) → Same (rest a) (rest' a))
      → Same (m >>= rest) (m >>= rest')
  Same-bind {A = A} {B = B} m rest rest' h = record { same = λ w. on_result (m w) }
    where
      on_result : (r : Result Failure A × W) → go_on rest r ≡ go_on rest' r
      on_result (ok a, w) = (h a).same w
      on_result (err failure, w) = refl

  -- What follows a check runs only where the check has passed.
  Same-checked :
      {B : Type 0} (check : Result Text (Unit {0})) (rest rest' : Unit {0} → Action W B)
      → (check ≡ ok tt → Same (rest tt) (rest' tt))
      → Same (pure (coded check) >>= rest) (pure (coded check) >>= rest')
  Same-checked (ok tt) rest rest' h = record { same = λ w. (h refl).same w }
  Same-checked (err message) rest rest' h = record { same = λ w. refl }

  Same-first :
      {A B : Type 0} (m n : Action W A) (rest : A → Action W B)
      → m ≡ n
      → Same (m >>= rest) (n >>= rest)
  Same-first {A = A} m n rest e = record { same = λ w. ap (λ (k : Action W A). (k >>= rest) w) e }

module _ {W : Type 0} ⦃p : Platform⦄ ⦃e : Environment W⦄ ⦃c : Crypto⦄ where
  abbrev pub with_provider :
      EnrollmentOptions W → (EnrollmentChallenge → Action W EnrollmentProof) → EnrollmentOptions W
  with_provider options other = record options { proof_provider = other }

  enroll_until-Same :
      (rounds : ℕ) (options : EnrollmentOptions W)
      (other : EnrollmentChallenge → Action W EnrollmentProof) (base provider : Text) (deadline : ℕ)
      → ((challenge : EnrollmentChallenge)
          → validate_challenge challenge options.enrollment_policy_ref provider ≡ ok tt
          → options.proof_provider challenge ≡ other challenge)
      → Same
          (enroll_until rounds options base provider deadline)
          (enroll_until rounds (with_provider options other) base provider deadline)
  unfolding enroll_until await_status
  enroll_until-Same rounds options other base provider deadline h =
      search (Same-bind, Same-checked, Same-first, h) depth 12

  -- Proof providers that agree on the challenges that the validation lets through make no
  -- difference to an enrolment, neither to what it returns or raises nor to the state of the
  -- world.
  pub enroll-with_provider :
      (rounds : ℕ) (options : EnrollmentOptions W)
      (other : EnrollmentChallenge → Action W EnrollmentProof) (w : W)
      → ((challenge : EnrollmentChallenge)
          → validate_challenge challenge options.enrollment_policy_ref
              (p.lower (strip options.provider))
            ≡ ok tt
          → options.proof_provider challenge ≡ other challenge)
      → enroll rounds options w ≡ enroll rounds (with_provider options other) w
  unfolding enroll enroll_checked check_options
  enroll-with_provider rounds options other w h = all_of_it.same w
    where
      all_of_it : Same (enroll rounds options) (enroll rounds (with_provider options other))
      all_of_it = search (Same-bind, enroll_until-Same, h) depth 12
