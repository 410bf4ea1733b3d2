-- ===== src/Enrollment/Outcome.antt =====
-- What an enrolment that returns has established.
use trustplane_auth_sdk_pyth.Base.{ℕ, ◌≡◌, false, Text}
use trustplane_auth_sdk_pyth.Text.{is_empty}
use trustplane_auth_sdk_pyth.Json.{Fields}
use trustplane_auth_sdk_pyth.Platform.{Platform}
use trustplane_auth_sdk_pyth.Crypto.{Crypto}
use trustplane_auth_sdk_pyth.Enrollment.Status.{failed, result_of, EnrollmentResult}
use trustplane_auth_sdk_pyth.Enrollment.Environment.{Environment}
use trustplane_auth_sdk_pyth.Enrollment.Client.{EnrollmentOptions}
use trustplane_auth_sdk_pyth.Enrollment.Gives.{Gives}
use trustplane_auth_sdk_pyth.Enrollment.Awaited.{IsAwaited}

module _ ⦃p : Platform⦄ ⦃c : Crypto⦄ {W : Type 0} ⦃e : Environment W⦄ where
  -- What is established of a result.
  pub record IsOutcome (rounds : ℕ) (options : EnrollmentOptions W) (result : EnrollmentResult)
      : Type 0 where
    pub accepted : failed result ≡ false
    pub named : is_empty result.request_id ≡ false
    pub final : Fields
    pub from_status :
        result ≡ result_of result.request_id final (c.raw_public_key options.private_key)
    pub awaited : IsAwaited rounds options result.request_id final
