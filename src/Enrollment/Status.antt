-- ===== src/Enrollment/Status.antt =====
-- The status of an enrolment: how it is normalised, when it is final, and the result made of it.
use trustplane_auth_sdk_pyth.Base.{
  Bool, true, ◌||◌, List, [], ◌∷◌, ◌++◌, Text, Bytes, any, if◌then◌else◌,
}
use trustplane_auth_sdk_pyth.Base.Int.{ℤ, pos}
use trustplane_auth_sdk_pyth.Text.{codes, text_eq, mem_text, is_empty}
use trustplane_auth_sdk_pyth.Json.{Json, bool, int, str, Fields, get, put}
use trustplane_auth_sdk_pyth.Platform.{Platform}
use trustplane_auth_sdk_pyth.Transcript.Build.{or_else}
use trustplane_auth_sdk_pyth.Enrollment.Validate.{first_text}

-- `_first`: the first value that is a text with something in it, stripped.
unfoldable pub first : List Json → Text
unfolding first_text
first [] = []
first (value ∷ values) = or_else (first_text value) (first values)

abbrev pub final_activations : List Text
final_activations = codes "active" ∷ codes "awaiting_manual_distribution" ∷ codes "failed" ∷ []

abbrev pub final_states : List Text
final_states =
    codes "active"
    ∷ codes "awaiting_manual_distribution"
    ∷ codes "failed"
    ∷ codes "denied"
    ∷ codes "rejected"
    ∷ codes "expired"
    ∷ codes "cancelled"
    ∷ []

abbrev pub failures : List Text
failures =
    codes "failed" ∷ codes "denied" ∷ codes "rejected" ∷ codes "expired" ∷ codes "cancelled" ∷ []

-- `_terminal`.
unfoldable pub terminal : Fields → Bool
unfolding first get mem_text
terminal status =
    mem_text (first (get (codes "runtime_activation_status") status ∷ [])) final_activations
    || mem_text (first (get (codes "status") status ∷ [])) final_states
    || text_eq (first (get (codes "decision_status") status ∷ [])) (codes "rejected")

pub record EnrollmentResult : Type 0 where
  pub request_id : Text
  pub status : Text
  pub decision_status : Text
  pub runtime_activation_status : Text
  pub key_id : Text
  pub key_fingerprint : Text
  pub expires_at : Text
  pub target_configuration_version : ℤ

-- `version if isinstance(version, int) else 0`, where `True` is 1 and `False` is 0.
abbrev pub version_of : Json → ℤ
version_of (int z) = z
version_of (bool true) = pos 1
version_of _ = pos 0

-- `_failed`.
unfoldable pub failed : EnrollmentResult → Bool
unfolding mem_text
failed result =
    any (λ value. mem_text value failures)
      (result.status ∷ result.decision_status ∷ result.runtime_activation_status ∷ [])

-- The status that the activation and the decision leave of the one that was stated.
abbrev pub settled_status : Text → Text → Text → Text
settled_status status decision activation =
    if text_eq activation (codes "active")
    then codes "active"
    else if text_eq activation (codes "awaiting_manual_distribution")
    then codes "awaiting_manual_distribution"
    else if is_empty status
    then first (str decision ∷ str (codes "pending") ∷ [])
    else status

module _ ⦃p : Platform⦄ where
  open p use {lower, sha256_hex}

  -- `_normalize_status`.
  unfoldable pub normalize_status : Fields → Fields
  unfolding first get put
  normalize_status raw =
      let status = lower (first (get (codes "status") raw ∷ get (codes "state") raw ∷ [])) in
      let decision = lower (first (get (codes "decision_status") raw ∷ [])) in
      let activation = lower (
        first (
          get (codes "runtime_activation_status") raw
          ∷ get (codes "activation_status") raw
          ∷ [])) in
      put (codes "status") (str (settled_status status decision activation)) (
        put (codes "runtime_activation_status") (str activation)
          (put (codes "decision_status") (str decision) (put (codes "status") (str status) raw)))

  -- `_result`.
  unfoldable pub result_of : Text → Fields → Bytes → EnrollmentResult
  result_of request_id status public_key =
      let normalized = normalize_status status in
      record {
        request_id = request_id;
        status = first (get (codes "status") normalized ∷ str (codes "pending") ∷ []);
        decision_status = first (get (codes "decision_status") normalized ∷ []);
        runtime_activation_status = first (get (codes "runtime_activation_status") normalized ∷ []);
        key_id = first (get (codes "created_key_id") normalized ∷ []);
        key_fingerprint =
            or_else (first (get (codes "key_fingerprint") normalized ∷ []))
              (codes "sha256:" ++ sha256_hex public_key);
        expires_at = first (get (codes "key_expires_at") normalized ∷ []);
        target_configuration_version =
            version_of (get (codes "target_configuration_version") normalized);
      }
