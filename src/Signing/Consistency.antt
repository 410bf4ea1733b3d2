-- ===== src/Signing/Consistency.antt =====
-- What a request may say beside its passport.
use trustplane_auth_sdk_pyth.Base.{
  ◌≡◌, ◌⊎◌, refl, true, false, not, ◌&&◌, Option, none, some, [], ◌∷◌, arith, Text, inl, inr,
  Bool-cases, ok, >>=-eq-ok, raise_if, raise_if-eq-ok,
}
use trustplane_auth_sdk_pyth.Base.Int.{ℤ, pos, int_eq, int_eq_iff}
use trustplane_auth_sdk_pyth.Text.{text_eq, text_eq_iff, is_empty, strip}
use trustplane_auth_sdk_pyth.Transcript.Data.{
  RequestInput, Datetime, software_key_binding, utc_datetime, int_timestamp,
}
use trustplane_auth_sdk_pyth.Signing.{
  PassportBinding, disagrees, time_disagrees, validate_optional_software,
  validate_signing_consistency,
}

-- A value that is left out, or is the passport's.
abbrev pub Agrees : Text → Text → Type 0
Agrees given claimed = (strip given ≡ []) ⊎ (strip given ≡ claimed)

pub record IsConsistent (request : RequestInput) (key_id signer_class : Text)
    (claims : PassportBinding) : Type 0 where
  pub key_binding : (strip request.key_binding ≡ []) ⊎ (request.key_binding ≡ software_key_binding)
  pub signer : (strip signer_class ≡ []) ⊎ (signer_class ≡ software_key_binding)
  pub audience : Agrees request.audience claims.audience
  pub jti : Agrees request.passport_jti claims.jti
  pub unix_time : (request.issued_at_unix ≡ pos 0) ⊎ (request.issued_at_unix ≡ claims.issued_at)
  pub time :
      (value : Datetime)
      → request.issued_at ≡ some value
      → int_timestamp (utc_datetime value) ≡ claims.issued_at
  pub key : Agrees key_id claims.key_id

is_empty_sound : (s : Text) → is_empty s ≡ true → s ≡ []
is_empty_sound [] h = refl
is_empty_sound (c ∷ s) h = cc

either_of : (s t u : Text) → (not (is_empty s) && not (text_eq t u)) ≡ false → (s ≡ []) ⊎ (t ≡ u)
either_of s t u h = elim (Bool-cases (is_empty s)) [
  | inl blank ↦ inl (is_empty_sound s blank)
  | inr given ↦ inr ((text_eq_iff t u).0 (ground arith))
]

either_time :
    (a b : ℤ) → (not (int_eq a (pos 0)) && not (int_eq a b)) ≡ false → (a ≡ pos 0) ⊎ (a ≡ b)
either_time a b h = elim (Bool-cases (int_eq a (pos 0))) [
  | inl zero_ ↦ inl ((int_eq_iff a (pos 0)).0 zero_)
  | inr given ↦ inr ((int_eq_iff a b).0 (ground arith))
]

software_of :
    (value : Text)
    → validate_optional_software value ≡ ok tt
    → (strip value ≡ []) ⊎ (value ≡ software_key_binding)
unfolding validate_optional_software
software_of value h = either_of (strip value) value software_key_binding (raise_if-eq-ok _ _ h)

time_of :
    (o : Option Datetime) (t : ℤ)
    → time_disagrees o t ≡ false
    → (value : Datetime) → o ≡ some value
    → int_timestamp (utc_datetime value) ≡ t
time_of none t h value e = cc
time_of (some v) t h value e = ground (arith, int_eq_iff (int_timestamp (utc_datetime v)) t)

-- A request that is let through names no key binding but software, and no audience, passport,
-- issue time or key that is not the passport's.
pub validate_signing_consistency_sound :
    (request : RequestInput) (key_id signer_class : Text) (claims : PassportBinding)
    → validate_signing_consistency request key_id signer_class claims ≡ ok tt
    → IsConsistent request key_id signer_class claims
unfolding validate_signing_consistency
validate_signing_consistency_sound request key_id signer_class claims h =
    let (_, a, h1) = >>=-eq-ok (validate_optional_software request.key_binding) _ h in
    let (_, b, h2) = >>=-eq-ok (validate_optional_software signer_class) _ h1 in
    let (_, d, h3) = >>=-eq-ok (raise_if (disagrees request.audience claims.audience) _) _ h2 in
    let (_, e, h4) = >>=-eq-ok (raise_if (disagrees request.passport_jti claims.jti) _) _ h3 in
    let (_, f, h5) =
      >>=-eq-ok
        (raise_if
          (not (int_eq request.issued_at_unix (pos 0))
            && not (int_eq request.issued_at_unix claims.issued_at))
          _)
        _ h4 in
    let (_, g, h6) =
      >>=-eq-ok (raise_if (time_disagrees request.issued_at claims.issued_at) _) _ h5 in
    record {
      key_binding = software_of request.key_binding a;
      signer = software_of signer_class b;
      audience = either_of _ (strip request.audience) claims.audience (raise_if-eq-ok _ _ d);
      jti = either_of _ (strip request.passport_jti) claims.jti (raise_if-eq-ok _ _ e);
      unix_time = either_time request.issued_at_unix claims.issued_at (raise_if-eq-ok _ _ f);
      time = time_of request.issued_at claims.issued_at (raise_if-eq-ok _ _ g);
      key = either_of _ (strip key_id) claims.key_id (raise_if-eq-ok _ _ h6);
    }
