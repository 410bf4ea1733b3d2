-- ===== src/Enrollment/Gives.antt =====
-- What holds of the values that actions return.
use trustplane_auth_sdk_pyth.Base.{◌≡◌, refl, Bool, true, false, if◌then◌else◌, Result, ok, err}
use trustplane_auth_sdk_pyth.Enrollment.Environment.{
  Failure, Action, return, raise, go_on, caught, ◌>>=◌, try_except, raise_when,
}

-- What holds of a value that is returned.
abbrev pub OnOk : {A : Type 0} → (A → Type 0) → Result Failure A → Type 0
OnOk post (ok a) = post a
OnOk post (err failure) = Unit

module _ {W : Type 0} where
  pub record Gives {A : Type 0} (post : A → Type 0) (m : Action W A) : Type 0 where
    pub gives : (w : W) → OnOk post (m w).0

  Gives-any : {A : Type 0} (m : Action W A) → Gives (λ a. Unit) m
  Gives-any {A = A} m = record { gives = λ w. anything (m w).0 }
    where
      anything : (r : Result Failure A) → OnOk (λ a. Unit) r
      anything (ok a) = tt
      anything (err failure) = tt

  pub Gives-bind :
      {A B : Type 0} (pre : A → Type 0) (post : B → Type 0) (m : Action W A) (rest : A → Action W B)
      → Gives pre m
      → ((a : A) → pre a → Gives post (rest a))
      → Gives post (m >>= rest)
  Gives-bind {A = A} pre post m rest h k = record { gives = λ w. on_result (m w) (h.gives w) }
    where
      on_result : (r : Result Failure A × W) → OnOk pre r.0 → OnOk post (go_on rest r).0
      on_result (ok a, w') q = (k a q).gives w'
      on_result (err failure, w') q = tt

  -- A step of which nothing is used.
  pub Gives-then :
      {A B : Type 0} (post : B → Type 0) (m : Action W A) (rest : A → Action W B)
      → ((a : A) → Gives post (rest a))
      → Gives post (m >>= rest)
  Gives-then post m rest k = Gives-bind (λ a. Unit) post m rest (Gives-any m) (λ a u. k a)

  pub Gives-try_except :
      {A : Type 0} (post : A → Type 0) (m : Action W A) (handler : Failure → Action W A)
      → Gives post m
      → ((failure : Failure) → Gives post (handler failure))
      → Gives post (try_except m handler)
  Gives-try_except {A = A} post m handler h k = record { gives = λ w. on_result (m w) (h.gives w) }
    where
      on_result : (r : Result Failure A × W) → OnOk post r.0 → OnOk post (caught handler r).0
      on_result (ok a, w') q = q
      on_result (err failure, w') q = (k failure).gives w'

  pub Gives-return : {A : Type 0} (post : A → Type 0) (a : A) → post a → Gives post (return a)
  Gives-return post a h = record { gives = λ w. h }

  pub Gives-raise :
      {A : Type 0} (post : A → Type 0) (failure : Failure) → Gives post (raise failure)
  Gives-raise post failure = record { gives = λ w. tt }

  pub Gives-raise_when :
      (test : Bool) (failure : Failure) → Gives (λ done. test ≡ false) (raise_when test failure)
  Gives-raise_when true failure = record { gives = λ w. tt }
  Gives-raise_when false failure = record { gives = λ w. refl }

  pub Gives-if :
      {A : Type 0} (post : A → Type 0) (test : Bool) (m n : Action W A)
      → (test ≡ true → Gives post m)
      → (test ≡ false → Gives post n)
      → Gives post (if test then m else n)
  Gives-if post true m n h k = h refl
  Gives-if post false m n h k = k refl
