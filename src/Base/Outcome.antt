-- ===== src/Base/Outcome.antt =====
-- A Python call that returns or raises. An exception is given by what the caller sees of it: for a
-- `ValueError` its message.
use Prim.Native.Nat.{ℕ}
use mathlib.Core.Path.{◌≡◌, refl}
use mathlib.Core.Bool.{Bool, true, false}
use mathlib.Core.List.{List}
use mathlib.Core.Option.{Option, none, some}

-- A Python `str`: its code points.
abbrev pub Text : Type 0
Text = List ℕ

-- Python's `bytes`.
abbrev pub Bytes : Type 0
Bytes = List ℕ

pub data Result {ℓ} (Exception : Type 0) (Value : Type ℓ) : Type ℓ where
  err : Exception → Result Exception Value
  ok : Value → Result Exception Value

-- `if test: raise ...`
abbrev pub raise_if : {Exception : Type 0} → Bool → Exception → Result Exception (Unit {0})
raise_if false exc = ok tt
raise_if true exc = err exc

pub raise_if-eq-ok :
    {Exception : Type 0} (test : Bool) (exc : Exception) {done : Unit {0}}
    → raise_if test exc ≡ ok done
    → test ≡ false
raise_if-eq-ok false exc h = refl
raise_if-eq-ok true exc h = cc

module _ {κ ℓ} {Exception : Type 0} {Value : Type κ} {Next : Type ℓ} where
  infixl 5 ◌>>=◌
  -- The rest of a function runs on what a call returns.
  abbrev pub ◌>>=◌ :
      Result Exception Value → (Value → Result Exception Next) → Result Exception Next
  err exc >>= rest = err exc
  ok value >>= rest = rest value

  -- What is returned at the end was made of what the call returned.
  pub >>=-eq-ok :
      (call : Result Exception Value) (rest : Value → Result Exception Next) {last : Next}
      → (call >>= rest) ≡ ok last
      → (value : Value) × (call ≡ ok value) × (rest value ≡ ok last)
  >>=-eq-ok (err exc) rest h = cc
  >>=-eq-ok (ok value) rest h = (value, refl, h)

module _ {ℓ} {Exception : Type 0} {Next : Type ℓ} where
  infixl 5 ◌>>◌
  abbrev pub ◌>>◌ : Result Exception (Unit {0}) → Result Exception Next → Result Exception Next
  check >> rest = check >>= λ done. rest

-- What a call returns, if it returns: which exception it raises is left out.
abbrev pub returned {ℓ} :
    {Exception : Type 0} {Value : Type ℓ} → Result Exception Value → Option Value
returned (err exc) = none
returned (ok value) = some value

module _ {κ ℓ} {Exception : Type 0} {Value : Type κ} {Next : Type ℓ} where
  -- Calls that differ in their exceptions alone make no difference to what is returned.
  pub returned->>= :
      (call call' : Result Exception Value) (rest : Value → Result Exception Next)
      → returned call ≡ returned call'
      → returned (call >>= rest) ≡ returned (call' >>= rest)
  returned->>= (err exc) (err exc') rest h = refl
  returned->>= (err exc) (ok value) rest h = cc
  returned->>= (ok value) (err exc) rest h = cc
  returned->>= (ok value) (ok value') rest h = cc

  pub returned-under :
      (call : Result Exception Value) (rest rest' : Value → Result Exception Next)
      → ((value : Value) → returned (rest value) ≡ returned (rest' value))
      → returned (call >>= rest) ≡ returned (call >>= rest')
  returned-under (err exc) rest rest' h = refl
  returned-under (ok value) rest rest' h = h value
