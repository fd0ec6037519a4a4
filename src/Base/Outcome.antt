-- ===== src/Base/Outcome.antt =====
-- What a Go function returns beside an `error`: a value, or the error.
use mathlib.Core.Path.{◌≡◌, refl}
use mathlib.Core.Logic.{◌⊎◌, ◌↔◌, inl, inr}
use mathlib.Core.Option.{Option, none, some}
use mathlib.Core.Bool.{Bool, true, false}

pub data Result {ℓ κ} (E : Type ℓ) (A : Type κ) : Type (ℓ ⊔ κ) where
  ok : A → Result E A
  err : E → Result E A

-- `x, err := first(); if err != nil { return err }`, and the rest of the function.
infixl 5 ◌>>=◌
abbrev pub ◌>>=◌ {ℓ κ μ} :
    {Error : Type ℓ} {A : Type κ} {B : Type μ}
    → Result Error A
    → (A → Result Error B)
    → Result Error B
err failure >>= rest = err failure
ok value >>= rest = rest value

-- The same where only the error is returned.
infixl 5 ◌>>◌
abbrev pub ◌>>◌ {ℓ κ} :
    {Error : Type ℓ} {B : Type κ} → Result Error (Unit {0}) → Result Error B → Result Error B
first >> rest = first >>= λ _. rest

-- `if c { return e }`
abbrev pub fail_if {ℓ} : {E : Type ℓ} → Bool → E → Result E (Unit {0})
fail_if true e = err e
fail_if false e = ok tt

-- A call whose `error` result is given: `none` is nil.
abbrev pub check {ℓ} : {E : Type ℓ} → Option E → Result E (Unit {0})
check none = ok tt
check (some e) = err e

pub fail_if_iff {ℓ} : {E : Type ℓ} (b : Bool) (e : E) → (fail_if b e ≡ ok tt) ↔ (b ≡ false)
fail_if_iff true e = (λ h. cc h, λ h. cc h)
fail_if_iff false e = (λ h. refl, λ h. refl)

pub Result-cases {ℓ κ} :
    {E : Type ℓ} {A : Type κ} (r : Result E A) → ((e : E) × (r ≡ err e)) ⊎ ((a : A) × (r ≡ ok a))
Result-cases (err e) = inl (e, refl)
Result-cases (ok a) = inr (a, refl)

-- A chain that returns a value has passed its first step, and the rest returns that value.
pub >>=-eq-ok {ℓ κ μ} :
    {Error : Type ℓ} {A : Type κ} {B : Type μ} (first : Result Error A) (rest : A → Result Error B)
    {out : B}
    → (first >>= rest) ≡ ok out
    → (value : A) × (first ≡ ok value) × (rest value ≡ ok out)
>>=-eq-ok (err failure) rest h = cc
>>=-eq-ok (ok value) rest h = (value, refl, h)
