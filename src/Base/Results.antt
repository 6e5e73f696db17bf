-- ===== src/Base/Results.antt =====
-- Go's pair of a value and an error, where a non-nil error makes the value irrelevant.
use mathlib.Core.Bool.{Bool, true, false}
use mathlib.Core.Logic.{◌⊎◌, inl, inr}
use mathlib.Core.Path.{◌≡◌, refl}

pub data Result {ℓ} (E : Type 0) (A : Type ℓ) : Type ℓ where
  err : E → Result E A
  ok : A → Result E A

-- A call either failed or gave a value.
pub Result-cases {ℓ} :
    {E : Type 0} {A : Type ℓ} (m : Result E A) → ((a : A) × (m ≡ ok a)) ⊎ ((e : E) × (m ≡ err e))
Result-cases (err e) = inr (e, refl)
Result-cases (ok a) = inl (a, refl)

module _ {E : Type 0} where
  -- `if !b { return e }`
  abbrev pub ensure : Bool → E → Result E (Unit {0})
  ensure false failure = err failure
  ensure true failure = ok tt

  -- `if err != nil { return err }` between two calls
  infixl 5 ◌>>=◌
  abbrev pub ◌>>=◌ {ℓ κ} : {X : Type ℓ} {Y : Type κ} → Result E X → (X → Result E Y) → Result E Y
  err failure >>= later = err failure
  ok x >>= later = later x

  infixl 5 ◌>>◌
  abbrev pub ◌>>◌ {κ} : {Y : Type κ} → Result E (Unit {0}) → Result E Y → Result E Y
  first >> later = first >>= λ done. later
