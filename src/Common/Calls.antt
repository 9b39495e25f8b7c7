-- ===== src/Common/Calls.antt =====
-- What a Go call ends in: a value with a nil error, a non-nil error, or a panic.
use Prim.Native.String.{String}
use mathlib.Core.Path.{◌≡◌, refl}

-- Errors by how the program makes them: `reported` is one that other code returned, `message` is
-- `errors.New` or `fmt.Errorf` of a text, and `wrapped` is `fmt.Errorf("text: %w", err)`.
pub data Error : Type 0 where
  reported message : String → Error
  wrapped : String → Error → Error

pub data Outcome {ℓ} (A : Type ℓ) : Type ℓ where
  panic : Outcome A
  err : Error → Outcome A
  ok : A → Outcome A

-- A call that is made once the one before it has returned with a nil error.
infixl 5 ◌>>=◌
abbrev pub ◌>>=◌ {κ ℓ} : {B : Type κ} {A : Type ℓ} → Outcome B → (B → Outcome A) → Outcome A
panic >>= next = panic
err failure >>= next = err failure
ok value >>= next = next value

-- `if err != nil { return fmt.Errorf("text: %w", err) }`
abbrev pub wrap {ℓ} : {A : Type ℓ} → String → Outcome A → Outcome A
wrap context panic = panic
wrap context (err failure) = err (wrapped context failure)
wrap context (ok value) = ok value

-- Two calls in a row return a value only if the first does, and the second on it.
pub >>=-eq-ok {κ ℓ} :
    {B : Type κ} {A : Type ℓ} (first : Outcome B) (next : B → Outcome A) {result : A}
    → (first >>= next) ≡ ok result
    → (value : B) × (first ≡ ok value) × (next value ≡ ok result)
>>=-eq-ok panic next returned = cc
>>=-eq-ok (err failure) next returned = cc
>>=-eq-ok (ok value) next returned = (value, refl, returned)
