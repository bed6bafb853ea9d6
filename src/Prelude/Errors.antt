-- ===== src/Prelude/Errors.antt =====
-- Go's `error`. A nil error is `none`. The sentinels that the code recognises by `errors.Is`,
-- however often they are wrapped, are constructors that keep the message.
use mathlib.Core.Bool.{Bool, true, false}
use mathlib.Core.Path.{◌≡◌, refl}
use mathlib.Core.Logic.{◌⊎◌, inl, inr}
use Prim.Native.String.{String, ◌++◌ as str_append}

pub data Error : Type 0 where
  -- gorm.ErrRecordNotFound, ErrAlreadySettled, ErrUnknownEmailType, and any other
  record_not_found already_settled unknown_email_type other : String → Error

-- err.Error()
abbrev pub message : Error → String
message (record_not_found s) = s
message (already_settled s) = s
message (unknown_email_type s) = s
message (other s) = s

-- errors.Is(err, gorm.ErrRecordNotFound)
abbrev pub is_not_found : Error → Bool
is_not_found (record_not_found s) = true
is_not_found _ = false

-- A `(value, error)` pair of which the code reads the value only if the error is nil.
pub data Result {ℓ} (A : Type ℓ) : Type ℓ where
  ok : A → Result A
  err : Error → Result A

pub Result-cases {ℓ} :
    {A : Type ℓ} (r : Result A) → ((a : A) × (r ≡ ok a)) ⊎ ((e : Error) × (r ≡ err e))
Result-cases (ok a) = inl (a, refl)
Result-cases (err e) = inr (e, refl)

-- %q of a text of printable ASCII with no quote and no backslash.
abbrev pub quoted : String → String
quoted s = str_append "\"" (str_append s "\"")
