-- ===== src/Core/Errors.antt =====
-- errors.go: the sentinels, and the errors that wrap them.
use authzen.Base.{ℕ, Text, Result, err}

pub data Sentinel : Type 0 where
  missing_type missing_id missing_name : Sentinel
  missing_subject missing_action missing_resource : Sentinel
  missing_evaluation_fields invalid_semantic : Sentinel

-- `invalid` is a ValidationError; `in_member i e` is e wrapped as "authzen: evaluations[i]: e".
pub data Error : Type 0 where
  invalid : Text → Sentinel → Error
  in_member : ℕ → Error → Error

-- errors.Is against a sentinel: the cause under all wrapping.
pub cause : Error → Sentinel
cause (invalid field s) = s
cause (in_member i e) = cause e

unfoldable pub new_validation_error {ℓ} : {A : Type ℓ} → Text → Sentinel → Result Error A
new_validation_error field s = err (invalid field s)
