-- ===== src/AccessRequest/Errors.antt =====
-- accessrequest/errors.go: the sentinels of the profile, and the errors that wrap them.
use authzen.Base.{Text, Result, ok, err, ◌≡◌, ◌↔◌, arith}
use authzen.Core.Errors.{Error}

pub data Reason : Type 0 where
  missing_expires_at missing_denial_binding missing_denial : Reason
  conflicting_targets missing_target : Reason
  missing_endpoint missing_id missing_status missing_status_endpoint : Reason
  missing_task missing_mode missing_approval missing_approved_until : Reason

-- An error of the root package, or a ValidationError with a sentinel of this one.
pub data Fault : Type 0 where
  of_core : Error → Fault
  broken : Text → Reason → Fault

unfoldable pub reject : {A : Type 0} → Text → Reason → Result Fault A
reject field s = err (broken field s)

-- The error of the root package that a check returns as it is.
unfoldable pub pass_on : {A : Type 0} → Result Error A → Result Fault A
pass_on (ok a) = ok a
pass_on (err e) = err (of_core e)

pub pass_on-eq-ok : {A : Type 0} (m : Result Error A) (a : A) → (pass_on m ≡ ok a) ↔ (m ≡ ok a)
unfolding pass_on
pass_on-eq-ok (ok b) a = ground arith
pass_on-eq-ok (err e) a = (λ h. cc, λ h. cc)
