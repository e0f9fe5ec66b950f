-- ===== src/Mcp/Middleware/Denial.antt =====
-- mcp/middleware.go: what stands for the wrapped handler when a request is denied.
use authzen.Base.{
  Bool, true, false, Option, none, some, Text, ℤ, pos, negsuc, pos_part, ◌≤◌, if◌then◌else◌, Result,
  ok, err, ◌≡◌, refl, arith,
}
use authzen.Core.Types.{EvaluationRequest, EvaluationResponse}
use authzen.Mcp.Challenge.{Challenge}
use authzen.Mcp.Profile.{ProfileError, evaluation_request}
use authzen.Mcp.Profile
use authzen.Mcp.Middleware.{
  Failure, Outcome, returned, failed, panicked, Enforcer, World, Served, clamp_deny_status, deny,
  refuse, recovered_panic, pass, passed, enforce_decision, enforce_request, enforce_extracted,
  handle, insufficient,
}

-- A status from 400 to 599.
abbrev pub IsDenyStatus : ℤ → Type 0
IsDenyStatus n = (400 ≤ pos_part n) × (pos_part n ≤ 599)

pub clamp_deny_status-IsDenyStatus : (n : ℤ) → IsDenyStatus (clamp_deny_status n)
unfolding clamp_deny_status
clamp_deny_status-IsDenyStatus (pos n) = ground arith
clamp_deny_status-IsDenyStatus (negsuc n) = ground arith

-- A request without a denial went through to the wrapped handler, and a denial is an error.
abbrev pub IsAnswered : Served → Type 0
IsAnswered s = elim s.denied [
  | none ↦ s.invoked ≡ true
  | some info ↦ IsDenyStatus info.challenge.status
]

refuse-IsAnswered :
    (c : Challenge) (resp : Option EvaluationResponse) (cause : Option Failure)
    → IsAnswered (refuse c resp cause)
unfolding deny
refuse-IsAnswered c resp cause = clamp_deny_status-IsDenyStatus c.status

recovered_panic-IsAnswered :
    (e : Enforcer) (b : Bool) (p : Text) → IsAnswered (recovered_panic e b p)
unfolding recovered_panic deny
recovered_panic-IsAnswered e b p = clamp_deny_status-IsDenyStatus (insufficient e).status

passed-IsAnswered : (e : Enforcer) (panic : Option Text) → IsAnswered (passed e panic)
unfolding passed
passed-IsAnswered e none = refl
passed-IsAnswered e (some p) = recovered_panic-IsAnswered e true p

module _ {W R : Type 0} (e : Enforcer) (world : World W R) (r : R) where
  IsAnswered-if :
      (b : Bool) (w : W) (s : Served)
      → IsAnswered s
      → IsAnswered (if b then pass e world r w else (w, s)).1
  unfolding pass
  IsAnswered-if true w s h = passed-IsAnswered e (world.next w r).1
  IsAnswered-if false w s h = h

  decision-IsAnswered :
      (w : W) (o : Outcome EvaluationResponse) → IsAnswered (enforce_decision e world r w o).1
  unfolding enforce_decision
  decision-IsAnswered w (panicked p) = recovered_panic-IsAnswered e false p
  decision-IsAnswered w (failed f) = refuse-IsAnswered _ none (some f)
  decision-IsAnswered w (returned resp) =
      IsAnswered-if resp.decision w _ (refuse-IsAnswered _ (some resp) none)

  request-IsAnswered :
      (w : W) (m : Result ProfileError EvaluationRequest)
      → IsAnswered (enforce_request e world r w m).1
  unfolding enforce_request
  request-IsAnswered w (err f) = refuse-IsAnswered _ none _
  request-IsAnswered w (ok q) = decision-IsAnswered (world.evaluate w q).0 (world.evaluate w q).1

  extracted-IsAnswered :
      (w : W) (o : Outcome Profile.Request) → IsAnswered (enforce_extracted e world r w o).1
  unfolding enforce_extracted
  extracted-IsAnswered w (panicked p) = recovered_panic-IsAnswered e false p
  extracted-IsAnswered w (failed f) = refuse-IsAnswered _ none (some f)
  extracted-IsAnswered w (returned m) = request-IsAnswered w (evaluation_request m)

  -- Every request either goes through to the wrapped handler or is denied with a status from 400
  -- to 599, whatever the extractor, the authorizer, the context of a deny and panics bring.
  pub handle-IsAnswered : (w : W) → IsAnswered (handle e world r w).1
  unfolding handle
  handle-IsAnswered w = extracted-IsAnswered (world.extract w r).0 (world.extract w r).1
