-- ===== src/Mcp/Middleware.antt =====
-- mcp/middleware.go: the Enforcer, which lets a request through to a handler or denies it.
pub mod Gate
pub mod Denial
pub mod Respond
use authzen.Base.{
  ℕ, Bool, true, false, ◌||◌, ◌&&◌, List, [], ◌∷◌, Option, none, some, Text, text, ℤ, pos, negsuc,
  ltb_ℤ, is_empty, if◌then◌else◌, ◌==◌, Result, ok, err, text_eq,
}
use authzen.Core.Types.{EvaluationRequest, EvaluationResponse}
use authzen.Mcp.Challenge.{
  Challenge, default_scheme, error_insufficient_scope, error_invalid_token, to_string,
}
use authzen.Mcp.DenyContext.{challenge_from_deny_context, is_zero}
use authzen.Mcp.Profile.{ProfileError, missing_subject, evaluation_request}
use authzen.Mcp.Profile

-- An error of the extractor or the authorizer, one of the package's own among them; `wrapping` is
-- an error that wraps another.
pub data Failure : Type 0 where
  no_token : Failure
  profile : ProfileError → Failure
  recovered : Text → Failure
  foreign : Text → Failure
  wrapping : Text → Failure → Failure

-- errors.Is(err, ErrNoToken) and errors.Is(err, ErrMissingSubject), joined.
unfoldable pub is_unauthenticated : Failure → Bool
is_unauthenticated no_token = true
is_unauthenticated (profile missing_subject) = true
is_unauthenticated (wrapping t e) = is_unauthenticated e
is_unauthenticated _ = false

pub record DenyInfo : Type 0 where
  pub challenge : Challenge
  pub response : Option EvaluationResponse
  pub cause : Option Failure

-- What a call of the caller's code comes to: it may panic.
pub data Outcome (A : Type 0) : Type 0 where
  returned : A → Outcome A
  failed : Failure → Outcome A
  panicked : Text → Outcome A

-- The options of an Enforcer.
pub record Enforcer : Type 0 where
  pub scope : Text
  pub resource_metadata : Text
  pub realm : Text

-- The code of the caller, over requests R of net/http: the extractor, the authorizer and the
-- wrapped handler, which pass a state W along. The handler may panic.
pub record World (W R : Type 0) : Type 0 where
  pub extract : W → R → W × Outcome Profile.Request
  pub evaluate : W → EvaluationRequest → W × Outcome EvaluationResponse
  pub next : W → R → W × Option Text

unfoldable pub insufficient_scope : Text → Text → Challenge
insufficient_scope scope resource_metadata = record {
  scheme = default_scheme;
  error = error_insufficient_scope;
  error_description = [];
  scope = scope;
  resource_metadata = resource_metadata;
  realm = [];
  status = pos 403;
}

unfoldable pub unauthorized_challenge : Text → Challenge
unauthorized_challenge resource_metadata = record {
  scheme = default_scheme;
  error = [];
  error_description = [];
  scope = [];
  resource_metadata = resource_metadata;
  realm = [];
  status = pos 401;
}

unfoldable pub unauthorized : Enforcer → Challenge
unauthorized e = record (unauthorized_challenge e.resource_metadata) {
  scope = e.scope;
  realm = e.realm;
}

unfoldable pub insufficient : Enforcer → Challenge
insufficient e = record (insufficient_scope e.scope e.resource_metadata) { realm = e.realm }

unfoldable pub challenge_for_error : Enforcer → Failure → Challenge
challenge_for_error e f = if is_unauthenticated f then unauthorized e else insufficient e

abbrev pub or_text : Text → Text → Text
or_text s d = if is_empty s then d else s

unfoldable pub fill_in : Enforcer → Challenge → Challenge
fill_in e c = record c {
  status = if is_zero c.status then pos 403 else c.status;
  resource_metadata = or_text c.resource_metadata e.resource_metadata;
  scope = or_text c.scope e.scope;
  realm = or_text c.realm e.realm;
}

unfoldable pub challenge_from_response : Enforcer → EvaluationResponse → Challenge
challenge_from_response e resp =
    let (c, found) = challenge_from_deny_context resp.context in
    if found then fill_in e c else insufficient e

unfoldable pub clamp_deny_status : ℤ → ℤ
clamp_deny_status n = if ltb_ℤ n (pos 400) || ltb_ℤ (pos 599) n then pos 403 else n

-- What is handed to the responder.
unfoldable pub deny : DenyInfo → DenyInfo
deny info = record info {
  challenge = record info.challenge { status = clamp_deny_status info.challenge.status };
}

-- What a request comes to: whether the wrapped handler was invoked, and the denial that was
-- written, if any.
pub record Served : Type 0 where
  pub invoked : Bool
  pub denied : Option DenyInfo

abbrev pub refuse : Challenge → Option EvaluationResponse → Option Failure → Served
refuse c resp cause = record {
  invoked = false;
  denied = some (deny (record { challenge = c; response = resp; cause = cause }));
}

-- The deferred function, on a panic.
unfoldable pub recovered_panic : Enforcer → Bool → Text → Served
recovered_panic e invoked panic = record {
  invoked = invoked;
  denied = some (
      deny
        (record { challenge = insufficient e; response = none; cause = some (recovered panic) }));
}

-- What the wrapped handler leaves, once it was invoked.
unfoldable pub passed : Enforcer → Option Text → Served
passed e none = record { invoked = true; denied = none }
passed e (some panic) = recovered_panic e true panic

module _ {W R : Type 0} (e : Enforcer) (world : World W R) (r : R) where
  unfoldable pub pass : W → W × Served
  pass w = let (w', panic) = world.next w r in (w', passed e panic)

  unfoldable pub enforce_decision : W → Outcome EvaluationResponse → W × Served
  enforce_decision w (panicked p) = (w, recovered_panic e false p)
  enforce_decision w (failed f) = (w, refuse (insufficient e) none (some f))
  enforce_decision w (returned resp) =
      let through = pass w in
      if resp.decision
      then through
      else (w, refuse (challenge_from_response e resp) (some resp) none)

  unfoldable pub enforce_request : W → Result ProfileError EvaluationRequest → W × Served
  enforce_request w (err f) =
      (w, refuse (challenge_for_error e (profile f)) none (some (profile f)))
  enforce_request w (ok q) = let (w', outcome) = world.evaluate w q in enforce_decision w' outcome

  unfoldable pub enforce_extracted : W → Outcome Profile.Request → W × Served
  enforce_extracted w (panicked p) = (w, recovered_panic e false p)
  enforce_extracted w (failed f) = (w, refuse (challenge_for_error e f) none (some f))
  enforce_extracted w (returned m) = enforce_request w (evaluation_request m)

  unfoldable pub handle : W → W × Served
  handle w = let (w', outcome) = world.extract w r in enforce_extracted w' outcome
