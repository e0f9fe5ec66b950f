-- ===== src/Mcp/Middleware/Gate.antt =====
-- mcp/middleware.go: when the wrapped handler is invoked, and what stands for it otherwise.
use authzen.Base.{
  Bool, true, false, Option, none, some, Text, if◌then◌else◌, Result, ok, err, ◌≡◌, refl, ◌↔◌, ◌∙◌,
  sym, ap,
}
use authzen.Core.Types.{EvaluationRequest, EvaluationResponse}
use authzen.Mcp.Profile.{ProfileError, evaluation_request}
use authzen.Mcp.Profile
use authzen.Mcp.Middleware.{
  Outcome, returned, failed, panicked, Enforcer, World, Served, recovered_panic, pass, passed,
  enforce_decision, enforce_request, enforce_extracted, handle,
}

passed_invokes : (e : Enforcer) (panic : Option Text) → (passed e panic).invoked ≡ true
unfolding passed recovered_panic
passed_invokes e none = refl
passed_invokes e (some p) = refl

-- The decision of an outcome: only a response that says so permits.
abbrev permits : Outcome EvaluationResponse → Bool
permits (returned resp) = resp.decision
permits (failed f) = false
permits (panicked p) = false

permits-returned :
    (o : Outcome EvaluationResponse)
    → permits o ≡ true
    → (resp : EvaluationResponse) × (o ≡ returned resp) × (resp.decision ≡ true)
permits-returned (returned resp) h = (resp, refl, h)
permits-returned (failed f) h = cc
permits-returned (panicked p) h = cc

module _ {W R : Type 0} (e : Enforcer) (world : World W R) (r : R) where
  invoked-if :
      (b : Bool) (w : W) (s : Served)
      → s.invoked ≡ false
      → (if b then pass e world r w else (w, s)).1.invoked ≡ b
  unfolding pass
  invoked-if true w s h = passed_invokes e (world.next w r).1
  invoked-if false w s h = h

  decision_invokes :
      (w : W) (o : Outcome EvaluationResponse)
      → (enforce_decision e world r w o).1.invoked ≡ permits o
  unfolding enforce_decision recovered_panic
  decision_invokes w (panicked p) = refl
  decision_invokes w (failed f) = refl
  decision_invokes w (returned resp) = invoked-if resp.decision w _ refl

  -- The steps that let a request through, from the state w: the extractor returns a call, the call
  -- makes an evaluation request, and the authorizer returns a permit for it.
  pub record IsPermitted (w : W) : Type 0 where
    pub call : Profile.Request
    pub extracted : (world.extract w r).1 ≡ returned call
    pub request : EvaluationRequest
    pub assembled : evaluation_request call ≡ ok request
    pub response : EvaluationResponse
    pub evaluated : (world.evaluate (world.extract w r).0 request).1 ≡ returned response
    pub permit : response.decision ≡ true

  request_invokes :
      (w : W) (m : Result ProfileError EvaluationRequest)
      → (enforce_request e world r w m).1.invoked ≡ true
      → (q : EvaluationRequest) × (m ≡ ok q) × (permits (world.evaluate w q).1 ≡ true)
  unfolding enforce_request
  request_invokes w (err f) h = cc
  request_invokes w (ok q) h =
      (q, refl, sym (decision_invokes (world.evaluate w q).0 (world.evaluate w q).1) ∙ h)

  extracted_invokes :
      (w : W) (o : Outcome Profile.Request)
      → (enforce_extracted e world r w o).1.invoked ≡ true
      → (m : Profile.Request) × (o ≡ returned m)
        × (q : EvaluationRequest) × (evaluation_request m ≡ ok q)
        × (permits (world.evaluate w q).1 ≡ true)
  unfolding enforce_extracted recovered_panic
  extracted_invokes w (panicked p) h = cc
  extracted_invokes w (failed f) h = cc
  extracted_invokes w (returned m) h =
      let (q, a, p) = request_invokes w (evaluation_request m) h in (m, refl, q, a, p)

  invoked-IsPermitted : (w : W) → (handle e world r w).1.invoked ≡ true → IsPermitted w
  unfolding handle
  invoked-IsPermitted w h =
      let (m, x, q, a, p) = extracted_invokes (world.extract w r).0 (world.extract w r).1 h in
      let (resp, v, d) = permits-returned (world.evaluate (world.extract w r).0 q).1 p in
      record {
        call = m;
        extracted = x;
        request = q;
        assembled = a;
        response = resp;
        evaluated = v;
        permit = d;
      }

  IsPermitted-invoked : (w : W) → IsPermitted w → (handle e world r w).1.invoked ≡ true
  unfolding handle enforce_extracted enforce_request
  IsPermitted-invoked w p =
      rw (p.extracted, p.assembled) (decision_invokes _ _ ∙ ap permits p.evaluated ∙ p.permit)

  -- The wrapped handler is invoked exactly when the extractor returned a call, the call makes an
  -- evaluation request, and the authorizer returned a permit for that request.
  pub handle_invoked_iff : (w : W) → ((handle e world r w).1.invoked ≡ true) ↔ IsPermitted w
  handle_invoked_iff w = (invoked-IsPermitted w, IsPermitted-invoked w)
