-- ===== src/Core/Evaluation/Complete.antt =====
-- What the specification requires of a request, and that Validate decides it.
use authzen.Base.{[], ◌≡◌, refl, ◌≢◌, ◌↔◌, Option, none, some, ok, >>-eq-ok, arith}
use authzen.Core.Evaluation.{validate_subject, validate_resource, validate_action, validate_request}
use authzen.Core.Types.{Subject, Resource, Action, EvaluationRequest}

-- "type and id are REQUIRED" and "name is REQUIRED": present, and not the empty string.
abbrev pub IsSubject : Option Subject → Type 0
IsSubject o = (s : Subject) × (o ≡ some s) × (s.type ≢ []) × (s.id ≢ [])

abbrev pub IsResource : Option Resource → Type 0
IsResource o = (r : Resource) × (o ≡ some r) × (r.type ≢ []) × (r.id ≢ [])

abbrev pub IsAction : Option Action → Type 0
IsAction o = (a : Action) × (o ≡ some a) × (a.name ≢ [])

pub record IsComplete (r : EvaluationRequest) : Type 0 where
  pub subject_ok : IsSubject r.subject
  pub action_ok : IsAction r.action
  pub resource_ok : IsResource r.resource

pub validate_subject_iff : (o : Option Subject) → (validate_subject o ≡ ok tt) ↔ IsSubject o
unfolding validate_subject
validate_subject_iff none = (λ h. cc, λ h. cc (h.1))
validate_subject_iff (some s) = (λ h. (s, refl, ground arith, ground arith), λ h. ground arith)

pub validate_resource_iff : (o : Option Resource) → (validate_resource o ≡ ok tt) ↔ IsResource o
unfolding validate_resource
validate_resource_iff none = (λ h. cc, λ h. cc (h.1))
validate_resource_iff (some r) = (λ h. (r, refl, ground arith, ground arith), λ h. ground arith)

pub validate_action_iff : (o : Option Action) → (validate_action o ≡ ok tt) ↔ IsAction o
unfolding validate_action
validate_action_iff none = (λ h. cc, λ h. cc (h.1))
validate_action_iff (some a) = (λ h. (a, refl, ground arith), λ h. ground arith)

-- An evaluation request is accepted exactly when it carries a subject with a non-empty type and
-- id, an action with a non-empty name and a resource with a non-empty type and id.
pub validate_request_iff : (r : EvaluationRequest) → (validate_request r ≡ ok tt) ↔ IsComplete r
unfolding validate_request
validate_request_iff r = (
  λ h.
      let (s, rest) = (>>-eq-ok _ _).0 h in
      let (a, o) = (>>-eq-ok _ _).0 rest in
      record {
        subject_ok = (validate_subject_iff r.subject).0 s;
        action_ok = (validate_action_iff r.action).0 a;
        resource_ok = (validate_resource_iff r.resource).0 o;
      },
  λ c.
      let o = (validate_resource_iff r.resource).1 c.resource_ok in
      let a = (validate_action_iff r.action).1 c.action_ok in
      (>>-eq-ok _ _).1 ((validate_subject_iff r.subject).1 c.subject_ok, (>>-eq-ok _ _).1 (a, o)),
)
