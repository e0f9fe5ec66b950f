-- ===== src/Server/Endpoints/Safety.antt =====
-- The decision point only ever sees requests that passed their validation.
use authzen.Base.{
  ◌≡◌, refl, inl, inr, List, [], ◌∷◌, Option, none, some, Text, Result, ok, err, All, arith, ℕ,
  Bool-cases, ◌+◌, ◌++◌, >>=-eq-ok, subst,
}
use authzen.Core.Batch.Valid.{HasSemantic, validate_batch_iff}
use authzen.Core.Batch.{validate_batch, resolved}
use authzen.Core.Codec.Requests.{unmarshal_batch}
use authzen.Core.Evaluation.Complete.{
  IsComplete, IsSubject, IsResource, IsAction, validate_request_iff,
}
use authzen.Core.Search.Complete.{
  HasSubjectType, HasResourceType, validate_subject_search_iff, validate_resource_search_iff,
  validate_action_search_iff,
}
use authzen.Core.Search.{SubjectSearchRequest, ResourceSearchRequest, ActionSearchRequest}
use authzen.Core.Types.{
  EvaluationRequest, EvaluationsRequest, EvaluationResponse, EvaluationsResponse, Subject, Resource,
}
use authzen.Server.Batch.{
  BatchConfig, settle, stops, evaluate_members, evaluate_batch, Outcome-cases, semantic_of,
}
use authzen.Server.Endpoints.Guard.{admit-IsAdmitted}
use authzen.Server.Endpoints.{
  ask, handle_evaluation, handle_evaluations, call_batch, check_batch_size, clear_subject_id,
  clear_resource_id, handle_search_subject, handle_search_resource, handle_search_action, admit,
}
use authzen.Server.Handler.{Env, Handler}
use authzen.Server.Http.{Request, Response}
use authzen.Server.Pdp.{Panic, Pdp, Reply}

-- A search has no id for what is searched for.
abbrev pub NoSubjectId : Option Subject → Type 0
NoSubjectId none = Unit
NoSubjectId (some x) = x.id ≡ []

abbrev pub NoResourceId : Option Resource → Type 0
NoResourceId none = Unit
NoResourceId (some x) = x.id ≡ []

-- A property P of the decision point's state that each of its methods keeps, when it is called as
-- the interface says: with validated requests only, searches without the id that they must ignore.
pub record Keeps {S : Type 0} (pdp : Pdp S) (P : S → Type 0) : Type 0 where
  pub on_evaluate : (s : S) (q : EvaluationRequest) → IsComplete q → P s → P (pdp.evaluate s q).0
  pub on_subjects :
      (s : S) (q : SubjectSearchRequest)
      → HasSubjectType q.subject
      → IsAction q.action
      → IsResource q.resource
      → NoSubjectId q.subject
      → P s
      → P (pdp.search_subjects s q).0
  pub on_resources :
      (s : S) (q : ResourceSearchRequest)
      → IsSubject q.subject
      → IsAction q.action
      → HasResourceType q.resource
      → NoResourceId q.resource
      → P s
      → P (pdp.search_resources s q).0
  pub on_actions :
      (s : S) (q : ActionSearchRequest)
      → IsSubject q.subject
      → IsResource q.resource
      → P s
      → P (pdp.search_actions s q).0
  pub on_batch :
      (f : S → EvaluationsRequest → S × Reply EvaluationsResponse)
      → pdp.evaluate_batch ≡ some f
      → (s : S) (q : EvaluationsRequest) → HasSemantic q.options
      → All IsComplete (resolved q)
      → P s
      → P (f s q).0

module _ {S : Type 0} (pdp : Pdp S) (P : S → Type 0) (k : Keeps pdp P) where
  evaluate_members-Keeps :
      (c : BatchConfig) (semantic : Text) (i : ℕ) (out : List EvaluationResponse) (s : S)
      (qs : List EvaluationRequest)
      → All IsComplete qs
      → P s
      → P (evaluate_members pdp c semantic i out s qs).0
  unfolding evaluate_members
  evaluate_members-Keeps c semantic i out s [] valid p = p
  evaluate_members-Keeps c semantic i out s (q ∷ qs) valid p =
      let next : P (pdp.evaluate s q).0 = k.on_evaluate s q valid.0 p in
      elim (Outcome-cases (settle pdp c i (pdp.evaluate s q).0 (pdp.evaluate s q).1)) [
        | inl (r, e) ↦ elim (Bool-cases (stops semantic r.decision)) [
          | inl st ↦ rw (e, st, evaluate_members) next
          | inr go ↦
              rw (e, go, evaluate_members)
                (evaluate_members-Keeps c semantic (i + 1) (out ++ (r ∷ [])) (pdp.evaluate s q).0 qs
                  valid.1 next)
        ]
        | inr (inl (x, e)) ↦ rw (e, evaluate_members) next
        | inr (inr (x, e)) ↦ rw (e, evaluate_members) next
      ]

  evaluate_batch-Keeps :
      (c : BatchConfig) (s : S) (q : EvaluationsRequest)
      → All IsComplete (resolved q)
      → P s
      → P (evaluate_batch pdp c s q).0
  unfolding evaluate_batch
  evaluate_batch-Keeps c s q valid p =
      evaluate_members-Keeps c (semantic_of q.options) 0 [] s (resolved q) valid p

  ask-Keeps :
      {A : Type 0} (s : S) (m : Result Response A) (call : A → S × Result Panic Response)
      → P s
      → ((req : A) → m ≡ ok req → P (call req).0)
      → P (ask s m call).0
  unfolding ask
  ask-Keeps s (err resp) call p keep = p
  ask-Keeps s (ok req) call p keep = keep req refl

  call_batch-Keeps :
      (h : Handler) (env : Env) (s : S)
      (o : Option (S → EvaluationsRequest → S × Reply EvaluationsResponse))
      → pdp.evaluate_batch ≡ o
      → (q : EvaluationsRequest) → HasSemantic q.options × All IsComplete (resolved q)
      → P s
      → P (call_batch h env pdp s o q).0
  unfolding call_batch
  call_batch-Keeps h env s none e q (sem, valid) p = evaluate_batch-Keeps _ s q valid p
  call_batch-Keeps h env s (some f) e q (sem, valid) p = k.on_batch f e s q sem valid p

check_batch_size_ok :
    (h : Handler) (r : Request) (q req : EvaluationsRequest)
    → check_batch_size h r q ≡ ok req
    → q ≡ req
unfolding check_batch_size
check_batch_size_ok h r q req e = ground arith

pub clear_subject_id_lem :
    (o : Option Subject)
    → HasSubjectType o
    → HasSubjectType (clear_subject_id o) × NoSubjectId (clear_subject_id o)
unfolding clear_subject_id
clear_subject_id_lem none (x, e, t) = cc
clear_subject_id_lem (some y) (x, e, t) = ((record y { id = [] }, refl, ground arith), refl)

pub clear_resource_id_lem :
    (o : Option Resource)
    → HasResourceType o
    → HasResourceType (clear_resource_id o) × NoResourceId (clear_resource_id o)
unfolding clear_resource_id
clear_resource_id_lem none (x, e, t) = cc
clear_resource_id_lem (some y) (x, e, t) = ((record y { id = [] }, refl, ground arith), refl)

module _ {S : Type 0} (pdp : Pdp S) (P : S → Type 0) (k : Keeps pdp P) (h : Handler) (env : Env)
    (s : S) (r : Request) (p : P s) where
  pub handle_evaluation-Keeps : P (handle_evaluation h env pdp s r).0
  unfolding handle_evaluation
  handle_evaluation-Keeps = ask-Keeps pdp P k s _ _ p λ req e.
      k.on_evaluate s req ((validate_request_iff req).0 (admit-IsAdmitted h env r _ _ req e).valid)
        p

  pub handle_evaluations-Keeps : P (handle_evaluations h env pdp s r).0
  unfolding handle_evaluations
  handle_evaluations-Keeps = ask-Keeps pdp P k s _ _ p λ req e.
      let (q, admitted, sized) = >>=-eq-ok _ (admit h env r unmarshal_batch validate_batch) e in
      let valid = (validate_batch_iff q).0 (admit-IsAdmitted h env r _ _ q admitted).valid in
      call_batch-Keeps pdp P k h env s pdp.evaluate_batch refl req
        (subst (λ x. HasSemantic x.options × All IsComplete (resolved x))
          (check_batch_size_ok h r q req sized) valid)
        p

  pub handle_search_subject-Keeps : P (handle_search_subject h env pdp s r).0
  unfolding handle_search_subject
  handle_search_subject-Keeps = ask-Keeps pdp P k s _ _ p λ req e.
      let valid = (validate_subject_search_iff req).0 (admit-IsAdmitted h env r _ _ req e).valid in
      let cleared = clear_subject_id_lem req.subject valid.0 in
      k.on_subjects s _ cleared.0 valid.1 valid.2 cleared.1 p

  pub handle_search_resource-Keeps : P (handle_search_resource h env pdp s r).0
  unfolding handle_search_resource
  handle_search_resource-Keeps = ask-Keeps pdp P k s _ _ p λ req e.
      let valid = (validate_resource_search_iff req).0 (admit-IsAdmitted h env r _ _ req e).valid in
      let cleared = clear_resource_id_lem req.resource valid.2 in
      k.on_resources s _ valid.0 valid.1 cleared.0 cleared.1 p

  pub handle_search_action-Keeps : P (handle_search_action h env pdp s r).0
  unfolding handle_search_action
  handle_search_action-Keeps = ask-Keeps pdp P k s _ _ p λ req e.
      let valid = (validate_action_search_iff req).0 (admit-IsAdmitted h env r _ _ req e).valid in
      k.on_actions s req valid.0 valid.1 p
