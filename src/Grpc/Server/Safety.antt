-- ===== src/Grpc/Server/Safety.antt =====
-- grpc/server.go: the decision point only ever sees requests that passed their validation, and what
-- an error of a method is.
use authzen.Base.{
  Option, Text, Result, ok, err, List, [], ◌∷◌, Result-cases, ◌≡◌, refl, sym, subst, err-injective,
  ◌⊎◌, inl, inr, All, true,
}
use authzen.Core.Types.{EvaluationRequest, EvaluationsRequest}
use authzen.Core.Errors.{Error}
use authzen.Core.Search.{
  SubjectSearchRequest, ResourceSearchRequest, ActionSearchRequest, validate_subject_search,
  validate_resource_search, validate_action_search,
}
use authzen.Core.Batch.{validate_batch, resolved}
use authzen.Core.Batch.Valid.{HasSemantic, validate_batch_iff}
use authzen.Core.Evaluation.{validate_request}
use authzen.Core.Evaluation.Complete.{
  IsComplete, IsSubject, IsResource, IsAction, validate_request_iff,
}
use authzen.Core.Search.Complete.{
  HasSubjectType, HasResourceType, validate_subject_search_iff, validate_resource_search_iff,
  validate_action_search_iff,
}
use authzen.Server.Endpoints.Safety.{
  NoSubjectId, NoResourceId, clear_subject_id_lem, clear_resource_id_lem,
}
use authzen.Grpc.Proto
use authzen.Grpc.Status.{
  invalid_argument, not_valid, Status, IsDocumented, from_error-pdp_error, invalid_argument_error,
}
use authzen.Grpc.Struct.{StructPb}
use authzen.Grpc.Evaluation.{evaluation_request_from_proto}
use authzen.Grpc.Batch.{evaluations_request_from_proto, evaluations_response_to_proto}
use authzen.Grpc.Search.{
  subject_search_request_from_proto, resource_search_request_from_proto,
  action_search_request_from_proto,
}
use authzen.Grpc.Server.{
  Pdp, answer, serve, evaluate, evaluate_batch, search_subjects, search_resources, search_actions,
  get_configuration,
}

-- A property P of the decision point's state that each of its methods keeps, when it is called with
-- validated requests only, and with searches without the id that they must ignore.
pub record Keeps {W E : Type 0} (pdp : Pdp W E) (P : W → Type 0) : Type 0 where
  pub on_evaluate : (w : W) (q : EvaluationRequest) → IsComplete q → P w → P (pdp.evaluate w q).0
  pub on_batch :
      (w : W) (q : EvaluationsRequest)
      → HasSemantic q.options × All IsComplete (resolved q)
      → P w
      → P (pdp.evaluate_batch w q).0
  pub on_subjects :
      (w : W) (q : SubjectSearchRequest)
      → HasSubjectType q.subject × IsAction q.action × IsResource q.resource
      → NoSubjectId q.subject
      → P w
      → P (pdp.search_subjects w q).0
  pub on_resources :
      (w : W) (q : ResourceSearchRequest)
      → IsSubject q.subject × IsAction q.action × HasResourceType q.resource
      → NoResourceId q.resource
      → P w
      → P (pdp.search_resources w q).0
  pub on_actions :
      (w : W) (q : ActionSearchRequest)
      → IsSubject q.subject × IsResource q.resource
      → P w
      → P (pdp.search_actions w q).0
  pub on_configuration : (w : W) → P w → P (pdp.configuration w).0

-- A call of one of the six methods, with the message that it carries.
pub data Rpc (S : Type 0) : Type 0 where
  evaluate_rpc : Option (Proto.EvaluateRequest S) → Rpc S
  evaluate_batch_rpc : Option (Proto.EvaluateBatchRequest S) → Rpc S
  search_subjects_rpc : Option (Proto.SearchSubjectsRequest S) → Rpc S
  search_resources_rpc : Option (Proto.SearchResourcesRequest S) → Rpc S
  search_actions_rpc : Option (Proto.SearchActionsRequest S) → Rpc S
  configuration_rpc : Rpc S

module _ {S E W : Type 0} (pb : StructPb S) (st : Status E) (pdp : Pdp W E) where
  -- The decision point's state after a call.
  unfoldable pub after_rpc : W → Rpc S → W
  after_rpc w (evaluate_rpc m) = (evaluate pb st pdp w m).0
  after_rpc w (evaluate_batch_rpc m) = (evaluate_batch pb st pdp w m).0
  after_rpc w (search_subjects_rpc m) = (search_subjects pb st pdp w m).0
  after_rpc w (search_resources_rpc m) = (search_resources pb st pdp w m).0
  after_rpc w (search_actions_rpc m) = (search_actions pb st pdp w m).0
  after_rpc w configuration_rpc = (get_configuration pb st pdp w).0

  unfoldable pub after_rpcs : W → List (Rpc S) → W
  after_rpcs w [] = w
  after_rpcs w (c ∷ cs) = after_rpcs (after_rpc w c) cs

  serve-Keeps :
      {A M : Type 0} (P : W → Type 0) (w : W) (valid : Result Error (Unit {0}))
      (ask : W → W × Result E A) (convert : A → Result Text M)
      → P w
      → (valid ≡ ok tt → P (ask w).0)
      → P (serve st w valid ask convert).0
  unfolding serve
  serve-Keeps P w (err e) ask convert p keep = p
  serve-Keeps P w (ok u) ask convert p keep = keep refl

  module _ (P : W → Type 0) (k : Keeps pdp P) where
    after_rpc-Keeps : (w : W) (c : Rpc S) → P w → P (after_rpc w c)
    unfolding after_rpc evaluate evaluate_batch search_subjects search_resources search_actions
        get_configuration
    after_rpc-Keeps w (evaluate_rpc m) p =
        let req = evaluation_request_from_proto pb m in
        serve-Keeps P w (validate_request req) _ _ p
          (λ h. k.on_evaluate w req ((validate_request_iff req).0 h) p)
    after_rpc-Keeps w (evaluate_batch_rpc m) p =
        let req = evaluations_request_from_proto pb m in
        serve-Keeps P w (validate_batch req) _ _ p
          (λ h. k.on_batch w req ((validate_batch_iff req).0 h) p)
    after_rpc-Keeps w (search_subjects_rpc m) p =
        let req = subject_search_request_from_proto pb m in
        serve-Keeps P w (validate_subject_search req) _ _ p (λ h.
          let valid = (validate_subject_search_iff req).0 h in
          let cleared = clear_subject_id_lem req.subject valid.0 in
          k.on_subjects w _ (cleared.0, valid.1, valid.2) cleared.1 p)
    after_rpc-Keeps w (search_resources_rpc m) p =
        let req = resource_search_request_from_proto pb m in
        serve-Keeps P w (validate_resource_search req) _ _ p (λ h.
          let valid = (validate_resource_search_iff req).0 h in
          let cleared = clear_resource_id_lem req.resource valid.2 in
          k.on_resources w _ (valid.0, valid.1, cleared.0) cleared.1 p)
    after_rpc-Keeps w (search_actions_rpc m) p =
        let req = action_search_request_from_proto pb m in
        serve-Keeps P w (validate_action_search req) _ _ p
          (λ h. k.on_actions w req ((validate_action_search_iff req).0 h) p)
    after_rpc-Keeps w configuration_rpc p = k.on_configuration w p

    -- Whatever calls arrive at a Server, in whatever order, its decision point is only asked with
    -- requests that passed their validation, and with searches without the id that they must
    -- ignore, so its state keeps every property that such calls keep.
    pub after_rpcs-Keeps : (w : W) (cs : List (Rpc S)) → P w → P (after_rpcs w cs)
    unfolding after_rpcs
    after_rpcs-Keeps w [] p = p
    after_rpcs-Keeps w (c ∷ cs) p = after_rpcs-Keeps (after_rpc w c) cs (after_rpc-Keeps w c p)

-- The answer of the decision point cannot be converted, and e is the error of the conversion, as
-- it is.
pub record IsUnconvertible {E A M : Type 0} (st : Status E) (reply : Result E A)
    (convert : A → Result Text M) (e : E) : Type 0 where
  pub value : A
  pub why : Text
  pub answered : reply ≡ ok value
  pub refused : convert value ≡ err why
  pub bare : e ≡ st.plain why

module _ {E A M : Type 0} (st : Status E) (doc : IsDocumented st)
    (convert : A → Result Text M) where
  answer_errors :
      (reply : Result E A) {e : E}
      → answer st convert reply ≡ err e
      → (st.from_error e ≡ true) ⊎ IsUnconvertible st reply convert e
  unfolding answer
  answer_errors (err x) h =
      inl (subst (λ v. st.from_error v ≡ true) (err-injective h) (from_error-pdp_error st doc x))
  answer_errors (ok a) h = elim (Result-cases (convert a)) [
    | inl (m, c) ↦ absurd (cc)
    | inr (t, c) ↦ inr (record {
      value = a;
      why = t;
      answered = refl;
      refused = c;
      bare = sym (err-injective (rw c at h));
    })
  ]

  serve_errors :
      {W : Type 0} (w : W) (valid : Result Error (Unit {0})) (ask : W → W × Result E A) {e : E}
      → (serve st w valid ask convert).1 ≡ err e
      → (st.from_error e ≡ true) ⊎ IsUnconvertible st (ask w).1 convert e
  unfolding serve invalid_argument_error
  serve_errors w (err v) ask h = inl (
      subst (λ v. st.from_error v ≡ true) (err-injective h)
        (doc.from_error-new_status invalid_argument (not_valid v)))
  serve_errors w (ok u) ask h = answer_errors (ask w).1 h

-- An error of EvaluateBatch of a Server is a status, unless the decision point answered and its
-- answer cannot be converted: then it is the error of the conversion, as it is.
pub evaluate_batch_errors :
    {S E W : Type 0} (pb : StructPb S) (st : Status E) (pdp : Pdp W E) (w : W)
    (m : Option (Proto.EvaluateBatchRequest S)) {e : E}
    → IsDocumented st
    → (evaluate_batch pb st pdp w m).1 ≡ err e
    → (st.from_error e ≡ true)
      ⊎ IsUnconvertible st
          (pdp.evaluate_batch w (evaluations_request_from_proto pb m)).1
          (evaluations_response_to_proto pb)
          e
unfolding evaluate_batch
evaluate_batch_errors pb st pdp w m doc h =
    serve_errors st doc (evaluations_response_to_proto pb) w
      (validate_batch (evaluations_request_from_proto pb m))
      (λ v. pdp.evaluate_batch v (evaluations_request_from_proto pb m)) h
