-- ===== src/Grpc/Batch/RoundTrip.antt =====
-- grpc/conv.go: a batch that is converted to messages and read back.
use authzen.Base.{
  List, [], ◌∷◌, map, Option, none, some, Text, text, text_eq, Bool, ok, Returns, bind-Returns,
  Returns-ok, Returns-weaken, ap, ◌≡◌, refl, inl, inr, Bool-cases, is_empty,
}
use mathlib.Core.Option
use authzen.Core.Types.{
  Options, EvaluationRequest, EvaluationResponse, EvaluationsRequest, EvaluationsResponse,
}
use authzen.Core.Batch.{
  semantic_execute_all, semantic_deny_on_first_deny, semantic_permit_on_first_permit,
  validate_batch,
}
use authzen.Core.Batch.Valid.{IsSemantic, HasSemantic, validate_batch_iff}
use authzen.Core.Codec.{or_empty}
use authzen.Core.Codec.RoundTrip.{carried_response, carried_options}
use authzen.Grpc.Proto
use authzen.Grpc.Convert.{Reads, traverse, traverse-Reads}
use authzen.Grpc.Struct.{StructPb, IsFaithful, map_to_struct, map_to_struct-ReadsAs, ReadsAs}
use authzen.Grpc.Entities.{
  carried_subject, carried_resource, carried_action, subject_to_proto, subject_from_proto,
  resource_to_proto, resource_from_proto, action_to_proto, action_from_proto,
  subject_to_proto-Reads, resource_to_proto-Reads, action_to_proto-Reads,
}
use authzen.Grpc.Evaluation.{
  carried_request, evaluation_request_to_proto, evaluation_request_of,
  evaluation_request_from_proto, evaluation_response_to_proto, evaluation_response_from_proto,
  evaluation_request_to_proto-Reads, evaluation_response_to_proto-Reads,
}
use authzen.Grpc.Batch.{
  semantic_to_proto, semantic_from_proto, carried_batch, carried_batch_response, options_message,
  options_to_proto, options_of, options_from_proto, member_to_proto, evaluations_request_to_proto,
  evaluations_request_of, evaluations_request_from_proto, decision_to_proto, batch_to_proto,
  single_to_proto, shape_to_proto, evaluations_response_to_proto, evaluations_response_from_proto,
}

-- The enum carries the named semantics and the default.
semantic_from_proto-semantic_to_proto :
    (s : Text) → IsSemantic s → semantic_from_proto (semantic_to_proto s) ≡ s
unfolding semantic_to_proto semantic_from_proto semantic_execute_all semantic_deny_on_first_deny
    semantic_permit_on_first_permit text text_eq
semantic_from_proto-semantic_to_proto s (inl e) = rw e refl
semantic_from_proto-semantic_to_proto s (inr (inl e)) = rw e refl
semantic_from_proto-semantic_to_proto s (inr (inr (inl e))) = rw e refl
semantic_from_proto-semantic_to_proto s (inr (inr (inr e))) = rw e refl

abbrev batch_of : List EvaluationResponse → EvaluationsResponse
batch_of l = record { decision = none; context = none; evaluations = some l }

module _ {S : Type 0} (pb : StructPb S) (faithful : IsFaithful pb) where
  options_message-Reads :
      (o : Options)
      → IsSemantic o.evaluations_semantic
      → Returns (Reads (options_of pb) (carried_options o)) (options_message pb o)
  unfolding options_message options_of
  options_message-Reads o named =
      bind-Returns (ReadsAs pb o.additional) _ (map_to_struct pb o.additional) _
        (map_to_struct-ReadsAs pb faithful o.additional)
        (λ a e. rw (e, semantic_from_proto-semantic_to_proto o.evaluations_semantic named) refl)

  options_to_proto-Reads :
      (o : Option Options)
      → HasSemantic o
      → Returns
          (Reads (options_from_proto pb) (Option.map carried_options o))
          (options_to_proto pb o)
  unfolding options_to_proto options_from_proto
  options_to_proto-Reads none named = refl
  options_to_proto-Reads (some o) named =
      bind-Returns (Reads (options_of pb) (carried_options o)) _ (options_message pb o) _
        (options_message-Reads o named) (λ m e. ap (λ v. some v) e)

  member_to_proto-Reads :
      (r : EvaluationRequest)
      → Returns
          (Reads (evaluation_request_from_proto pb) (carried_request r))
          (member_to_proto pb r)
  unfolding member_to_proto evaluation_request_from_proto
  member_to_proto-Reads r =
      bind-Returns (Reads (evaluation_request_of pb) (carried_request r)) _
        (evaluation_request_to_proto pb r) _ (evaluation_request_to_proto-Reads pb faithful r)
        (λ m e. e)

  decision_to_proto-Reads :
      (r : EvaluationResponse)
      → Returns
          (Reads (evaluation_response_from_proto pb) (carried_response r))
          (decision_to_proto pb r)
  unfolding decision_to_proto
  decision_to_proto-Reads r =
      bind-Returns (λ m. evaluation_response_from_proto pb (some m) ≡ carried_response r) _
        (evaluation_response_to_proto pb r) _ (evaluation_response_to_proto-Reads pb faithful r)
        (λ m e. e)

  pub evaluations_request_to_proto-Reads :
      (r : EvaluationsRequest)
      → HasSemantic r.options
      → Returns
          (Reads (evaluations_request_of pb) (carried_batch r))
          (evaluations_request_to_proto pb r)
  unfolding evaluations_request_to_proto evaluations_request_of
  evaluations_request_to_proto-Reads r named =
      bind-Returns (Reads (subject_from_proto pb) (Option.map carried_subject r.subject)) _
        (subject_to_proto pb r.subject) _ (subject_to_proto-Reads pb faithful r.subject)
        (λ s d.
          bind-Returns (Reads (action_from_proto pb) (Option.map carried_action r.action)) _
            (action_to_proto pb r.action) _ (action_to_proto-Reads pb faithful r.action)
            (λ a e.
              bind-Returns (Reads (resource_from_proto pb) (Option.map carried_resource r.resource))
                _ (resource_to_proto pb r.resource) _
                (resource_to_proto-Reads pb faithful r.resource)
                (λ x f.
                  bind-Returns (ReadsAs pb r.context) _ (map_to_struct pb r.context) _
                    (map_to_struct-ReadsAs pb faithful r.context)
                    (λ c g.
                      bind-Returns
                        (Reads (options_from_proto pb) (Option.map carried_options r.options)) _
                        (options_to_proto pb r.options) _ (options_to_proto-Reads r.options named)
                        (λ o h.
                          bind-Returns
                            (Reads (map (evaluation_request_from_proto pb))
                              (map carried_request r.evaluations))
                            _ (traverse (member_to_proto pb) r.evaluations) _
                            (traverse-Reads (member_to_proto pb) (evaluation_request_from_proto pb)
                              carried_request member_to_proto-Reads r.evaluations)
                            (λ ms i. rw (d, e, f, g, h, i) refl))))))

  batch_to_proto-Reads :
      (r : EvaluationsResponse)
      → Returns
          (λ m.
            map (evaluation_response_from_proto pb) m.evaluations
            ≡ map carried_response (or_empty r.evaluations))
          (batch_to_proto pb r)
  unfolding batch_to_proto
  batch_to_proto-Reads r =
      bind-Returns
        (Reads (map (evaluation_response_from_proto pb))
          (map carried_response (or_empty r.evaluations)))
        _ (traverse (decision_to_proto pb) (or_empty r.evaluations)) _
        (traverse-Reads (decision_to_proto pb) (evaluation_response_from_proto pb) carried_response
          decision_to_proto-Reads (or_empty r.evaluations))
        (λ ms e. e)

  single_to_proto-Reads :
      (r : EvaluationsResponse) (d : Bool)
      → Returns
          (λ m.
            map (evaluation_response_from_proto pb) m.evaluations
            ≡ carried_response (record { decision = d; context = r.context }) ∷ [])
          (single_to_proto pb r d)
  unfolding single_to_proto
  single_to_proto-Reads r d =
      let single : EvaluationResponse = record { decision = d; context = r.context } in
      bind-Returns (Reads (evaluation_response_from_proto pb) (carried_response single)) _
        (decision_to_proto pb single) _ (decision_to_proto-Reads single) (λ m e. ap (λ v. v ∷ []) e)

  shape_to_proto-Reads :
      (r : EvaluationsResponse) (shape : Option Bool)
      → Returns
          (λ m.
            evaluations_response_from_proto pb (some m)
            ≡ carried_batch_response (record r { decision = shape }))
          (shape_to_proto pb r shape)
  unfolding shape_to_proto evaluations_response_from_proto
  shape_to_proto-Reads r none =
      Returns-weaken _ _ (batch_to_proto pb r) (batch_to_proto-Reads r) (λ m e. ap batch_of e)
  shape_to_proto-Reads r (some d) = elim (Bool-cases (is_empty (or_empty r.evaluations))) [
    | inl e ↦ rw e (
        Returns-weaken _ _ (single_to_proto pb r d) (single_to_proto-Reads r d)
          (λ m f. ap batch_of f))
    | inr e ↦
        rw e
          (Returns-weaken _ _ (batch_to_proto pb r) (batch_to_proto-Reads r) (λ m f. ap batch_of f))
  ]

  pub evaluations_response_to_proto-Reads :
      (r : EvaluationsResponse)
      → Returns
          (λ m. evaluations_response_from_proto pb (some m) ≡ carried_batch_response r)
          (evaluations_response_to_proto pb r)
  unfolding evaluations_response_to_proto
  evaluations_response_to_proto-Reads r = shape_to_proto-Reads r r.decision

  -- A batch request that Validate accepts, once it is converted to a message and read back, is the
  -- batch that was sent, with every map as the wire carries it.
  pub evaluations_request_from_proto-evaluations_request_to_proto :
      (r : EvaluationsRequest) {m : Proto.EvaluateBatchRequest S}
      → validate_batch r ≡ ok tt
      → evaluations_request_to_proto pb r ≡ ok m
      → evaluations_request_from_proto pb (some m) ≡ carried_batch r
  unfolding evaluations_request_from_proto
  evaluations_request_from_proto-evaluations_request_to_proto r {m} valid sent =
      Returns-ok (Reads (evaluations_request_of pb) (carried_batch r))
        (evaluations_request_to_proto pb r) m
        (evaluations_request_to_proto-Reads r ((validate_batch_iff r).0 valid).0) sent
