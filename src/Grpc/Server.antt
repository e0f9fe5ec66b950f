-- ===== src/Grpc/Server.antt =====
-- grpc/server.go: the PDP interface, and the six methods of a Server.
pub mod Safety
use authzen.Base.{Option, none, some, Text, Result, ok, err, List, [], ◌∷◌}
use authzen.Core.Errors.{Error}
use authzen.Core.Types.{
  Subject, Resource, Action, EvaluationRequest, EvaluationResponse, EvaluationsRequest,
  EvaluationsResponse,
}
use authzen.Core.Search.{
  SubjectSearchRequest, ResourceSearchRequest, ActionSearchRequest, SearchResponse,
  validate_subject_search, validate_resource_search, validate_action_search,
}
use authzen.Core.Evaluation.{validate_request}
use authzen.Core.Batch.{validate_batch}
use authzen.Server.Http.{Metadata}
use authzen.Server.Endpoints.{clear_subject_id, clear_resource_id}
use authzen.Grpc.Proto
use authzen.Grpc.Status.{Status, invalid_argument_error, pdp_error, or_plain}
use authzen.Grpc.Struct.{StructPb}
use authzen.Grpc.Evaluation.{evaluation_request_from_proto, evaluation_response_to_proto}
use authzen.Grpc.Batch.{evaluations_request_from_proto, evaluations_response_to_proto}
use authzen.Grpc.Search.{
  subject_search_request_from_proto, resource_search_request_from_proto,
  action_search_request_from_proto,
}
use authzen.Grpc.Search.Responses.{
  subject_search_response_to_proto, resource_search_response_to_proto,
  action_search_response_to_proto,
}
use authzen.Grpc.Configuration.{metadata_to_proto}

-- The decision point belongs to the caller: it is a parameter, and carries a state W of its own from
-- call to call.
pub record Pdp (W E : Type 0) : Type 0 where
  pub evaluate : W → EvaluationRequest → W × Result E EvaluationResponse
  pub evaluate_batch : W → EvaluationsRequest → W × Result E EvaluationsResponse
  pub search_subjects : W → SubjectSearchRequest → W × Result E (SearchResponse Subject)
  pub search_resources : W → ResourceSearchRequest → W × Result E (SearchResponse Resource)
  pub search_actions : W → ActionSearchRequest → W × Result E (SearchResponse Action)
  pub configuration : W → W × Result E Metadata

-- The decision point's answer, converted; its error, as a status.
unfoldable pub answer : {E A M : Type 0} → Status E → (A → Result Text M) → Result E A → Result E M
answer st convert (err e) = err (pdp_error st e)
answer st convert (ok a) = or_plain st (convert a)

-- The decision point is asked once the request is valid, and left alone otherwise.
unfoldable pub serve :
    {E W A M : Type 0}
    → Status E
    → W
    → Result Error (Unit {0})
    → (W → W × Result E A)
    → (A → Result Text M)
    → W × Result E M
serve st w (err e) ask convert = (w, err (invalid_argument_error st e))
serve st w (ok u) ask convert = let (w', reply) = ask w in (w', answer st convert reply)

module _ {S E W : Type 0} (pb : StructPb S) (st : Status E) (pdp : Pdp W E) where
  unfoldable pub evaluate :
      W → Option (Proto.EvaluateRequest S) → W × Result E (Proto.EvaluateResponse S)
  evaluate w m =
      let req = evaluation_request_from_proto pb m in
      serve st w (validate_request req) (λ v. pdp.evaluate v req) (evaluation_response_to_proto pb)

  unfoldable pub evaluate_batch :
      W → Option (Proto.EvaluateBatchRequest S) → W × Result E (Proto.EvaluateBatchResponse S)
  evaluate_batch w m =
      let req = evaluations_request_from_proto pb m in
      serve st w (validate_batch req) (λ v. pdp.evaluate_batch v req)
        (evaluations_response_to_proto pb)

  unfoldable pub search_subjects :
      W
      → Option (Proto.SearchSubjectsRequest S)
      → W × Result E (Proto.SearchResponse S (Proto.Subject S))
  search_subjects w m =
      let req = subject_search_request_from_proto pb m in
      serve st w (validate_subject_search req)
        (λ v. pdp.search_subjects v (record req { subject = clear_subject_id req.subject }))
        (subject_search_response_to_proto pb)

  unfoldable pub search_resources :
      W
      → Option (Proto.SearchResourcesRequest S)
      → W × Result E (Proto.SearchResponse S (Proto.Resource S))
  search_resources w m =
      let req = resource_search_request_from_proto pb m in
      serve st w (validate_resource_search req)
        (λ v. pdp.search_resources v (record req { resource = clear_resource_id req.resource }))
        (resource_search_response_to_proto pb)

  unfoldable pub search_actions :
      W
      → Option (Proto.SearchActionsRequest S)
      → W × Result E (Proto.SearchResponse S (Proto.Action S))
  search_actions w m =
      let req = action_search_request_from_proto pb m in
      serve st w (validate_action_search req) (λ v. pdp.search_actions v req)
        (action_search_response_to_proto pb)

  unfoldable pub get_configuration : W → W × Result E Proto.Configuration
  get_configuration w =
      let (w', reply) = pdp.configuration w in (w', answer st (λ m. ok (metadata_to_proto m)) reply)
