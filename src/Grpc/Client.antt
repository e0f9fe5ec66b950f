-- ===== src/Grpc/Client.antt =====
-- grpc/client.go: the methods of a Client.
pub mod Through
use authzen.Base.{Option, none, some, Text, Result, ok, err}
use authzen.Core.Errors.{Error}
use authzen.Core.Types.{
  Subject, Resource, Action, EvaluationRequest, EvaluationResponse, EvaluationsRequest,
  EvaluationsResponse,
}
use authzen.Core.Search.{
  SubjectSearchRequest, ResourceSearchRequest, ActionSearchRequest, SearchResponse,
  validate_subject_search, validate_resource_search, validate_action_search,
}
use authzen.Core.Evaluation.{validate_request}
use authzen.Core.Batch.{validate_batch}
use authzen.Server.Http.{Metadata}
use authzen.Grpc.Proto
use authzen.Grpc.Status.{Status, invalid_argument_error, pdp_error}
use authzen.Grpc.Struct.{StructPb}
use authzen.Grpc.Evaluation.{evaluation_request_to_proto, evaluation_response_from_proto}
use authzen.Grpc.Batch.{evaluations_request_to_proto, evaluations_response_from_proto}
use authzen.Grpc.Search.{
  subject_search_request_to_proto, resource_search_request_to_proto, action_search_request_to_proto,
}
use authzen.Grpc.Search.Responses.{
  subject_search_response_from_proto, resource_search_response_from_proto,
  action_search_response_from_proto,
}
use authzen.Grpc.Configuration.{metadata_from_proto}

-- The generated AccessServiceClient: a call takes the state W of what answers it to the next, and
-- returns a message, which may be nil, or an error.
pub record Stub (S W E : Type 0) : Type 0 where
  pub evaluate : W → Proto.EvaluateRequest S → W × Result E (Option (Proto.EvaluateResponse S))
  pub evaluate_batch :
      W → Proto.EvaluateBatchRequest S → W × Result E (Option (Proto.EvaluateBatchResponse S))
  pub search_subjects :
      W
      → Proto.SearchSubjectsRequest S
      → W × Result E (Option (Proto.SearchResponse S (Proto.Subject S)))
  pub search_resources :
      W
      → Proto.SearchResourcesRequest S
      → W × Result E (Option (Proto.SearchResponse S (Proto.Resource S)))
  pub search_actions :
      W
      → Proto.SearchActionsRequest S
      → W × Result E (Option (Proto.SearchResponse S (Proto.Action S)))
  pub get_configuration : W → W × Result E (Option Proto.Configuration)

-- The message that came back, read; an error as it is.
abbrev pub receive : {E A M : Type 0} → (M → A) → Result E M → Result E A
receive read (err e) = err e
receive read (ok m) = ok (read m)

-- A request is validated, converted and sent, in this order.
unfoldable pub call :
    {E W A M N : Type 0}
    → Status E
    → W
    → Result Error (Unit {0})
    → Result Text M
    → (W → M → W × Result E N)
    → (N → A)
    → W × Result E A
call st w (err e) message send read = (w, err (invalid_argument_error st e))
call st w (ok u) (err t) send read = (w, err (pdp_error st (st.plain t)))
call st w (ok u) (ok m) send read = let (w', reply) = send w m in (w', receive read reply)

module _ {S E W : Type 0} (pb : StructPb S) (st : Status E) (grpc : Stub S W E) where
  unfoldable pub evaluate : W → EvaluationRequest → W × Result E EvaluationResponse
  evaluate w req =
      call st w (validate_request req) (evaluation_request_to_proto pb req) grpc.evaluate
        (evaluation_response_from_proto pb)

  unfoldable pub evaluate_batch : W → EvaluationsRequest → W × Result E EvaluationsResponse
  evaluate_batch w req =
      call st w (validate_batch req) (evaluations_request_to_proto pb req) grpc.evaluate_batch
        (evaluations_response_from_proto pb)

  unfoldable pub search_subjects : W → SubjectSearchRequest → W × Result E (SearchResponse Subject)
  search_subjects w req =
      call st w (validate_subject_search req) (subject_search_request_to_proto pb req)
        grpc.search_subjects (subject_search_response_from_proto pb)

  unfoldable pub search_resources :
      W → ResourceSearchRequest → W × Result E (SearchResponse Resource)
  search_resources w req =
      call st w (validate_resource_search req) (resource_search_request_to_proto pb req)
        grpc.search_resources (resource_search_response_from_proto pb)

  unfoldable pub search_actions : W → ActionSearchRequest → W × Result E (SearchResponse Action)
  search_actions w req =
      call st w (validate_action_search req) (action_search_request_to_proto pb req)
        grpc.search_actions (action_search_response_from_proto pb)

  unfoldable pub get_configuration : W → W × Result E Metadata
  get_configuration w =
      let (w', reply) = grpc.get_configuration w in (w', receive metadata_from_proto reply)
