-- ===== src/Client/Calls.antt =====
-- client/client.go: the calls of a Client.
use authzen.Base.{
  ◌++◌, Option, none, some, Text, text, is_empty, if◌then◌else◌, Result, ok, err, ◌>>=◌,
}
use authzen.Core.Errors.{Error}
use authzen.Core.Types.{
  Subject, Resource, Action, EvaluationRequest, EvaluationResponse, EvaluationsRequest,
  EvaluationsResponse,
}
use authzen.Core.Search.{
  SubjectSearchRequest, ResourceSearchRequest, ActionSearchRequest, SearchResponse,
  validate_subject_search, validate_resource_search, validate_action_search,
}
use authzen.Core.Evaluation.{validate_request}
use authzen.Core.Batch.{validate_batch}
use authzen.Server.Http.{Metadata}
use authzen.Server.Handler.{well_known_configuration_path}
use authzen.Client.Config.{Net, Client}
use authzen.Client.Issuer.{endpoint, trim_right_slash, same_issuer}
use authzen.Client.Transport.{
  ClientError, nil_request, not_valid, metadata_mismatch, post_body, get,
}

-- encoding/json, on the types that are sent and received.
pub record Json : Type 0 where
  pub marshal_evaluation : EvaluationRequest → Result Text Text
  pub unmarshal_evaluation : Text → Result Text EvaluationResponse
  pub marshal_evaluations : EvaluationsRequest → Result Text Text
  pub unmarshal_evaluations : Text → Result Text EvaluationsResponse
  pub marshal_subject_search : SubjectSearchRequest → Result Text Text
  pub unmarshal_subject_search : Text → Result Text (SearchResponse Subject)
  pub marshal_resource_search : ResourceSearchRequest → Result Text Text
  pub unmarshal_resource_search : Text → Result Text (SearchResponse Resource)
  pub marshal_action_search : ActionSearchRequest → Result Text Text
  pub unmarshal_action_search : Text → Result Text (SearchResponse Action)
  pub unmarshal_metadata : Text → Result Text Metadata

unfoldable pub default_evaluation_path : Text
default_evaluation_path = text "/access/v1/evaluation"

unfoldable pub default_evaluations_path : Text
default_evaluations_path = text "/access/v1/evaluations"

unfoldable pub default_search_subject_path : Text
default_search_subject_path = text "/access/v1/search/subject"

unfoldable pub default_search_resource_path : Text
default_search_resource_path = text "/access/v1/search/resource"

unfoldable pub default_search_action_path : Text
default_search_action_path = text "/access/v1/search/action"

-- A request that is not nil and passes its validation is posted to its endpoint.
unfoldable pub call :
    {W A B : Type 0}
    → W
    → (A → Result Error (Unit {0}))
    → (A → W × Result ClientError B)
    → Option A
    → W × Result ClientError B
call w validate send none = (w, err nil_request)
call w validate send (some a) = elim (validate a) [ err e ↦ (w, err (not_valid e)) | ok u ↦ send a ]

-- The document that was read, unless it names another decision point.
unfoldable pub trusted_metadata :
    {W : Type 0} → Net W → Client → Metadata → Result ClientError Metadata
trusted_metadata net c m =
    if c.skip_metadata_validation
    then ok m
    else let expected = if is_empty c.expected_issuer then c.base_url else c.expected_issuer in
      if same_issuer net expected m.policy_decision_point
      then ok m
      else err (metadata_mismatch expected m.policy_decision_point)

module _ {W : Type 0} (net : Net W) (json : Json) (c : Client) (w : W) where
  unfoldable pub evaluate : Option EvaluationRequest → W × Result ClientError EvaluationResponse
  evaluate = call w validate_request (λ r.
      post_body net c w (endpoint c c.evaluation_path default_evaluation_path)
        json.unmarshal_evaluation (json.marshal_evaluation r))

  unfoldable pub evaluate_batch :
      Option EvaluationsRequest → W × Result ClientError EvaluationsResponse
  evaluate_batch = call w validate_batch (λ r.
      post_body net c w (endpoint c c.evaluations_path default_evaluations_path)
        json.unmarshal_evaluations (json.marshal_evaluations r))

  unfoldable pub search_subjects :
      Option SubjectSearchRequest → W × Result ClientError (SearchResponse Subject)
  search_subjects = call w validate_subject_search (λ r.
      post_body net c w (endpoint c c.search_subject_path default_search_subject_path)
        json.unmarshal_subject_search (json.marshal_subject_search r))

  unfoldable pub search_resources :
      Option ResourceSearchRequest → W × Result ClientError (SearchResponse Resource)
  search_resources = call w validate_resource_search (λ r.
      post_body net c w (endpoint c c.search_resource_path default_search_resource_path)
        json.unmarshal_resource_search (json.marshal_resource_search r))

  unfoldable pub search_actions :
      Option ActionSearchRequest → W × Result ClientError (SearchResponse Action)
  search_actions = call w validate_action_search (λ r.
      post_body net c w (endpoint c c.search_action_path default_search_action_path)
        json.unmarshal_action_search (json.marshal_action_search r))

  unfoldable pub metadata : W × Result ClientError Metadata
  metadata =
      let (w', reply) =
        get net c w (trim_right_slash c.base_url ++ well_known_configuration_path)
          json.unmarshal_metadata in
      (w', reply >>= trusted_metadata net c)
