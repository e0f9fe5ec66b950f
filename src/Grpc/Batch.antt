-- ===== src/Grpc/Batch.antt =====
-- grpc/conv.go: batch requests and responses, both ways.
pub mod RoundTrip
use authzen.Base.{
  List, [], ◌∷◌, map, Option, none, some, Text, text, text_eq, text_eq_refl, Bool, true, false,
  ◌&&◌, is_empty, Result, ok, err, ◌>>=◌, Returns, bind-Returns, ap, ◌≡◌, refl, ◌⊎◌, inl, inr,
  if◌then◌else◌,
}
use mathlib.Core.Option
use authzen.Json.{Fields}
use authzen.Core.Types.{
  Subject, Resource, Action, Options, EvaluationRequest, EvaluationResponse, EvaluationsRequest,
  EvaluationsResponse,
}
use authzen.Core.Batch.{
  semantic_execute_all, semantic_deny_on_first_deny, semantic_permit_on_first_permit,
}
use authzen.Core.Batch.Valid.{IsSemantic, HasSemantic}
use authzen.Core.Codec.{or_empty}
use authzen.Core.Codec.RoundTrip.{carried, carried_options, carried_response}
use authzen.Grpc.Proto
use authzen.Grpc.Convert.{pointer, pointer-Reads, Reads, traverse, traverse-Reads}
use authzen.Grpc.Struct.{
  StructPb, IsFaithful, struct_to_map, map_to_struct, map_to_struct-ReadsAs, ReadsAs,
}
use authzen.Grpc.Entities.{
  carried_subject, carried_resource, carried_action, subject_to_proto, subject_from_proto,
  resource_to_proto, resource_from_proto, action_to_proto, action_from_proto,
  subject_to_proto-Reads, resource_to_proto-Reads, action_to_proto-Reads,
}
use authzen.Grpc.Evaluation.{
  carried_request, empty_request, empty_response, evaluation_request_to_proto,
  evaluation_request_of, evaluation_request_from_proto, evaluation_response_to_proto,
  evaluation_response_from_proto, evaluation_request_to_proto-Reads,
  evaluation_response_to_proto-Reads,
}

unfoldable pub semantic_to_proto : Text → Proto.Semantic
semantic_to_proto s =
    if text_eq s semantic_execute_all
    then Proto.execute_all
    else if text_eq s semantic_deny_on_first_deny
    then Proto.deny_on_first_deny
    else if text_eq s semantic_permit_on_first_permit
    then Proto.permit_on_first_permit
    else Proto.unspecified

unfoldable pub semantic_from_proto : Proto.Semantic → Text
semantic_from_proto Proto.execute_all = semantic_execute_all
semantic_from_proto Proto.deny_on_first_deny = semantic_deny_on_first_deny
semantic_from_proto Proto.permit_on_first_permit = semantic_permit_on_first_permit
semantic_from_proto Proto.unspecified = []
semantic_from_proto (Proto.unknown n) = []

abbrev pub carried_batch : EvaluationsRequest → EvaluationsRequest
carried_batch r = record {
  subject = Option.map carried_subject r.subject;
  action = Option.map carried_action r.action;
  resource = Option.map carried_resource r.resource;
  context = carried r.context;
  evaluations = map carried_request r.evaluations;
  options = Option.map carried_options r.options;
}

-- `authzen.EvaluationsRequest{}` and `authzen.EvaluationsResponse{}`
abbrev pub empty_batch : EvaluationsRequest
empty_batch = record {
  subject = none;
  action = none;
  resource = none;
  context = none;
  evaluations = [];
  options = none;
}

abbrev pub empty_batch_response : EvaluationsResponse
empty_batch_response = record { decision = none; context = none; evaluations = none }

-- A response as it comes back: a single decision as the batch of one member.
abbrev pub carried_batch_response : EvaluationsResponse → EvaluationsResponse
carried_batch_response r = record {
  decision = none;
  context = none;
  evaluations = some (elim r.decision [
    | none ↦ map carried_response (or_empty r.evaluations)
    | some d ↦
        if is_empty (or_empty r.evaluations)
        then carried_response (record { decision = d; context = r.context }) ∷ []
        else map carried_response (or_empty r.evaluations)
  ]);
}

module _ {S : Type 0} (pb : StructPb S) where
  unfoldable pub options_message : Options → Result Text (Proto.Options S)
  options_message o = do
    additional ← map_to_struct pb o.additional
    ok (record {
      evaluations_semantic = semantic_to_proto o.evaluations_semantic;
      additional = additional;
    })

  unfoldable pub options_to_proto : Option Options → Result Text (Option (Proto.Options S))
  options_to_proto = pointer options_message

  unfoldable pub options_of : Proto.Options S → Options
  options_of o = record {
    evaluations_semantic = semantic_from_proto o.evaluations_semantic;
    additional = struct_to_map pb o.additional;
  }

  unfoldable pub options_from_proto : Option (Proto.Options S) → Option Options
  options_from_proto = Option.map options_of

  -- A member of a batch, whose message is never nil.
  unfoldable pub member_to_proto :
      EvaluationRequest → Result Text (Option (Proto.EvaluateRequest S))
  member_to_proto e = do m ← evaluation_request_to_proto pb e; ok (some m)

  unfoldable pub evaluations_request_to_proto :
      EvaluationsRequest → Result Text (Proto.EvaluateBatchRequest S)
  evaluations_request_to_proto r = do
    subject ← subject_to_proto pb r.subject
    action ← action_to_proto pb r.action
    resource ← resource_to_proto pb r.resource
    ctx ← map_to_struct pb r.context
    options ← options_to_proto r.options
    members ← traverse member_to_proto r.evaluations
    ok (record {
      subject = subject;
      action = action;
      resource = resource;
      context = ctx;
      evaluations = members;
      options = options;
    })

  unfoldable pub evaluations_request_of : Proto.EvaluateBatchRequest S → EvaluationsRequest
  evaluations_request_of r = record {
    subject = subject_from_proto pb r.subject;
    action = action_from_proto pb r.action;
    resource = resource_from_proto pb r.resource;
    context = struct_to_map pb r.context;
    evaluations = map (evaluation_request_from_proto pb) r.evaluations;
    options = options_from_proto r.options;
  }

  unfoldable pub evaluations_request_from_proto :
      Option (Proto.EvaluateBatchRequest S) → EvaluationsRequest
  evaluations_request_from_proto none = empty_batch
  evaluations_request_from_proto (some r) = evaluations_request_of r

  unfoldable pub decision_to_proto :
      EvaluationResponse → Result Text (Option (Proto.EvaluateResponse S))
  decision_to_proto e = do m ← evaluation_response_to_proto pb e; ok (some m)

  unfoldable pub batch_to_proto : EvaluationsResponse → Result Text (Proto.EvaluateBatchResponse S)
  batch_to_proto r = do
    ms ← traverse decision_to_proto (or_empty r.evaluations)
    ok (record { evaluations = ms })

  unfoldable pub single_to_proto :
      EvaluationsResponse → Bool → Result Text (Proto.EvaluateBatchResponse S)
  single_to_proto r d = do
    m ← decision_to_proto (record { decision = d; context = r.context })
    ok (record { evaluations = m ∷ [] })

  unfoldable pub shape_to_proto :
      EvaluationsResponse → Option Bool → Result Text (Proto.EvaluateBatchResponse S)
  shape_to_proto r none = batch_to_proto r
  shape_to_proto r (some d) =
      if is_empty (or_empty r.evaluations) then single_to_proto r d else batch_to_proto r

  unfoldable pub evaluations_response_to_proto :
      EvaluationsResponse → Result Text (Proto.EvaluateBatchResponse S)
  evaluations_response_to_proto r = shape_to_proto r r.decision

  unfoldable pub evaluations_response_from_proto :
      Option (Proto.EvaluateBatchResponse S) → EvaluationsResponse
  evaluations_response_from_proto none = empty_batch_response
  evaluations_response_from_proto (some r) = record {
    decision = none;
    context = none;
    evaluations = some (map (evaluation_response_from_proto pb) r.evaluations);
  }
