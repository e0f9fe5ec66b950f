-- ===== src/Grpc/Evaluation.antt =====
-- grpc/conv.go: evaluation requests and responses, both ways.
use authzen.Base.{
  Option, none, some, Text, false, Result, ok, ◌>>=◌, Returns, bind-Returns, ◌≡◌, refl,
}
use authzen.Core.Types.{EvaluationRequest, EvaluationResponse}
use authzen.Core.Codec.RoundTrip.{carried, carried_response}
use authzen.Grpc.Proto
use mathlib.Core.Option
use authzen.Grpc.Convert.{Reads}
use authzen.Grpc.Struct.{
  StructPb, IsFaithful, struct_to_map, map_to_struct, map_to_struct-ReadsAs, ReadsAs,
}
use authzen.Grpc.Entities.{
  carried_subject, carried_resource, carried_action, subject_to_proto, subject_from_proto,
  resource_to_proto, resource_from_proto, action_to_proto, action_from_proto,
  subject_to_proto-Reads, resource_to_proto-Reads, action_to_proto-Reads,
}

abbrev pub carried_request : EvaluationRequest → EvaluationRequest
carried_request r = record {
  subject = Option.map carried_subject r.subject;
  action = Option.map carried_action r.action;
  resource = Option.map carried_resource r.resource;
  context = carried r.context;
}

-- `authzen.EvaluationRequest{}` and `authzen.EvaluationResponse{}`
abbrev pub empty_request : EvaluationRequest
empty_request = record { subject = none; action = none; resource = none; context = none }

abbrev pub empty_response : EvaluationResponse
empty_response = record { decision = false; context = none }

module _ {S : Type 0} (pb : StructPb S) where
  unfoldable pub evaluation_request_to_proto :
      EvaluationRequest → Result Text (Proto.EvaluateRequest S)
  evaluation_request_to_proto r = do
    subject ← subject_to_proto pb r.subject
    action ← action_to_proto pb r.action
    resource ← resource_to_proto pb r.resource
    ctx ← map_to_struct pb r.context
    ok (record { subject = subject; action = action; resource = resource; context = ctx })

  unfoldable pub evaluation_request_of : Proto.EvaluateRequest S → EvaluationRequest
  evaluation_request_of r = record {
    subject = subject_from_proto pb r.subject;
    action = action_from_proto pb r.action;
    resource = resource_from_proto pb r.resource;
    context = struct_to_map pb r.context;
  }

  unfoldable pub evaluation_request_from_proto :
      Option (Proto.EvaluateRequest S) → EvaluationRequest
  evaluation_request_from_proto none = empty_request
  evaluation_request_from_proto (some r) = evaluation_request_of r

  unfoldable pub evaluation_response_to_proto :
      EvaluationResponse → Result Text (Proto.EvaluateResponse S)
  evaluation_response_to_proto r = do
    ctx ← map_to_struct pb r.context
    ok (record { decision = r.decision; context = ctx })

  unfoldable pub evaluation_response_from_proto :
      Option (Proto.EvaluateResponse S) → EvaluationResponse
  evaluation_response_from_proto none = empty_response
  evaluation_response_from_proto (some r) = record {
    decision = r.decision;
    context = struct_to_map pb r.context;
  }

  pub evaluation_request_to_proto-Reads :
      IsFaithful pb
      → (r : EvaluationRequest)
      → Returns (Reads evaluation_request_of (carried_request r)) (evaluation_request_to_proto r)
  unfolding evaluation_request_to_proto evaluation_request_of
  evaluation_request_to_proto-Reads faithful r =
      bind-Returns (Reads (subject_from_proto pb) (Option.map carried_subject r.subject)) _
        (subject_to_proto pb r.subject) _ (subject_to_proto-Reads pb faithful r.subject)
        (λ s e.
          bind-Returns (Reads (action_from_proto pb) (Option.map carried_action r.action)) _
            (action_to_proto pb r.action) _ (action_to_proto-Reads pb faithful r.action)
            (λ a f.
              bind-Returns (Reads (resource_from_proto pb) (Option.map carried_resource r.resource))
                _ (resource_to_proto pb r.resource) _
                (resource_to_proto-Reads pb faithful r.resource)
                (λ o g.
                  bind-Returns (ReadsAs pb r.context) _ (map_to_struct pb r.context) _
                    (map_to_struct-ReadsAs pb faithful r.context) (λ c h. rw (e, f, g, h) refl))))

  pub evaluation_response_to_proto-Reads :
      IsFaithful pb
      → (r : EvaluationResponse)
      → Returns
          (λ m. evaluation_response_from_proto (some m) ≡ carried_response r)
          (evaluation_response_to_proto r)
  unfolding evaluation_response_to_proto evaluation_response_from_proto
  evaluation_response_to_proto-Reads faithful r =
      bind-Returns (ReadsAs pb r.context) _ (map_to_struct pb r.context) _
        (map_to_struct-ReadsAs pb faithful r.context) (λ c h. rw h refl)
