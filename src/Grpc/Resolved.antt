-- ===== src/Grpc/Resolved.antt =====
-- grpc/conv.go: what the members of a batch resolve to on the other side of the wire.
use authzen.Base.{List, [], ◌∷◌, map, some, ◌≡◌, refl, ap₂, false, is_empty, if◌then◌else◌, ok}
use authzen.Core.Types.{EvaluationRequest, EvaluationsRequest}
use authzen.Core.Batch.{resolve, top_level, resolved, validate_batch}
use authzen.Core.Codec.RoundTrip.{carried}
use authzen.Grpc.Struct.{StructPb, IsFaithful}
use authzen.Grpc.Proto
use authzen.Grpc.Evaluation.{carried_request}
use authzen.Grpc.Batch.{carried_batch, evaluations_request_to_proto, evaluations_request_from_proto}
use authzen.Grpc.Batch.RoundTrip.{evaluations_request_from_proto-evaluations_request_to_proto}
use authzen.Grpc.Carried.{is_empty_map, resolve-carried_batch}

-- A member with its defaults, as the wire carries it, in a batch that lost the empty contexts.
abbrev pub resolved_remotely : EvaluationsRequest → EvaluationRequest → EvaluationRequest
resolved_remotely r e = record (carried_request (resolve r e)) {
  context = if is_empty_map e.context then carried r.context else carried (resolve r e).context;
}

map-resolve :
    (r : EvaluationsRequest) (es : List EvaluationRequest)
    → map (resolve (carried_batch r)) (map carried_request es) ≡ map (resolved_remotely r) es
map-resolve r [] = refl
map-resolve r (e ∷ es) = ap₂ (λ x xs. x ∷ xs) (resolve-carried_batch r e) (map-resolve r es)

resolved_members :
    (r : EvaluationsRequest) (es : List EvaluationRequest)
    → is_empty es ≡ false
    → (if is_empty (map carried_request es)
        then top_level (carried_batch r) ∷ []
        else map (resolve (carried_batch r)) (map carried_request es))
      ≡ map (resolved_remotely r) es
resolved_members r [] h = cc
resolved_members r (e ∷ es) h = map-resolve r (e ∷ es)

module _ {S : Type 0} (pb : StructPb S) (faithful : IsFaithful pb) where
  -- A batch with members that Validate accepts, once it is converted to a message and read back,
  -- resolves to the members it resolved to before, as the wire carries them, but for a member whose
  -- own context is empty and not nil: that context, which is to stand in place of the default, is
  -- lost, and the member takes the default context of the batch.
  pub resolved-evaluations_request_from_proto :
      (r : EvaluationsRequest) {m : Proto.EvaluateBatchRequest S}
      → validate_batch r ≡ ok tt
      → is_empty r.evaluations ≡ false
      → evaluations_request_to_proto pb r ≡ ok m
      → resolved (evaluations_request_from_proto pb (some m))
        ≡ map (resolved_remotely r) r.evaluations
  unfolding resolved
  resolved-evaluations_request_from_proto r valid full sent =
      rw (evaluations_request_from_proto-evaluations_request_to_proto pb faithful r valid sent)
        (resolved_members r r.evaluations full)
