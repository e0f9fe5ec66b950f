-- ===== src/Grpc/Client/Through.antt =====
-- grpc/client.go over grpc/server.go: what a call of a Client comes to, when the Stub hands its
-- message to a Server as it is.
use authzen.Base.{
  Option, some, Text, Result, ok, err, ◌≡◌, refl, Returns, ◌>>=◌, Result-cases, Returns-ok, inl,
  inr, ◌∙◌, ap,
}
use authzen.Core.Errors.{Error}
use authzen.Core.Types.{EvaluationRequest, EvaluationsRequest}
use authzen.Core.Codec.RoundTrip.{carried_response}
use authzen.Core.Search.{SubjectSearchRequest, ResourceSearchRequest, ActionSearchRequest}
use authzen.Core.Evaluation.{validate_request}
use authzen.Core.Batch.{validate_batch}
use authzen.Grpc.Status.{Status, invalid_argument_error, pdp_error, or_plain}
use authzen.Grpc.Struct.{StructPb, IsFaithful}
use authzen.Grpc.Convert.{Reads}
use authzen.Grpc.Server
use authzen.Core.Batch.Valid.{validate_batch_iff}
use authzen.Core.Search.{validate_subject_search, validate_resource_search, validate_action_search}
use authzen.Server.Endpoints.{clear_subject_id, clear_resource_id}
use authzen.Grpc.Entities.{carried_subject, carried_resource, carried_action}
use authzen.Grpc.Carried.{
  validate_request-carried_request, validate_batch-carried_batch,
  validate_subject_search-carried_subject_search, validate_resource_search-carried_resource_search,
  validate_action_search-carried_action_search,
}
use authzen.Grpc.Evaluation.{
  carried_request, evaluation_request_to_proto, evaluation_request_of,
  evaluation_request_from_proto, evaluation_response_to_proto, evaluation_response_from_proto,
  evaluation_request_to_proto-Reads, evaluation_response_to_proto-Reads,
}
use authzen.Grpc.Batch.{
  carried_batch, carried_batch_response, evaluations_request_to_proto, evaluations_request_of,
  evaluations_request_from_proto, evaluations_response_to_proto, evaluations_response_from_proto,
}
use authzen.Grpc.Batch.RoundTrip.{
  evaluations_request_to_proto-Reads, evaluations_response_to_proto-Reads,
}
use authzen.Grpc.Search.{
  carried_subject_search, subject_search_request_to_proto, subject_search_request_of,
  subject_search_request_from_proto, carried_resource_search, resource_search_request_to_proto,
  resource_search_request_of, resource_search_request_from_proto, carried_action_search,
  action_search_request_to_proto, action_search_request_of, action_search_request_from_proto,
}
use authzen.Grpc.Search.Responses.{
  carried_search_response, subject_search_response_to_proto, subject_search_response_from_proto,
  resource_search_response_to_proto, resource_search_response_from_proto,
  action_search_response_to_proto, action_search_response_from_proto,
}
use authzen.Grpc.Search.RoundTrip.{
  subject_search_request_to_proto-Reads, subject_search_response_to_proto-Reads,
  resource_search_request_to_proto-Reads, resource_search_response_to_proto-Reads,
  action_search_request_to_proto-Reads, action_search_response_to_proto-Reads,
}
use authzen.Grpc.Client.{
  Stub, receive, call, evaluate, evaluate_batch, search_subjects, search_resources, search_actions,
}

-- The message is delivered, and what the server returns is delivered back.
abbrev pub delivered : {E W N : Type 0} → W × Result E N → W × Result E (Option N)
delivered (w, reply) = (w, receive (λ n. some n) reply)

abbrev pub loopback : {S E W : Type 0} → StructPb S → Status E → Server.Pdp W E → Stub S W E
loopback pb st pdp = record {
  evaluate = λ w m. delivered (Server.evaluate pb st pdp w (some m));
  evaluate_batch = λ w m. delivered (Server.evaluate_batch pb st pdp w (some m));
  search_subjects = λ w m. delivered (Server.search_subjects pb st pdp w (some m));
  search_resources = λ w m. delivered (Server.search_resources pb st pdp w (some m));
  search_actions = λ w m. delivered (Server.search_actions pb st pdp w (some m));
  get_configuration = λ w. delivered (Server.get_configuration pb st pdp w);
}

-- The answer of the decision point, as c says that it is carried; its error, as a status.
abbrev pub carried_answer :
    {E A M : Type 0} → Status E → (A → Result Text M) → (A → A) → Result E A → Result E A
carried_answer st convert c (err e) = err (pdp_error st e)
carried_answer st convert c (ok a) = or_plain st (convert a) >>= λ m. ok (c a)

-- What a call comes to: the decision point is asked itself, and only once the request is valid and
-- can be converted.
abbrev pub asked_directly :
    {E W A M N : Type 0}
    → Status E
    → W
    → Result Error (Unit {0})
    → Result Text M
    → (W → W × Result E A)
    → (A → Result Text N)
    → (A → A)
    → W × Result E A
asked_directly st w (err e) message ask convert c = (w, err (invalid_argument_error st e))
asked_directly st w (ok u) (err t) ask convert c = (w, err (pdp_error st (st.plain t)))
asked_directly st w (ok u) (ok m) ask convert c =
    let (w', reply) = ask w in (w', carried_answer st convert c reply)

module _ {E W R A M N : Type 0} (st : Status E) (from : M → R)
    (validate : R → Result Error (Unit {0})) (ask : R → W → W × Result E A)
    (convert : A → Result Text N) (read : Option N → A) (c : A → A) where
  receive-answer :
      ((a : A) → Returns (λ n. read (some n) ≡ c a) (convert a))
      → (reply : Result E A)
      → receive read (receive (λ n. some n) (Server.answer st convert reply))
        ≡ carried_answer st convert c reply
  unfolding Server.answer
  receive-answer back (err e) = refl
  receive-answer back (ok a) = elim (Result-cases (convert a)) [
    | inl (n, h) ↦ rw h (ap ok (Returns-ok (λ n. read (some n) ≡ c a) (convert a) n (back a) h))
    | inr (t, h) ↦ rw h refl
  ]

  call-serve :
      (w : W) (valid : Result Error (Unit {0})) (message : Result Text M) (req : R)
      → (valid ≡ ok tt → Returns (Reads from req) message)
      → (valid ≡ ok tt → validate req ≡ ok tt)
      → ((a : A) → Returns (λ n. read (some n) ≡ c a) (convert a))
      → call st w valid message
          (λ v m. delivered (Server.serve st v (validate (from m)) (ask (from m)) convert))
          read
        ≡ asked_directly st w valid message (ask req) convert c
  unfolding call Server.serve
  call-serve w (err e) message req there same back = refl
  call-serve w (ok tt) (err t) req there same back = refl
  call-serve w (ok tt) (ok m) req there same back =
      rw (there refl, same refl) (ap (λ r. ((ask req w).0, r)) (receive-answer back (ask req w).1))

module _ {S E W : Type 0} (pb : StructPb S) (st : Status E) (pdp : Server.Pdp W E)
    (faithful : IsFaithful pb) where
  pub evaluate-loopback :
      (w : W) (r : EvaluationRequest)
      → evaluate pb st (loopback pb st pdp) w r
        ≡ asked_directly st w
            (validate_request r)
            (evaluation_request_to_proto pb r)
            (λ v. pdp.evaluate v (carried_request r))
            (evaluation_response_to_proto pb)
            carried_response
  unfolding evaluate Server.evaluate evaluation_request_from_proto
  evaluate-loopback w r =
      call-serve st (evaluation_request_of pb) validate_request (λ q v. pdp.evaluate v q)
        (evaluation_response_to_proto pb) (evaluation_response_from_proto pb) carried_response w
        (validate_request r) (evaluation_request_to_proto pb r) (carried_request r)
        (λ h. evaluation_request_to_proto-Reads pb faithful r)
        (λ h. validate_request-carried_request r ∙ h)
        (evaluation_response_to_proto-Reads pb faithful)

  -- A batch that a Client evaluates over a Server, with the messages delivered as they are, comes
  -- to what the decision point answers itself to the batch as the wire carries it: an invalid
  -- batch is refused and one that cannot be converted fails before anything is sent, the answer
  -- comes back as the wire carries it, and an error of the decision point as a status.
  pub evaluate_batch-loopback :
      (w : W) (r : EvaluationsRequest)
      → evaluate_batch pb st (loopback pb st pdp) w r
        ≡ asked_directly st w
            (validate_batch r)
            (evaluations_request_to_proto pb r)
            (λ v. pdp.evaluate_batch v (carried_batch r))
            (evaluations_response_to_proto pb)
            carried_batch_response
  unfolding evaluate_batch Server.evaluate_batch evaluations_request_from_proto
  evaluate_batch-loopback w r =
      call-serve st (evaluations_request_of pb) validate_batch (λ q v. pdp.evaluate_batch v q)
        (evaluations_response_to_proto pb) (evaluations_response_from_proto pb)
        carried_batch_response w (validate_batch r) (evaluations_request_to_proto pb r)
        (carried_batch r)
        (λ h. evaluations_request_to_proto-Reads pb faithful r ((validate_batch_iff r).0 h).0)
        (λ h. validate_batch-carried_batch r ∙ h) (evaluations_response_to_proto-Reads pb faithful)

  pub search_subjects-loopback :
      (w : W) (r : SubjectSearchRequest)
      → search_subjects pb st (loopback pb st pdp) w r
        ≡ asked_directly st w
            (validate_subject_search r)
            (subject_search_request_to_proto pb r)
            (λ v. pdp.search_subjects v (record (carried_subject_search r) {
              subject = clear_subject_id (carried_subject_search r).subject;
            }))
            (subject_search_response_to_proto pb)
            (carried_search_response carried_subject)
  unfolding search_subjects Server.search_subjects subject_search_request_from_proto
  search_subjects-loopback w r =
      call-serve st (subject_search_request_of pb) validate_subject_search
        (λ q v. pdp.search_subjects v (record q { subject = clear_subject_id q.subject }))
        (subject_search_response_to_proto pb) (subject_search_response_from_proto pb)
        (carried_search_response carried_subject) w (validate_subject_search r)
        (subject_search_request_to_proto pb r) (carried_subject_search r)
        (λ h. subject_search_request_to_proto-Reads pb faithful r)
        (λ h. validate_subject_search-carried_subject_search r ∙ h)
        (subject_search_response_to_proto-Reads pb faithful)

  pub search_resources-loopback :
      (w : W) (r : ResourceSearchRequest)
      → search_resources pb st (loopback pb st pdp) w r
        ≡ asked_directly st w
            (validate_resource_search r)
            (resource_search_request_to_proto pb r)
            (λ v. pdp.search_resources v (record (carried_resource_search r) {
              resource = clear_resource_id (carried_resource_search r).resource;
            }))
            (resource_search_response_to_proto pb)
            (carried_search_response carried_resource)
  unfolding search_resources Server.search_resources resource_search_request_from_proto
  search_resources-loopback w r =
      call-serve st (resource_search_request_of pb) validate_resource_search
        (λ q v. pdp.search_resources v (record q { resource = clear_resource_id q.resource }))
        (resource_search_response_to_proto pb) (resource_search_response_from_proto pb)
        (carried_search_response carried_resource) w (validate_resource_search r)
        (resource_search_request_to_proto pb r) (carried_resource_search r)
        (λ h. resource_search_request_to_proto-Reads pb faithful r)
        (λ h. validate_resource_search-carried_resource_search r ∙ h)
        (resource_search_response_to_proto-Reads pb faithful)

  pub search_actions-loopback :
      (w : W) (r : ActionSearchRequest)
      → search_actions pb st (loopback pb st pdp) w r
        ≡ asked_directly st w
            (validate_action_search r)
            (action_search_request_to_proto pb r)
            (λ v. pdp.search_actions v (carried_action_search r))
            (action_search_response_to_proto pb)
            (carried_search_response carried_action)
  unfolding search_actions Server.search_actions action_search_request_from_proto
  search_actions-loopback w r =
      call-serve st (action_search_request_of pb) validate_action_search
        (λ q v. pdp.search_actions v q) (action_search_response_to_proto pb)
        (action_search_response_from_proto pb) (carried_search_response carried_action) w
        (validate_action_search r) (action_search_request_to_proto pb r) (carried_action_search r)
        (λ h. action_search_request_to_proto-Reads pb faithful r)
        (λ h. validate_action_search-carried_action_search r ∙ h)
        (action_search_response_to_proto-Reads pb faithful)
