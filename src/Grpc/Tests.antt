-- ===== src/Grpc/Tests.antt =====
-- A client over a server with a small decision point, and the theorems of the binding at it.
use authzen.Base.{
  ◌≡◌, refl, ◌+◌, ◌⊎◌, ◌&&◌, Bool, true, false, List, [], ◌∷◌, Option, none, some, Text, text, ok,
  err, pos, ℕ, negsuc, Result, text_eq,
}
use authzen.Json.{Fields, field, end, str, len, wire}
use authzen.Core.Batch.{
  semantic_deny_on_first_deny, resolve, validate_batch, validate_options, semantic_execute_all,
  semantic_permit_on_first_permit, validate_members, resolved, top_level,
}
use authzen.Core.Types.{EvaluationRequest, EvaluationResponse, EvaluationsRequest}
use authzen.Core.Search.{SubjectSearchRequest, validate_subject_search}
use authzen.Server.Endpoints.{clear_subject_id}
use authzen.Grpc.Status.{Status, IsDocumented, Code, Message, invalid_argument_error, pdp_error}
use authzen.Grpc.Struct.{
  StructPb, IsFaithful, map_to_struct, normalize_map, normalize_value, struct_of, struct_to_map,
}
use authzen.Grpc.Configuration.{empty_metadata}
use authzen.Grpc.Resolved.{resolved_remotely, resolved-evaluations_request_from_proto}
use authzen.Grpc.Batch.{
  options_to_proto, options_message, member_to_proto, semantic_to_proto, carried_batch,
  carried_batch_response, evaluations_request_to_proto, evaluations_response_to_proto,
  evaluations_request_from_proto, evaluations_request_of, options_from_proto, options_of,
  semantic_from_proto, batch_to_proto, decision_to_proto, shape_to_proto, single_to_proto,
}
use authzen.Grpc.Evaluation.{
  evaluation_request_to_proto, evaluation_request_from_proto, evaluation_request_of,
  evaluation_response_to_proto,
}
use authzen.Grpc.Search.{carried_subject_search, subject_search_request_to_proto}
use authzen.Grpc.Search.Responses.{carried_search_response, subject_search_response_to_proto}
use authzen.Grpc.Entities.{
  subject_to_proto, subject_message, action_to_proto, action_message, resource_to_proto,
  resource_message, carried_subject, action_from_proto, action_of, resource_from_proto, resource_of,
  subject_from_proto, subject_of,
}
use authzen.Core.Errors.{Error, new_validation_error}
use authzen.Core.Evaluation.{validate_request, validate_subject, validate_action, validate_resource}
use authzen.Core.Evaluation.Complete.{validate_request_iff}
use authzen.Core.Batch.Valid.{validate_batch_iff}
use authzen.Grpc.Convert.{traverse}
use authzen.Grpc.Proto
use authzen.Grpc.Server
use authzen.Grpc.Server.Safety.{
  Keeps, Rpc, evaluate_rpc, evaluate_batch_rpc, after_rpcs, after_rpcs-Keeps, IsUnconvertible,
  evaluate_batch_errors,
}
use authzen.Grpc.Client.{evaluate_batch, search_subjects}
use authzen.Grpc.Client.Through.{
  loopback, asked_directly, evaluate_batch-loopback, search_subjects-loopback,
}

-- A Struct that is the map itself.
abbrev plain_struct : StructPb Fields
plain_struct = record { new_struct = λ m. ok m; as_map = λ m. m }

abbrev plain_struct_IsFaithful : IsFaithful plain_struct
plain_struct_IsFaithful = record { new_struct-as_map = λ m. refl }

-- A Struct that refuses every map.
abbrev no_struct : StructPb Fields
no_struct = record { new_struct = λ m. err (text "invalid UTF-8"); as_map = λ m. m }

data Failure : Type 0 where
  status : Code → Message → Failure
  bare : Text → Failure

abbrev is_status : Failure → Bool
is_status (status c m) = true
is_status (bare t) = false

abbrev failure_text : Failure → Text
failure_text (status c m) = text "rpc error"
failure_text (bare t) = t

abbrev statuses : Status Failure
statuses = record {
  new_status = status;
  from_error = is_status;
  error_text = failure_text;
  plain = bare;
}

abbrev statuses_IsDocumented : IsDocumented statuses
statuses_IsDocumented = record {
  from_error-new_status = λ c m. refl;
  from_error-plain = λ t. refl;
  error_text-plain = λ t. refl;
}

abbrev explained : EvaluationResponse
explained = record {
  decision = true;
  context = some (field (text "reason") (str (text "owner")) end);
}

-- Permits, with a reason, and counts its calls.
abbrev counting : Server.Pdp ℕ Failure
counting = record {
  evaluate = λ n q. (n + 1, ok explained);
  evaluate_batch = λ n q. (
    n + 1,
    ok (record { decision = some true; context = explained.context; evaluations = none }),
  );
  search_subjects = λ n q. (
    n + 1,
    ok (record {
      page = some (record {
        next_token = text "t";
        count = pos (2147483648);
        total = negsuc 0;
        properties = none;
      });
      results = none;
      context = none;
    }),
  );
  search_resources = λ n q. (n + 1, err (bare (text "no resources")));
  search_actions = λ n q. (n + 1, err (bare (text "no actions")));
  configuration = λ n. (n + 1, ok empty_metadata);
}

-- The top level carries a context that the second member replaces by an empty one.
abbrev member : Option Fields → EvaluationRequest
member c = record {
  subject = none;
  action = none;
  resource = some (record { type = text "todo"; id = text "1"; properties = none });
  context = c;
}

abbrev batch : EvaluationsRequest
batch = record {
  subject = some (record { type = text "user"; id = text "alice"; properties = none });
  action = some (record { name = text "can_read"; properties = none });
  resource = none;
  context = some (field (text "time") (str (text "noon")) end);
  evaluations = member none ∷ member (some end) ∷ [];
  options = some (record { evaluations_semantic = semantic_deny_on_first_deny; additional = none });
}

abbrev who_reads : SubjectSearchRequest
who_reads = record {
  subject = some (record { type = text "user"; id = text "alice"; properties = none });
  action = some (record { name = text "can_read"; properties = none });
  resource = some (record { type = text "todo"; id = text "1"; properties = none });
  context = none;
  page = some (record { token = []; limit = pos 0; properties = some end });
}

evaluate_batch-loopback_example :
    evaluate_batch plain_struct statuses (loopback plain_struct statuses counting) 0 batch
    ≡ asked_directly statuses 0
        (validate_batch batch)
        (evaluations_request_to_proto plain_struct batch)
        (λ v. counting.evaluate_batch v (carried_batch batch))
        (evaluations_response_to_proto plain_struct)
        carried_batch_response
evaluate_batch-loopback_example =
    evaluate_batch-loopback plain_struct statuses counting plain_struct_IsFaithful 0 batch

search_subjects-loopback_example :
    search_subjects plain_struct statuses (loopback plain_struct statuses counting) 0 who_reads
    ≡ asked_directly statuses 0
        (validate_subject_search who_reads)
        (subject_search_request_to_proto plain_struct who_reads)
        (λ v. counting.search_subjects v (record (carried_subject_search who_reads) {
          subject = clear_subject_id (carried_subject_search who_reads).subject;
        }))
        (subject_search_response_to_proto plain_struct)
        (carried_search_response carried_subject)
search_subjects-loopback_example =
    search_subjects-loopback plain_struct statuses counting plain_struct_IsFaithful 0 who_reads

-- Remembers whether every evaluation that it saw was complete.
abbrev passes : Result Error (Unit {0}) → Bool
passes (ok u) = true
passes (err e) = false

abbrev watching : Server.Pdp Bool Failure
watching = record {
  evaluate = λ w q. (w && passes (validate_request q), ok explained);
  evaluate_batch = λ w q. (w && passes (validate_batch q), err (bare (text "no batches")));
  search_subjects = λ w q. (w, err (bare (text "no subjects")));
  search_resources = λ w q. (w, err (bare (text "no resources")));
  search_actions = λ w q. (w, err (bare (text "no actions")));
  configuration = λ w. (w, ok empty_metadata);
}

abbrev SawComplete : Bool → Type 0
SawComplete w = w ≡ true

abbrev watching_Keeps : Keeps watching SawComplete
watching_Keeps = record {
  on_evaluate = λ w q v p. rw (p, (validate_request_iff q).1 v) refl;
  on_batch = λ w q v p. rw (p, (validate_batch_iff q).1 v) refl;
  on_subjects = λ w q v n p. p;
  on_resources = λ w q v n p. p;
  on_actions = λ w q v p. p;
  on_configuration = λ w p. p;
}

abbrev one_member : Proto.EvaluateBatchRequest Fields
one_member = record {
  subject = some (record { type = text "user"; id = text "alice"; properties = none });
  action = some (record { name = text "can_read"; properties = none });
  resource = some (record { type = text "todo"; id = text "1"; properties = none });
  context = none;
  evaluations = none ∷ [];
  options = some (record { evaluations_semantic = Proto.deny_on_first_deny; additional = none });
}

-- An evaluation with no message, and a batch whose one member takes every default.
abbrev rpcs : List (Rpc Fields)
rpcs = evaluate_rpc none ∷ evaluate_batch_rpc (some one_member) ∷ []

after_rpcs-Keeps_example : SawComplete (after_rpcs plain_struct statuses watching true rpcs)
after_rpcs-Keeps_example =
    after_rpcs-Keeps plain_struct statuses watching SawComplete watching_Keeps true rpcs refl

abbrev refused : Failure
refused = bare (text "invalid UTF-8")

one_member_refused :
    (Server.evaluate_batch no_struct statuses counting 0 (some one_member)).1 ≡ err refused
unfolding Server.evaluate_batch Server.serve Server.answer validate_batch validate_options
    semantic_execute_all semantic_deny_on_first_deny semantic_permit_on_first_permit
    validate_members resolved resolve top_level validate_request validate_subject validate_action
    validate_resource new_validation_error evaluations_request_from_proto evaluations_request_of
    options_from_proto options_of semantic_from_proto batch_to_proto decision_to_proto
    evaluations_response_to_proto shape_to_proto single_to_proto evaluation_request_from_proto
    evaluation_request_of evaluation_response_to_proto traverse action_from_proto action_of
    resource_from_proto resource_of subject_from_proto subject_of invalid_argument_error pdp_error
    map_to_struct normalize_map normalize_value struct_of struct_to_map len wire text text_eq
one_member_refused = refl

evaluate_batch_errors_example :
    (is_status refused ≡ true)
    ⊎ IsUnconvertible statuses
        (counting.evaluate_batch 0 (evaluations_request_from_proto no_struct (some one_member))).1
        (evaluations_response_to_proto no_struct)
        refused
evaluate_batch_errors_example =
    evaluate_batch_errors no_struct statuses counting 0 (some one_member) statuses_IsDocumented
      one_member_refused

abbrev sent_member : Option Fields → Proto.EvaluateRequest Fields
sent_member c = record {
  subject = none;
  action = none;
  resource = some (record { type = text "todo"; id = text "1"; properties = none });
  context = c;
}

-- The empty context of the second member is gone.
abbrev sent_batch : Proto.EvaluateBatchRequest Fields
sent_batch = record {
  subject = some (record { type = text "user"; id = text "alice"; properties = none });
  action = some (record { name = text "can_read"; properties = none });
  resource = none;
  context = some (field (text "time") (str (text "noon")) end);
  evaluations = some (sent_member none) ∷ some (sent_member none) ∷ [];
  options = some (record { evaluations_semantic = Proto.deny_on_first_deny; additional = none });
}

batch_valid : validate_batch batch ≡ ok tt
unfolding validate_batch validate_options validate_members resolved resolve top_level
    validate_request validate_subject validate_action validate_resource new_validation_error
    semantic_execute_all semantic_deny_on_first_deny semantic_permit_on_first_permit text text_eq
batch_valid = refl

batch_sent : evaluations_request_to_proto plain_struct batch ≡ ok sent_batch
unfolding evaluations_request_to_proto subject_to_proto subject_message map_to_struct
    action_to_proto action_message resource_to_proto struct_of len options_to_proto options_message
    traverse member_to_proto evaluation_request_to_proto resource_message normalize_map
    semantic_to_proto normalize_value text_eq text semantic_deny_on_first_deny semantic_execute_all
    semantic_permit_on_first_permit wire
batch_sent = refl

resolved-evaluations_request_from_proto_example :
    resolved (evaluations_request_from_proto plain_struct (some sent_batch))
    ≡ resolved_remotely batch (member none) ∷ resolved_remotely batch (member (some end)) ∷ []
resolved-evaluations_request_from_proto_example =
    resolved-evaluations_request_from_proto plain_struct plain_struct_IsFaithful batch batch_valid
      refl batch_sent
