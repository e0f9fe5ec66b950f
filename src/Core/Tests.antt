-- ===== src/Core/Tests.antt =====
-- Runs of the core on small requests, and its theorems at them.
use authzen.Base.{◌≡◌, refl, ◌↔◌, false, [], ◌∷◌, none, some, text, text_eq, ok, err, ℕ, All}
use authzen.Json.{field, end, str}
use authzen.Core.Batch.Defaults.{no_fields}
use authzen.Core.Batch.Valid.{
  HasSemantic, FirstFailure, validate_batch_iff, validate_batch-FirstFailure,
}
use authzen.Core.Batch.{
  resolved, validate_batch, validate_options, validate_members, semantic_execute_all,
  semantic_deny_on_first_deny, semantic_permit_on_first_permit,
}
use authzen.Core.Codec.RoundTrip.{carried_evaluations, unmarshal_evaluations-marshal_evaluations}
use authzen.Core.Codec.{marshal_evaluations, unmarshal_evaluations}
use authzen.Core.Errors.{Error, invalid, in_member, missing_id, invalid_semantic}
use authzen.Core.Evaluation.Complete.{
  IsSubject, IsAction, IsResource, IsComplete, validate_request_iff,
}
use authzen.Core.Evaluation.{validate_request, validate_subject, validate_action, validate_resource}
use authzen.Core.Search.Complete.{HasSubjectType, HasResourceType, validate_searches_iff}
use authzen.Core.Search.{
  SubjectSearchRequest, ResourceSearchRequest, ActionSearchRequest, validate_subject_search,
  validate_resource_search, validate_action_search,
}
use authzen.Core.Types.{
  Subject, Resource, Action, EvaluationRequest, Options, EvaluationsRequest, EvaluationsResponse,
}

abbrev alice : Subject
alice = record { type = text "user"; id = text "alice"; properties = none }

abbrev can_read : Action
can_read = record { name = text "can_read"; properties = none }

abbrev todo : Resource
todo = record { type = text "todo"; id = text "1"; properties = none }

abbrev any_todo : Resource
any_todo = record { type = text "todo"; id = []; properties = none }

abbrev alice_reads : EvaluationRequest
alice_reads = record {
  subject = some alice;
  action = some can_read;
  resource = some todo;
  context = none;
}

-- Two members: the first inherits all but its resource, the second asks for a resource with no id.
abbrev batch : EvaluationsRequest
batch = record {
  subject = some alice;
  action = some can_read;
  resource = none;
  context = none;
  evaluations =
      record no_fields { resource = some todo }
      ∷ record no_fields { resource = some any_todo }
      ∷ [];
  options = none;
}

resolved-batch : resolved batch ≡ alice_reads ∷ record alice_reads { resource = some any_todo } ∷ []
unfolding resolved
resolved-batch = refl

validate_batch_names_member :
    validate_batch batch ≡ err (in_member 1 (invalid (text "resource.id") missing_id))
unfolding validate_batch validate_options validate_members validate_request validate_subject
    validate_action validate_resource resolved text
validate_batch_names_member = refl

validate_options_typo :
    validate_options (some (record { evaluations_semantic = text "deny_first"; additional = none }))
    ≡ err (invalid (text "options.evaluations_semantic") invalid_semantic)
unfolding validate_options text text_eq semantic_execute_all semantic_deny_on_first_deny
    semantic_permit_on_first_permit
validate_options_typo = refl

validate_request_iff_example : (validate_request alice_reads ≡ ok tt) ↔ IsComplete alice_reads
validate_request_iff_example = validate_request_iff alice_reads

validate_batch_iff_example :
    (validate_batch batch ≡ ok tt) ↔ (HasSemantic none × All IsComplete (resolved batch))
validate_batch_iff_example = validate_batch_iff batch

validate_batch-FirstFailure_example :
    (at : ℕ) × (why : Error) × (in_member 1 (invalid (text "resource.id") missing_id)
      ≡ in_member at why)
    × FirstFailure (resolved batch) at why
validate_batch-FirstFailure_example =
    validate_batch-FirstFailure batch tt (λ e. cc) validate_batch_names_member

abbrev fast : Options
fast = record {
  evaluations_semantic = semantic_deny_on_first_deny;
  additional = some (field (text "trace") (str (text "on")) end);
}

abbrev one_decision : EvaluationsResponse
one_decision = record {
  decision = some false;
  context = some (field (text "reason") (str (text "no")) end);
  evaluations = none;
}

unmarshal_evaluations-marshal_evaluations_example :
    unmarshal_evaluations (marshal_evaluations one_decision)
    ≡ ok (carried_evaluations one_decision (some false))
unmarshal_evaluations-marshal_evaluations_example =
    unmarshal_evaluations-marshal_evaluations one_decision

abbrev who_reads : SubjectSearchRequest
who_reads = record {
  subject = some (record alice { id = [] });
  action = some can_read;
  resource = some todo;
  context = none;
  page = none;
}

abbrev reads_what : ResourceSearchRequest
reads_what = record {
  subject = some alice;
  action = some can_read;
  resource = some any_todo;
  context = none;
  page = none;
}

abbrev does_what : ActionSearchRequest
does_what = record { subject = some alice; resource = some todo; context = none; page = none }

validate_searches_iff_example :
    ((validate_subject_search who_reads ≡ ok tt) ↔ (
      HasSubjectType who_reads.subject × IsAction who_reads.action × IsResource who_reads.resource))
    × ((validate_resource_search reads_what ≡ ok tt) ↔ (
        IsSubject reads_what.subject
        × IsAction reads_what.action
        × HasResourceType reads_what.resource))
    × ((validate_action_search does_what ≡ ok tt)
        ↔ (IsSubject does_what.subject × IsResource does_what.resource))
validate_searches_iff_example = validate_searches_iff who_reads reads_what does_what
