-- ===== src/AccessRequest/Tests.antt =====
-- The profile's rules at concrete documents.
use authzen.Base.{[], ◌∷◌, none, some, text, ok, ◌≡◌, ◌↔◌}
use authzen.Json.{Fields, str, end, field}
use authzen.Core.Types.{Resource, Action}
use authzen.AccessRequest.Types.{Hint, Submission, Response, status_approved}
use authzen.AccessRequest.Denial.{empty_binding}
use authzen.AccessRequest.Submit.{validate_submission}
use authzen.AccessRequest.Tasks.{validate_response}
use authzen.AccessRequest.Rules.{IsSubmission, validate_submission_iff}
use authzen.AccessRequest.TaskRules.{IsResponse, validate_response_iff}

abbrev record_1 : Resource
record_1 = record { type = text "record"; id = text "1"; properties = none }

abbrev reading : Action
reading = record { name = text "read"; properties = none }

abbrev hint : Hint
hint = record {
  endpoint = [];
  template = text "basic";
  expires_at = text "2030-01-01T00:00:00Z";
  binding_token = [];
  display = none;
  form_url = [];
  request_schema_url = [];
  request_catalogs_url = [];
}

abbrev denied_context : Fields
denied_context = field (text "evaluation_id") (str (text "ev-1")) end

abbrev bundle : Submission
bundle = record {
  subject = some (record { type = text "user"; id = text "alice"; properties = none });
  resource = none;
  action = none;
  items =
      record {
        resource = some record_1;
        action = some reading;
        requested_access = none;
        denial = none;
      }
      ∷ [];
  context = none;
  denial = some (record empty_binding {
    evaluation_id = text "ev-1";
    expires_at = text "2030-01-01T00:00:00Z";
  });
  requested_access = none;
  callback = none;
  client = none;
}

validate_submission_iff_example : (validate_submission (some bundle) ≡ ok tt) ↔ IsSubmission bundle
validate_submission_iff_example = validate_submission_iff bundle

abbrev answer : Response
answer = record {
  task = some (record {
    id = text "t1";
    status = text "partial";
    status_endpoint = text "https://pdp.example/tasks/t1";
    progress = none;
    expires_at = [];
    display = none;
    links = [];
    items =
        record {
          resource = some record_1;
          action = some reading;
          status = status_approved;
          result = none;
        }
        ∷ [];
  });
  result = none;
}

validate_response_iff_example : (validate_response (some answer) ≡ ok tt) ↔ IsResponse answer
validate_response_iff_example = validate_response_iff answer
