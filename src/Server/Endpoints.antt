-- ===== src/Server/Endpoints.antt =====
-- The endpoints of Handler that ask the decision point, in server.go.
pub mod Guard
pub mod Safety
use authzen.Base.{
  ℕ, Bool, true, false, not, List, [], ◌∷◌, Option, none, some, Text, text, text_eq, is_empty,
  length, ltb_ℤ, ℤ, pos, Result, ok, err, ◌>>=◌, ◌>>◌, reject_if, if◌then◌else◌, ◌&&◌,
}
use authzen.Json.{Any}
use authzen.Core.Batch.{validate_batch}
use authzen.Core.Codec.Requests.{
  unmarshal_request, unmarshal_batch, unmarshal_subject_search, unmarshal_resource_search,
  unmarshal_action_search,
}
use authzen.Core.Codec.{DecodeError}
use authzen.Core.Errors.{Error}
use authzen.Core.Evaluation.{validate_request}
use authzen.Core.Search.{
  SubjectSearchRequest, ResourceSearchRequest, ActionSearchRequest, SearchResponse,
  validate_subject_search, validate_resource_search, validate_action_search,
}
use authzen.Core.Types.{
  EvaluationRequest, EvaluationResponse, EvaluationsRequest, EvaluationsResponse, Subject, Resource,
  Action,
}
use authzen.Server.Batch.{
  BatchConfig, Outcome, value, aborted, panics, evaluate_batch, status_internal_server_error,
}
use authzen.Server.Handler.{
  Body, document, malformed, too_large, Env, Handler, well_known_configuration_path,
}
use authzen.Server.Http.{
  Request, Response, Metadata, Message, plain, unknown_endpoint, not_valid, batch_too_large,
  body_too_large, Payload, evaluation, evaluations, subjects, resources, actions, metadata,
  correlation_id, write_json, write_error, write_error_with_id,
}
use authzen.Server.Pdp.{Panic, abort_handler, message, Reply, answered, failed, panicked, Pdp}

media_type_is_json : Option Text → Bool
media_type_is_json none = false
media_type_is_json (some m) = text_eq m (text "application/json")

is_json_content_type : Env → Text → Bool
unfolding media_type_is_json
is_json_content_type env ct = not (is_empty ct) && media_type_is_json (env.parse_media_type ct)

-- `err` is a response that was written, after which the handler returns.
unfoldable pub require_post : Env → Request → Result Response (Unit {0})
unfolding is_json_content_type
require_post env r = do
  reject_if (not (text_eq r.method (text "POST")))
      (write_error r (pos 405) (plain (text "method not allowed: this endpoint requires POST")))
  reject_if (not (is_json_content_type env r.content_type)) (
      write_error r (pos 415)
        (plain (text "unsupported media type: Content-Type must be application/json")))

or_bad_request : {A : Type 0} → Request → Result DecodeError A → Result Response A
or_bad_request r (ok a) = ok a
or_bad_request r (err e) =
    err (write_error r (pos 400) (plain (text "malformed JSON request body")))

decode_body :
    {A : Type 0} → Handler → Request → (Any → Result DecodeError A) → Body → Result Response A
unfolding or_bad_request
decode_body h r unmarshal (document v) = or_bad_request r (unmarshal v)
decode_body h r unmarshal malformed =
    err (write_error r (pos 400) (plain (text "malformed JSON request body")))
decode_body h r unmarshal too_large =
    err (write_error r (pos 413) (body_too_large h.max_body_bytes))

unfoldable pub decode_json :
    {A : Type 0} → Handler → Env → Request → (Any → Result DecodeError A) → Result Response A
unfolding decode_body
decode_json h env r unmarshal = decode_body h r unmarshal (env.read_body h.max_body_bytes r.body)

-- `if err := req.Validate(); err != nil { writeError(…400…); return }`
unfoldable pub check : Request → Result Error (Unit {0}) → Result Response (Unit {0})
check r (ok u) = ok tt
check r (err e) = err (write_error r (pos 400) (not_valid e))

-- What every endpoint does with a request before it asks the decision point.
unfoldable pub admit :
    {A : Type 0}
    → Handler
    → Env
    → Request
    → (Any → Result DecodeError A)
    → (A → Result Error (Unit {0}))
    → Result Response A
admit h env r unmarshal validate = do
  require_post env r
  req ← decode_json h env r unmarshal
  check r (validate req)
  ok req

unfoldable pub write_server_error : Handler → Env → Request → Text → Response
write_server_error h env r e =
    write_error_with_id r status_internal_server_error
      (plain (if h.verbose_errors then e else text "internal server error"))
      (correlation_id env.new_correlation_id r)

-- What follows a call of the decision point: its response, a 500, or the panic that goes on.
unfoldable pub respond :
    {A : Type 0} → Handler → Env → Request → (Option A → Payload) → Reply A → Result Panic Response
respond h env r payload (answered a) = ok (write_json r (pos 200) (payload a))
respond h env r payload (failed e) = ok (write_server_error h env r e)
respond h env r payload (panicked p) = err p

-- A BatchEvaluator answers by itself; EvaluateBatch stands in for it otherwise.
reply_of : Outcome EvaluationsResponse → Reply EvaluationsResponse
reply_of (value resp) = answered (some resp)
reply_of (aborted e) = failed e
reply_of (panics p) = panicked p

call_batch :
    {S : Type 0}
    → Handler
    → Env
    → Pdp S
    → S
    → Option (S → EvaluationsRequest → S × Reply EvaluationsResponse)
    → EvaluationsRequest
    → S × Reply EvaluationsResponse
unfolding reply_of
call_batch h env pdp s (some evaluator) req = evaluator s req
call_batch h env pdp s none req =
    let config : BatchConfig = record {
      verbose_errors = h.verbose_errors;
      correlation_id = env.member_correlation_id;
    } in
    let (s', o) = evaluate_batch pdp config s req in (s', reply_of o)

-- A nil slice becomes an empty one; a nil response stays nil.
or_empty_array : Option EvaluationsResponse → Option EvaluationsResponse
or_empty_array none = none
or_empty_array (some resp) =
    some (record resp { evaluations = some (elim resp.evaluations [ none ↦ [] | some es ↦ es ]) })

-- The cap counts the members as the request gives them.
unfoldable pub check_batch_size :
    Handler → Request → EvaluationsRequest → Result Response EvaluationsRequest
check_batch_size h r req =
    let n = length req.evaluations in
    if ltb_ℤ h.max_batch_size (pos n)
    then err (write_error r (pos 400) (batch_too_large n h.max_batch_size))
    else ok req

-- A search must ignore the id of what is searched for.
pub clear_subject_id : Option Subject → Option Subject
clear_subject_id none = none
clear_subject_id (some x) = some (record x { id = [] })

pub clear_resource_id : Option Resource → Option Resource
clear_resource_id none = none
clear_resource_id (some x) = some (record x { id = [] })

-- The admitted request is handed on; otherwise the decision point is left alone.
unfoldable pub ask :
    {S A : Type 0}
    → S
    → Result Response A
    → (A → S × Result Panic Response)
    → S × Result Panic Response
ask s (err resp) call = (s, ok resp)
ask s (ok req) call = call req

module _ {S : Type 0} (h : Handler) (env : Env) (pdp : Pdp S) (s : S) (r : Request) where
  unfoldable pub handle_evaluation : S × Result Panic Response
  handle_evaluation =
      ask s (admit h env r unmarshal_request validate_request)
        λ req. let (s', reply) = pdp.evaluate s req in (s', respond h env r evaluation reply)

  unfoldable pub handle_evaluations : S × Result Panic Response
  unfolding call_batch or_empty_array
  handle_evaluations =
      ask s (admit h env r unmarshal_batch validate_batch >>= check_batch_size h r) λ req.
        let (s', reply) = call_batch h env pdp s pdp.evaluate_batch req in
        (s', respond h env r (λ resp. evaluations (or_empty_array resp)) reply)

  unfoldable pub handle_search_subject : S × Result Panic Response
  unfolding clear_subject_id
  handle_search_subject =
      ask s (admit h env r unmarshal_subject_search validate_subject_search) λ req.
        let sought = record req { subject = clear_subject_id req.subject } in
        let (s', reply) = pdp.search_subjects s sought in (s', respond h env r subjects reply)

  unfoldable pub handle_search_resource : S × Result Panic Response
  unfolding clear_resource_id
  handle_search_resource =
      ask s (admit h env r unmarshal_resource_search validate_resource_search) λ req.
        let sought = record req { resource = clear_resource_id req.resource } in
        let (s', reply) = pdp.search_resources s sought in (s', respond h env r resources reply)

  unfoldable pub handle_search_action : S × Result Panic Response
  handle_search_action =
      ask s (admit h env r unmarshal_action_search validate_action_search)
        λ req. let (s', reply) = pdp.search_actions s req in (s', respond h env r actions reply)
