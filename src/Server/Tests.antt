-- ===== src/Server/Tests.antt =====
-- Runs of the server with a small decision point, and its theorems at them.
use authzen.Base.{
  ◌≡◌, refl, ◌+◌, inl, inr, Bool, true, false, List, [], ◌∷◌, Option, none, some, Text, text,
  text_eq, ok, err, arith, pos, ℕ, length, All, ◌≤◌, Bool-cases, ap,
}
use authzen.Json.{Any, field, end, str, obj, get}
use authzen.Core.Batch.{
  resolved, semantic_execute_all, semantic_deny_on_first_deny, semantic_permit_on_first_permit,
}
use authzen.Core.Codec.Requests.{unmarshal_request}
use authzen.Core.Evaluation.{validate_request, validate_subject, validate_action, validate_resource}
use authzen.Core.Types.{
  Subject, EvaluationRequest, EvaluationResponse, EvaluationsRequest, EvaluationsResponse,
}
use authzen.Server.Batch.Errors.{IsSettled, evaluate_batch-value}
use authzen.Server.Batch.Logic.{EndsAtFirst, evaluate_batch_semantics}
use authzen.Server.Batch.Semantics.{Run, evaluate_batch-Run}
use authzen.Server.Batch.{
  BatchConfig, value, semantic_of, denied_by_error, evaluate_batch, evaluate_members, settle, stops,
}
use authzen.Server.Endpoints.Safety.{Keeps}
use authzen.Server.Endpoints.{
  admit, require_post, decode_json, check, handle_evaluation, ask, respond,
}
use authzen.Server.Handler.{Env, document, malformed, new_handler}
use authzen.Server.Http.RequestId.{sanitize_request_id_bounds, IsIdChar}
use authzen.Server.Http.{
  Request, is_id_char, sanitize_request_id, keep_id_chars, write_error, max_request_id_len, plain,
}
use authzen.Server.Pdp.{Panic, abort_handler, Reply, answered, failed, panicked, Pdp}
use authzen.Server.Routes.Safety.{serve_http-Keeps, serve_http_panics}
use authzen.Server.Routes.{serve_http, serve_mux}

-- Permits a subject of type "user", fails on one of type "robot", and counts its calls.
abbrev decide : Option Subject → Reply EvaluationResponse
decide none = failed (text "no subject")
decide (some s) = elim (text_eq s.type (text "user")) [
  | true ↦ answered (some (record { decision = true; context = none }))
  | false ↦ failed (text "no robots")
]

abbrev counting : Pdp ℕ
counting = record {
  evaluate = λ n q. (n + 1, decide q.subject);
  search_subjects = λ n q. (n, answered none);
  search_resources = λ n q. (n, answered none);
  search_actions = λ n q. (n, answered none);
  evaluate_batch = none;
  ctx_err = λ n. none;
}

abbrev aborting : Pdp ℕ
aborting = record counting { evaluate = λ n q. (n, panicked abort_handler) }

abbrev config : BatchConfig
config = record { verbose_errors = false; correlation_id = λ i. text "id" }

abbrev member : Text → EvaluationRequest
member t = record {
  subject = some (record { type = t; id = text "x"; properties = none });
  action = some (record { name = text "read"; properties = none });
  resource = some (record { type = text "todo"; id = text "1"; properties = none });
  context = none;
}

abbrev mixed : EvaluationsRequest
mixed = record {
  subject = none;
  action = none;
  resource = none;
  context = none;
  evaluations = member (text "user") ∷ member (text "robot") ∷ member (text "user") ∷ [];
  options = some (record { evaluations_semantic = semantic_deny_on_first_deny; additional = none });
}

abbrev mixed_responses : List EvaluationResponse
mixed_responses =
    record { decision = true; context = none } ∷ denied_by_error config 1 (text "no robots") ∷ []

-- The robot's error is a deny, and the third member is not asked.
mixed_stops :
    evaluate_batch counting config 0 mixed
    ≡ (2, value (record { decision = none; context = none; evaluations = some mixed_responses }))
unfolding evaluate_batch evaluate_members settle stops denied_by_error semantic_of resolved text
    text_eq semantic_deny_on_first_deny semantic_permit_on_first_permit
mixed_stops = refl

mixed_value :
    (evaluate_batch counting config 0 mixed).1
    ≡ value (record { decision = none; context = none; evaluations = some mixed_responses })
mixed_value = ap (λ p. p.1) mixed_stops

evaluate_batch-Run_example :
    (rs : List EvaluationResponse) × (some mixed_responses ≡ some rs)
    × ◌≡◌ {A = Option Bool} none none
    × Run counting config
        (semantic_of mixed.options)
        0
        0
        (resolved mixed)
        rs
        (evaluate_batch counting config 0 mixed).0
evaluate_batch-Run_example = evaluate_batch-Run counting config 0 mixed mixed_value

evaluate_batch_semantics_example :
    (rs : List EvaluationResponse) × (some mixed_responses ≡ some rs)
    × (semantic_of mixed.options ≡ semantic_execute_all → length rs ≡ length (resolved mixed))
    × (semantic_of mixed.options ≡ semantic_deny_on_first_deny
        → EndsAtFirst false (length (resolved mixed)) rs)
    × (semantic_of mixed.options ≡ semantic_permit_on_first_permit
        → EndsAtFirst true (length (resolved mixed)) rs)
evaluate_batch_semantics_example = evaluate_batch_semantics counting config 0 mixed mixed_value

decide-IsSettled : (o : Option Subject) → IsSettled (decide o)
decide-IsSettled none = tt
decide-IsSettled (some s) = elim (Bool-cases (text_eq s.type (text "user"))) [
  | inl e ↦ rw (e, IsSettled) tt
  | inr e ↦ rw (e, IsSettled) tt
]

evaluate_batch-value_example :
    (resp : EvaluationsResponse) × ((evaluate_batch counting config 0 mixed).1 ≡ value resp)
evaluate_batch-value_example =
    evaluate_batch-value counting config 0 mixed (λ s. refl) (λ s q. decide-IsSettled q.subject)

sanitize_request_id_bounds_example :
    (length (sanitize_request_id (text "a\nb-1")) ≤ 128)
    × All IsIdChar (sanitize_request_id (text "a\nb-1"))
    × (sanitize_request_id (sanitize_request_id (text "a\nb-1"))
        ≡ sanitize_request_id (text "a\nb-1"))
sanitize_request_id_bounds_example = sanitize_request_id_bounds (text "a\nb-1")

sanitize_request_id_drops : sanitize_request_id (text "a\nb-1") ≡ text "ab-1"
unfolding sanitize_request_id keep_id_chars is_id_char text max_request_id_len
sanitize_request_id_drops = refl

abbrev typed : Any
typed = obj (field (text "type") (str (text "user")) (field (text "id") (str (text "x")) end))

abbrev todo_1 : Any
todo_1 = obj (field (text "type") (str (text "todo")) (field (text "id") (str (text "1")) end))

abbrev request_document : Any
request_document = obj (
    field (text "subject") typed (
      field (text "action") (obj (field (text "name") (str (text "read")) end))
        (field (text "resource") todo_1 end)))

abbrev env : Env
env = record {
  parse_media_type = λ ct. some ct;
  read_body = λ limit body. elim body [ [] ↦ malformed | _ ↦ document request_document ];
  new_correlation_id = text "fresh";
  member_correlation_id = λ i. text "id";
}

abbrev post : Request
post = record {
  method = text "POST";
  path = text "/access/v1/evaluation";
  content_type = text "application/json";
  x_request_id = [];
  body = text "{}";
}

admitted :
    admit (new_handler []) env post unmarshal_request validate_request ≡ ok (member (text "user"))
unfolding admit require_post decode_json check unmarshal_request validate_request validate_subject
    validate_action validate_resource text text_eq get new_handler
admitted = refl

refused :
    admit
      (new_handler [])
      env
      (record post { method = text "GET" })
      unmarshal_request
      validate_request
    ≡ err (
        write_error
          (record post { method = text "GET" })
          (pos 405)
          (plain (text "method not allowed: this endpoint requires POST")))
unfolding admit require_post text text_eq
refused = refl

counting-Keeps : Keeps counting (λ n. 1 ≤ n)
counting-Keeps = record {
  on_evaluate = λ s q c p. omega arith;
  on_subjects = λ s q a b c d p. p;
  on_resources = λ s q a b c d p. p;
  on_actions = λ s q a b p. p;
  on_batch = λ f e s q a b p. cc;
}

serve_http-Keeps_example : 1 ≤ (serve_http (new_handler []) env counting 1 post).0
serve_http-Keeps_example =
    serve_http-Keeps counting (λ n. 1 ≤ n) (new_handler []) env 1 post counting-Keeps (omega arith)

serve_http_aborts : (serve_http (new_handler []) env aborting 0 post).1 ≡ err abort_handler
unfolding serve_http serve_mux handle_evaluation ask respond admit require_post decode_json check
    unmarshal_request validate_request validate_subject validate_action validate_resource text
    text_eq get new_handler
serve_http_aborts = refl

serve_http_panics_example :
    ◌≡◌ {A = Panic} abort_handler abort_handler
    × ((serve_mux (new_handler []) env aborting 0 post).1 ≡ err abort_handler)
serve_http_panics_example = serve_http_panics (new_handler []) env aborting 0 post serve_http_aborts
