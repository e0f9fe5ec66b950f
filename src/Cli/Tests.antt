-- ===== src/Cli/Tests.antt =====
-- Runs of evaluate on a small host, and its theorems at them.
use authzen.Base.{
  ◌≡◌, refl, ◌⊎◌, true, false, List, [], ◌∷◌, none, some, Text, text, text_eq, ok, err, pos,
}
use authzen.Core.Types.{EvaluationResponse}
use authzen.Client.Config.{
  HttpRequest, Net, apply_option, apply_options, effective_http_client, new_client,
}
use authzen.Client.Calls.{Json, call, default_evaluation_path}
use authzen.Core.Evaluation.{validate_request, validate_subject, validate_action, validate_resource}
use authzen.Client.Issuer.{contains, endpoint, has_prefix, is_loopback, trim_right_slash}
use authzen.Client.Transport.{
  apply_auth, check_status, check_transport_security, default_max_response_bytes, do_request,
  effective_limit, exchange, post_body, read_limited, read_reply, send_to, with_bearer,
}
use authzen.Core.Errors.{new_validation_error}
use authzen.Cli.Options.{
  Parsed, parsed, flag_help, usage, help_requested, start, parse_flags, validate_global,
  decision_label, is_cleartext, new_client_of,
}
use authzen.Cli.Evaluate.{
  Host, EvaluateFlags, run_evaluate, ask, build_evaluation_request, request_from_flags,
  optional_object, report_reply, decision_code, documents, printed, report,
}
use authzen.Cli.Commands.{Formats, Parsers}
use authzen.Cli.Run.{run}
use authzen.Cli.Codes.{IsCode, IsDenyCode, run-IsCode}
use authzen.Cli.Gate.{IsPermitted, run_evaluate-IsPermitted, run_evaluate-help}

abbrev permit : EvaluationResponse
permit = record { decision = true; context = none }

abbrev host : Host
host = record {
  stdin = err (text "closed");
  read_file = λ path. err path;
  parse_evaluation = λ t. err t;
  parse_object = λ t. err t;
  print_response = λ r. ok (text "{}");
}

abbrev net : Net (List HttpRequest)
net = record {
  parse_url = λ t. some (record {
    scheme = text "https";
    has_user = false;
    host = text "pdp.example";
    hostname = text "pdp.example";
    port = [];
    path = [];
  });
  ip_is_loopback = λ t. none;
  equal_fold = text_eq;
  to_lower = λ t. t;
  send = λ sent h r. (r ∷ sent, ok (record { status = 200; body = text "{}"; read_error = none }));
}

abbrev json : Json
json = record {
  marshal_evaluation = λ r. ok (text "{}");
  unmarshal_evaluation = λ t. ok permit;
  marshal_evaluations = λ r. ok (text "{}");
  unmarshal_evaluations = λ t. err t;
  marshal_subject_search = λ r. ok (text "{}");
  unmarshal_subject_search = λ t. err t;
  marshal_resource_search = λ r. ok (text "{}");
  unmarshal_resource_search = λ t. err t;
  marshal_action_search = λ r. ok (text "{}");
  unmarshal_action_search = λ t. err t;
  unmarshal_metadata = λ t. err t;
}

abbrev flags : EvaluateFlags
flags = record {
  global = record {
    url = text "https://pdp.example";
    token = [];
    timeout = pos 1;
    json = false;
    insecure_allow_http = false;
  };
  request_path = [];
  subject_type = text "user";
  subject_id = text "alice";
  action_name = text "read";
  resource_type = text "doc";
  resource_id = text "1";
  context_json = [];
  subject_props = [];
  resource_props = [];
  action_props = [];
  deny_exit_code = pos 3;
}

abbrev parse : List Text → Parsed EvaluateFlags
parse args = parsed flags

run_evaluate-IsPermitted_example :
    (help_requested (text "--url" ∷ []) ≡ true)
    ⊎ ((parse (text "--url" ∷ []) ≡ flag_help)
        ⊎ ((f : EvaluateFlags) × (parse (text "--url" ∷ []) ≡ parsed f)
            × IsPermitted host net json parse [] f))
unfolding run_evaluate start help_requested text_eq text parse_flags validate_global ask
    build_evaluation_request request_from_flags optional_object report_reply
    authzen.Client.Calls.evaluate call validate_request validate_subject validate_action
    decision_code documents printed report decision_label is_cleartext new_client_of
    default_evaluation_path apply_option apply_options effective_http_client new_client contains
    endpoint has_prefix is_loopback trim_right_slash apply_auth check_status
    check_transport_security default_max_response_bytes do_request effective_limit exchange
    post_body read_limited read_reply send_to with_bearer new_validation_error validate_resource
run_evaluate-IsPermitted_example =
    run_evaluate-IsPermitted host net json parse [] (text "--url" ∷ []) refl

-- The subject is called help.
run_evaluate-help_example :
    run_evaluate host net json parse [] (text "--subject-id" ∷ text "help" ∷ [])
    ≡ ([], record { code = pos 0; stdout = usage ∷ [] })
unfolding text text_eq
run_evaluate-help_example =
    run_evaluate-help host net json parse [] (text "--subject-id" ∷ []) [] (refl, tt)

abbrev formats : Formats
formats = record {
  parse_evaluations = λ t. err t;
  parse_subject_search = λ t. err t;
  parse_resource_search = λ t. err t;
  parse_action_search = λ t. err t;
  print_evaluations = λ r. ok (text "{}");
  print_metadata = λ r. ok (text "{}");
  print_subjects = λ r. ok (text "{}");
  print_resources = λ r. ok (text "{}");
  print_actions = λ r. ok (text "{}");
}

abbrev parsers : Parsers
parsers = record {
  parse_evaluate = parse;
  parse_evaluations_flags = λ args. flag_help;
  parse_search = λ kind args. flag_help;
  parse_discover = λ args. parsed flags.global;
}

run-IsCode_example :
    IsCode (run host formats net json parsers [] (text "discover" ∷ [])).1.code
    ⊎ ((rest : List Text) × (text "discover" ∷ [] ≡ text "evaluate" ∷ rest)
        × IsDenyCode host formats net json parsers [] rest
            (run host formats net json parsers [] (text "discover" ∷ [])).1.code)
run-IsCode_example = run-IsCode host formats net json parsers [] (text "discover" ∷ [])
