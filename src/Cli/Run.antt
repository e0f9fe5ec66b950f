-- ===== src/Cli/Run.antt =====
-- cmd/authzen: the commands beside evaluate, and the dispatch to them.
use authzen.Base.{
  Bool, true, List, [], ◌∷◌, Option, none, some, Text, text, text_eq, ℤ, pos, if◌then◌else◌, Result,
  ok, err,
}
use authzen.Json.{Fields}
use authzen.Core.Types.{Subject, Resource, Action}
use authzen.Core.Search.{SubjectSearchRequest, ResourceSearchRequest, ActionSearchRequest}
use authzen.Client.Config.{Net}
use authzen.Client.Calls.{
  Json, evaluate_batch, search_subjects, search_resources, search_actions, metadata,
}
use authzen.Cli.Options.{usage, line, entity, Exit, quit, start, new_client_of, Parsed, GlobalOpts}
use authzen.Cli.Evaluate.{Host, optional_object, run_evaluate}
use authzen.Cli.Commands.{
  Formats, EvaluationsFlags, SearchFlags, SearchKind, subject_kind, resource_kind, action_kind,
  Parsers, decision_lines, elements, metadata_lines, results_lines, show, page_from_flags,
  request_or_flags, evaluations_request, call_with,
}

abbrev flag_subject : Text → Text → Option Subject
flag_subject type id = some (record { type = type; id = id; properties = none })

abbrev flag_resource : Text → Text → Option Resource
flag_resource type id = some (record { type = type; id = id; properties = none })

abbrev flag_action : Text → Option Action
flag_action name = some (record { name = name; properties = none })

unfoldable pub subject_search_of : SearchFlags → Option Fields → SubjectSearchRequest
subject_search_of f context = record {
  subject = flag_subject f.subject_type [];
  action = flag_action f.action_name;
  resource = flag_resource f.resource_type f.resource_id;
  context = context;
  page = page_from_flags f;
}

unfoldable pub resource_search_of : SearchFlags → Option Fields → ResourceSearchRequest
resource_search_of f context = record {
  subject = flag_subject f.subject_type f.subject_id;
  action = flag_action f.action_name;
  resource = flag_resource f.resource_type [];
  context = context;
  page = page_from_flags f;
}

unfoldable pub action_search_of : SearchFlags → Option Fields → ActionSearchRequest
action_search_of f context = record {
  subject = flag_subject f.subject_type f.subject_id;
  resource = flag_resource f.resource_type f.resource_id;
  context = context;
  page = page_from_flags f;
}

-- The words that ask for help.
unfoldable pub is_help : Text → Bool
is_help a =
    if text_eq a (text "-h")
    then true
    else if text_eq a (text "--help")
    then true
    else text_eq a (text "help")

module _ {W : Type 0} (host : Host) (formats : Formats) (net : Net W) (json : Json) where
  unfoldable pub run_evaluations : (List Text → Parsed EvaluationsFlags) → W → List Text → W × Exit
  run_evaluations parse w args =
      start net w args (parse args) (λ f. f.global)
        (λ f.
          call_with w (evaluations_request host formats f)
            (λ r. evaluate_batch net json (new_client_of f.global) w (some r))
            (show f.global.json formats.print_evaluations
              (λ out. decision_lines 0 (elements out.evaluations))))

  unfoldable pub search_with : SearchKind → W → SearchFlags → Option Fields → W × Exit
  search_with subject_kind w f context =
      call_with w
        (request_or_flags host f.request_path formats.parse_subject_search
          (subject_search_of f context))
        (λ r. search_subjects net json (new_client_of f.global) w (some r))
        (show f.global.json formats.print_subjects (results_lines (λ s. entity s.type s.id)))
  search_with resource_kind w f context =
      call_with w
        (request_or_flags host f.request_path formats.parse_resource_search
          (resource_search_of f context))
        (λ r. search_resources net json (new_client_of f.global) w (some r))
        (show f.global.json formats.print_resources (results_lines (λ s. entity s.type s.id)))
  search_with action_kind w f context =
      call_with w
        (request_or_flags host f.request_path formats.parse_action_search
          (action_search_of f context))
        (λ r. search_actions net json (new_client_of f.global) w (some r))
        (show f.global.json formats.print_actions (results_lines (λ a. line a.name)))

  unfoldable pub search_in_context :
      SearchKind → W → SearchFlags → Result ℤ (Option Fields) → W × Exit
  search_in_context kind w f (err code) = (w, quit code)
  search_in_context kind w f (ok context) = search_with kind w f context

  unfoldable pub run_search_kind :
      SearchKind → (List Text → Parsed SearchFlags) → W → List Text → W × Exit
  run_search_kind kind parse w args =
      start net w args (parse args) (λ f. f.global)
        (λ f. search_in_context kind w f (optional_object host f.context_json))

  unfoldable pub run_discover : (List Text → Parsed GlobalOpts) → W → List Text → W × Exit
  run_discover parse w args =
      start net w args (parse args) (λ g. g)
        (λ g.
          call_with w (ok g) (λ g. metadata net json (new_client_of g) w)
            (show g.json formats.print_metadata metadata_lines))

  unfoldable pub run_search : Parsers → W → List Text → W × Exit
  run_search parsers w [] = (w, quit (pos 2))
  run_search parsers w (a ∷ rest) =
      if is_help a
      then (w, record { code = pos 0; stdout = usage ∷ [] })
      else if text_eq a (text "subject")
      then run_search_kind subject_kind (parsers.parse_search subject_kind) w rest
      else if text_eq a (text "resource")
      then run_search_kind resource_kind (parsers.parse_search resource_kind) w rest
      else if text_eq a (text "action")
      then run_search_kind action_kind (parsers.parse_search action_kind) w rest
      else (w, quit (pos 2))

  unfoldable pub run : Parsers → W → List Text → W × Exit
  run parsers w [] = (w, quit (pos 2))
  run parsers w (a ∷ rest) =
      if is_help a
      then (w, record { code = pos 0; stdout = usage ∷ [] })
      else if text_eq a (text "evaluate")
      then run_evaluate host net json parsers.parse_evaluate w rest
      else if text_eq a (text "evaluations")
      then run_evaluations parsers.parse_evaluations_flags w rest
      else if text_eq a (text "search")
      then run_search parsers w rest
      else if text_eq a (text "discover")
      then run_discover parsers.parse_discover w rest
      else (w, quit (pos 2))
