-- ===== src/Cli/Commands.antt =====
-- cmd/authzen/evaluations.go, search.go, discover.go, and the choice of a command in main.go.
use authzen.Base.{
  ℕ, suc, not, Bool, ◌||◌, List, [], ◌∷◌, ◌++◌, map, Option, none, some, Text, text, is_empty, ℤ,
  pos, is_pos, if◌then◌else◌, Result, ok, err, ◌>>=◌,
}
use authzen.Core.Types.{
  Subject, Resource, Action, EvaluationResponse, EvaluationsRequest, EvaluationsResponse,
}
use authzen.Core.Search.{
  Page, PageResponse, SubjectSearchRequest, ResourceSearchRequest, ActionSearchRequest,
  SearchResponse,
}
use authzen.Server.Http.{Metadata}
use authzen.Client.Transport.{ClientError}
use authzen.Cli.Options.{GlobalOpts, Parsed, Output, numbered, keyed, Exit, quit, decision_label}
use authzen.Cli.Evaluate.{Host, EvaluateFlags, or_code, read_request, documents}

-- The decoding and the printing of the other commands.
pub record Formats : Type 0 where
  pub parse_evaluations : Text → Result Text EvaluationsRequest
  pub parse_subject_search : Text → Result Text SubjectSearchRequest
  pub parse_resource_search : Text → Result Text ResourceSearchRequest
  pub parse_action_search : Text → Result Text ActionSearchRequest
  pub print_evaluations : EvaluationsResponse → Result Text Text
  pub print_metadata : Metadata → Result Text Text
  pub print_subjects : SearchResponse Subject → Result Text Text
  pub print_resources : SearchResponse Resource → Result Text Text
  pub print_actions : SearchResponse Action → Result Text Text

pub record EvaluationsFlags : Type 0 where
  pub global : GlobalOpts
  pub request_path : Text

pub record SearchFlags : Type 0 where
  pub global : GlobalOpts
  pub request_path : Text
  pub subject_type : Text
  pub subject_id : Text
  pub action_name : Text
  pub resource_type : Text
  pub resource_id : Text
  pub context_json : Text
  pub page_token : Text
  pub limit : ℤ

pub data SearchKind : Type 0 where
  subject_kind resource_kind action_kind : SearchKind

-- What flag.FlagSet.Parse makes of the arguments of each command.
pub record Parsers : Type 0 where
  pub parse_evaluate : List Text → Parsed EvaluateFlags
  pub parse_evaluations_flags : List Text → Parsed EvaluationsFlags
  pub parse_search : SearchKind → List Text → Parsed SearchFlags
  pub parse_discover : List Text → Parsed GlobalOpts

-- A key with its value, unless that is empty.
unfoldable pub print_if : Text → Text → List Output
print_if key value = if is_empty value then [] else keyed key value ∷ []

unfoldable pub decision_lines : ℕ → List EvaluationResponse → List Output
decision_lines i [] = []
decision_lines i (e ∷ es) = numbered i (decision_label e.decision) ∷ decision_lines (suc i) es

-- A nil slice has no elements.
unfoldable pub elements : {A : Type 0} → Option (List A) → List A
elements none = []
elements (some xs) = xs

unfoldable pub metadata_lines : Metadata → List Output
metadata_lines m =
    keyed (text "policy_decision_point") m.policy_decision_point
      ∷ keyed (text "access_evaluation_endpoint") m.access_evaluation_endpoint
      ∷ print_if (text "access_evaluations_endpoint") m.access_evaluations_endpoint
    ++ print_if (text "search_subject_endpoint") m.search_subject_endpoint
    ++ print_if (text "search_resource_endpoint") m.search_resource_endpoint
    ++ print_if (text "search_action_endpoint") m.search_action_endpoint
    ++ map (keyed (text "capability")) m.capabilities

unfoldable pub page_of : Option PageResponse → Text
page_of none = []
page_of (some p) = p.next_token

unfoldable pub print_page : Text → List Output
print_page token = if is_empty token then [] else keyed (text "next-page-token") token ∷ []

unfoldable pub results_lines : {A : Type 0} → (A → Output) → SearchResponse A → List Output
results_lines row r = map row (elements r.results) ++ print_page (page_of r.page)

unfoldable pub finish : Result ℤ (List Output) → Exit
finish (err code) = quit code
finish (ok out) = record { code = pos 0; stdout = out }

-- An error of the call, or the response as a document or as lines.
unfoldable pub show :
    {A : Type 0} → Bool → (A → Result Text Text) → (A → List Output) → Result ClientError A → Exit
show as_json print lines (err e) = quit (pos 1)
show as_json print lines (ok a) = finish (if as_json then documents (print a) else ok (lines a))

unfoldable pub page_from_flags : SearchFlags → Option Page
page_from_flags f =
    if not (is_empty f.page_token) || is_pos f.limit
    then some (record { token = f.page_token; limit = f.limit; properties = none })
    else none

module _ (host : Host) where
  -- The document at the path, or else the request of the flags.
  unfoldable pub request_or_flags : {R : Type 0} → Text → (Text → Result Text R) → R → Result ℤ R
  request_or_flags path decode flags =
      if is_empty path
      then ok flags
      else or_code (pos 1) (read_request host path) >>= λ bytes. or_code (pos 1) (decode bytes)

  unfoldable pub evaluations_request : Formats → EvaluationsFlags → Result ℤ EvaluationsRequest
  evaluations_request formats f =
      if is_empty f.request_path
      then err (pos 2)
      else or_code (pos 1) (read_request host f.request_path) >>= λ bytes.
          or_code (pos 1) (formats.parse_evaluations bytes)

-- The request, the call, and what is shown of its reply.
unfoldable pub call_with :
    {W R A : Type 0}
    → W
    → Result ℤ R
    → (R → W × Result ClientError A)
    → (Result ClientError A → Exit)
    → W × Exit
call_with w (err code) send shown = (w, quit code)
call_with w (ok r) send shown = let (w', reply) = send r in (w', shown reply)
