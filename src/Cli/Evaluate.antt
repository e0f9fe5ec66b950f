-- ===== src/Cli/Evaluate.antt =====
-- cmd/authzen/evaluate.go. The file system, encoding/json and the flag package are parameters.
use authzen.Base.{
  Bool, true, false, List, [], ◌∷◌, Option, none, some, Text, text, text_eq, is_empty, ℤ, pos,
  if◌then◌else◌, Result, ok, err, ◌>>=◌,
}
use authzen.Json.{Fields}
use authzen.Core.Types.{EvaluationRequest, EvaluationResponse}
use authzen.Client.Config.{Net}
use authzen.Client.Transport.{ClientError}
use authzen.Client.Calls.{Json}
use authzen.Client.Calls
use authzen.Cli.Options.{
  GlobalOpts, Parsed, Output, document, line, Exit, quit, start, new_client_of, decision_label,
}

-- The streams, the files and the decoding of what is read.
pub record Host : Type 0 where
  pub stdin : Result Text Text
  pub read_file : Text → Result Text Text
  pub parse_evaluation : Text → Result Text EvaluationRequest
  -- a JSON object, or null
  pub parse_object : Text → Result Text (Option Fields)
  pub print_response : EvaluationResponse → Result Text Text

-- The flags of evaluate.
pub record EvaluateFlags : Type 0 where
  pub global : GlobalOpts
  pub request_path : Text
  pub subject_type : Text
  pub subject_id : Text
  pub action_name : Text
  pub resource_type : Text
  pub resource_id : Text
  pub context_json : Text
  pub subject_props : Text
  pub resource_props : Text
  pub action_props : Text
  pub deny_exit_code : ℤ

abbrev pub or_code : {A : Type 0} → ℤ → Result Text A → Result ℤ A
or_code n (ok a) = ok a
or_code n (err e) = err n

unfoldable pub documents : Result Text Text → Result ℤ (List Output)
documents (ok d) = ok (document d ∷ [])
documents (err e) = err (pos 1)

module _ (host : Host) where
  unfoldable pub read_request : Text → Result Text Text
  read_request path = if text_eq path (text "-") then host.stdin else host.read_file path

  -- The object of a flag, which is nil when the flag is not given.
  unfoldable pub optional_object : Text → Result ℤ (Option Fields)
  optional_object t = if is_empty t then ok none else or_code (pos 2) (host.parse_object t)

  unfoldable pub request_from_flags : EvaluateFlags → Result ℤ EvaluationRequest
  request_from_flags f = do
    context ← optional_object f.context_json
    subject ← optional_object f.subject_props
    resource ← optional_object f.resource_props
    action ← optional_object f.action_props
    ok (record {
      subject = some (record { type = f.subject_type; id = f.subject_id; properties = subject });
      action = some (record { name = f.action_name; properties = action });
      resource =
          some (record { type = f.resource_type; id = f.resource_id; properties = resource });
      context = context;
    })

  unfoldable pub build_evaluation_request : EvaluateFlags → Result ℤ EvaluationRequest
  build_evaluation_request f =
      if is_empty f.request_path
      then request_from_flags f
      else or_code (pos 1) (read_request f.request_path) >>= λ bytes.
          or_code (pos 1) (host.parse_evaluation bytes)

  unfoldable pub printed : EvaluateFlags → EvaluationResponse → Result ℤ (List Output)
  printed f r =
      if f.global.json
      then documents (host.print_response r)
      else ok (line (decision_label r.decision) ∷ [])

  -- `!resp.Decision && denyExitCode != 0`
  unfoldable pub decision_code : ℤ → Bool → ℤ
  decision_code deny true = pos 0
  decision_code deny false = deny

  unfoldable pub report : EvaluateFlags → EvaluationResponse → Exit
  report f r = elim (printed f r) [
    | err code ↦ quit code
    | ok out ↦ record { code = decision_code f.deny_exit_code r.decision; stdout = out }
  ]

  unfoldable pub report_reply : EvaluateFlags → Result ClientError EvaluationResponse → Exit
  report_reply f (err e) = quit (pos 1)
  report_reply f (ok r) = report f r

  module _ {W : Type 0} (net : Net W) (json : Json) where
    unfoldable pub ask : W → EvaluateFlags → Result ℤ EvaluationRequest → W × Exit
    ask w f (err code) = (w, quit code)
    ask w f (ok r) =
        let (w', reply) =
          authzen.Client.Calls.evaluate net json (new_client_of f.global) w (some r) in
        (w', report_reply f reply)

    unfoldable pub run_evaluate : (List Text → Parsed EvaluateFlags) → W → List Text → W × Exit
    run_evaluate parse w args =
        start net w args (parse args) (λ f. f.global) (λ f. ask w f (build_evaluation_request f))
