-- ===== src/Mcp/Tests.antt =====
-- Runs of the profile on small calls, and its theorems at them.
use authzen.Base.{
  ◌≡◌, refl, ◌↔◌, ◌⊎◌, ◌+◌, Bool, true, false, [], ◌∷◌, none, some, text, pos, ℕ, ok, is_empty,
  find, text_eq, arith,
}
use authzen.Json.{wire_fields}
use authzen.Core.Types.{EvaluationRequest}
use authzen.Core.Evaluation.Complete.{IsComplete}
use authzen.Mcp.Runes.{Lacks, is_control}
use authzen.Mcp.Challenge.{Challenge, to_string, parse_challenge}
use authzen.Mcp.Challenge.Keys.{carried_challenge}
use authzen.Mcp.Challenge.RoundTrip.{parse_challenge-to_string}
use authzen.Mcp.DenyContext.{deny_context, challenge_from_deny_context}
use authzen.Mcp.DenyContext.RoundTrip.{read_back, challenge_from_deny_context-deny_context}
use authzen.Mcp.Token.{TokenClaims, subject_from_token, token_identity}
use authzen.Mcp.Profile.{
  evaluation_request, call_action, server_resource, evaluation_context, action_for,
  method_to_action, target_resource, assemble,
}
use authzen.Mcp.Profile
use authzen.Mcp.Profile.Complete.{IsUnnamedServer, evaluation_request-cases}
use authzen.Mcp.Middleware.{Enforcer, World, Outcome, returned, failed, no_token, DenyInfo, handle}
use authzen.Mcp.Middleware.Gate.{IsPermitted, handle_invoked_iff}
use authzen.Mcp.Middleware.Denial.{IsAnswered, IsDenyStatus, handle-IsAnswered}
use authzen.Mcp.Middleware.Respond.{default_responder, default_responder_safe}

-- A challenge that tries to end the header line, with a quote in its scope.
abbrev crafted : Challenge
crafted = record {
  scheme = 0xd ∷ 0xa ∷ text "Be arer";
  error = text "insufficient_scope";
  error_description = 0xa ∷ [];
  scope = text "a\"b, realm=c";
  resource_metadata = text "https://api.example/x";
  realm = [];
  status = pos 403;
}

parse_challenge-to_string_example :
    parse_challenge (to_string crafted) ≡ ok (carried_challenge crafted)
parse_challenge-to_string_example = parse_challenge-to_string crafted

challenge_from_deny_context-deny_context_example :
    (challenge_from_deny_context (some (deny_context crafted)) ≡ (read_back crafted, true))
    × (challenge_from_deny_context (some (wire_fields (deny_context crafted)))
        ≡ (read_back crafted, true))
challenge_from_deny_context-deny_context_example =
    challenge_from_deny_context-deny_context crafted (omega arith)

abbrev crafted_info : DenyInfo
crafted_info = record { challenge = crafted; response = none; cause = some no_token }

default_responder_safe_example :
    IsDenyStatus (default_responder crafted_info).status
    × Lacks is_control (default_responder crafted_info).www_authenticate
    × (is_empty (default_responder crafted_info).error ≡ false)
    × ((default_responder crafted_info).cache_control ≡ text "no-store")
default_responder_safe_example = default_responder_safe crafted_info

abbrev alice : TokenClaims
alice = record {
  subject = text "alice";
  client_id = text "app";
  scopes = text "tools" ∷ [];
  audience = [];
  actor = [];
}

abbrev list_tools : Profile.Request
list_tools = record {
  method = text "tools/list";
  tool_name = [];
  resource_uri = [];
  prompt_name = [];
  arguments = none;
  token = alice;
  server_uri = [];
  transport = text "http";
  resource_indicator = [];
  context = none;
}

abbrev listed : EvaluationRequest
listed = record {
  subject = some (subject_from_token alice);
  action = some (call_action (text "mcp.tools.list") none);
  resource = some (server_resource [] []);
  context = some (evaluation_context list_tools);
}

evaluation_request-list_tools : evaluation_request list_tools ≡ ok listed
unfolding evaluation_request action_for find method_to_action target_resource assemble text text_eq
    subject_from_token token_identity
evaluation_request-list_tools = refl

evaluation_request-cases_example : IsComplete listed ⊎ IsUnnamedServer list_tools listed
evaluation_request-cases_example = evaluation_request-cases list_tools evaluation_request-list_tools

-- A request is whether it carries a token; the state counts the calls of the authorizer and of the
-- wrapped handler.
abbrev extracting : Bool → Outcome Profile.Request
extracting true = returned list_tools
extracting false = failed no_token

abbrev world : World (ℕ × ℕ) Bool
world = record {
  extract = λ w r. (w, extracting r);
  evaluate = λ w q. ((w.0 + 1, w.1), returned (record { decision = true; context = none }));
  next = λ w r. ((w.0, w.1 + 1), some (text "nil map"));
}

abbrev enforcer : Enforcer
enforcer = record { scope = text "tools"; resource_metadata = []; realm = [] }

handle_invoked_iff_example :
    ((handle enforcer world true (0, 0)).1.invoked ≡ true) ↔ IsPermitted enforcer world true (0, 0)
handle_invoked_iff_example = handle_invoked_iff enforcer world true (0, 0)

handle-IsAnswered_example : IsAnswered (handle enforcer world true (0, 0)).1
handle-IsAnswered_example = handle-IsAnswered enforcer world true (0, 0)
