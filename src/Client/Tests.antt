-- ===== src/Client/Tests.antt =====
-- Runs of the client on a small network, and its theorems at them.
use authzen.Base.{
  ◌≡◌, refl, ◌⊎◌, ◌≤◌, false, List, [], ◌∷◌, length, none, some, Text, true, text, text_eq, ok, err,
  All, if◌then◌else◌,
}
use authzen.Server.Http.{Metadata}
use authzen.Client.Config.{
  Url, HttpRequest, HttpResponse, Net, Client, with_bearer_token, effective_http_client, new_client,
  apply_options, apply_option,
}
use authzen.Client.Issuer.{
  has_prefix, normalize_issuer, is_loopback, same_issuer, same_normalized, normalize_url,
  scheme_is_permitted, effective_port, canonical, trim_right_slash,
}
use authzen.Client.Calls.{Json, metadata, trusted_metadata}
use authzen.Client.Trust.{IsIssuer, expected_issuer_of, metadata-trusted}
use authzen.Client.Reply.{IsOutcome, read_reply-IsOutcome}
use authzen.Client.Transport.{
  read_reply, get, send_to, do_request, exchange, check_transport_security, apply_auth, with_bearer,
  read_limited, check_status, effective_limit, default_max_response_bytes,
}
use authzen.Client.Redirect.{
  follow, strip_sensitive_on_redirect, strip_after, strips, is_downgrade, is_cross_host, last_of,
}
use authzen.Client.Hops.{IsStripped, follow-IsStripped, follow-token_returns}
use authzen.Client.Safety.{metadata_call, evaluate_call, after_calls, IsCovered, after_calls-keeps}

abbrev url_of : Text → Url
url_of scheme = record {
  scheme = scheme;
  has_user = false;
  host = text "pdp.example";
  hostname = text "pdp.example";
  port = [];
  path = [];
}

-- A network that keeps the requests it gets, and answers each with the same document.
abbrev recording : Net (List HttpRequest)
recording = record {
  parse_url = λ t.
      if has_prefix (text "https://") t
      then some (url_of (text "https"))
      else if has_prefix (text "http://") t
      then some (url_of (text "http"))
      else none;
  ip_is_loopback = λ t. none;
  equal_fold = text_eq;
  to_lower = λ t. t;
  send = λ sent h r. (r ∷ sent, ok (record { status = 200; body = text "{}"; read_error = none }));
}

abbrev served : Metadata
served = record {
  policy_decision_point = text "https://pdp.example";
  access_evaluation_endpoint = [];
  access_evaluations_endpoint = [];
  search_subject_endpoint = [];
  search_resource_endpoint = [];
  search_action_endpoint = [];
  capabilities = [];
  signed_metadata = [];
}

abbrev json : Json
json = record {
  marshal_evaluation = λ r. ok (text "{}");
  unmarshal_evaluation = λ t. err t;
  marshal_evaluations = λ r. ok (text "{}");
  unmarshal_evaluations = λ t. err t;
  marshal_subject_search = λ r. ok (text "{}");
  unmarshal_subject_search = λ t. err t;
  marshal_resource_search = λ r. ok (text "{}");
  unmarshal_resource_search = λ t. err t;
  marshal_action_search = λ r. ok (text "{}");
  unmarshal_action_search = λ t. err t;
  unmarshal_metadata = λ t. ok served;
}

abbrev client : Text → Client
client base = new_client base (with_bearer_token (text "secret") ∷ [])

abbrev SentSafely : Client → List HttpRequest → Type 0
SentSafely c = All (λ r. (r.authorization ≡ none) ⊎ IsCovered recording json c r)

after_calls-keeps_example : SentSafely (client (text "https://pdp.example/")) (
    after_calls recording json
      (client (text "https://pdp.example/"))
      []
      (metadata_call ∷ evaluate_call none ∷ []))
unfolding new_client apply_options apply_option
after_calls-keeps_example =
    after_calls-keeps recording json (client (text "https://pdp.example/"))
      (SentSafely (client (text "https://pdp.example/"))) (λ w h r p safe. (safe.covered, p)) refl
      [] (metadata_call ∷ evaluate_call none ∷ []) tt

abbrev refused : HttpResponse
refused = record { status = 503; body = text "later"; read_error = none }

read_reply-IsOutcome_example :
    IsOutcome
      (client (text "https://pdp.example"))
      json.unmarshal_metadata
      refused
      (read_reply (client (text "https://pdp.example")) json.unmarshal_metadata refused)
read_reply-IsOutcome_example =
    read_reply-IsOutcome (client (text "https://pdp.example")) json.unmarshal_metadata refused

metadata-trusted_example :
    ((client (text "https://pdp.example/")).skip_metadata_validation ≡ true)
    ⊎ ((normalize_issuer recording
            (expected_issuer_of recording (client (text "https://pdp.example/")))
          ≡ normalize_issuer recording (text "https://pdp.example"))
        × IsIssuer recording (expected_issuer_of recording (client (text "https://pdp.example/")))
        × IsIssuer recording (text "https://pdp.example"))
unfolding new_client apply_options apply_option text text_eq metadata get send_to do_request
    exchange check_transport_security apply_auth with_bearer is_loopback effective_http_client
    read_reply read_limited check_status effective_limit trusted_metadata same_issuer
    same_normalized normalize_issuer normalize_url scheme_is_permitted effective_port canonical
    trim_right_slash has_prefix default_max_response_bytes
metadata-trusted_example =
    metadata-trusted recording json (client (text "https://pdp.example/")) [] served refl

abbrev first_request : HttpRequest
first_request = record {
  method = text "GET";
  url = url_of (text "https");
  content_type = [];
  accept = text "application/json";
  authorization = some (text "Bearer secret");
  body = [];
}

-- What an http.Client makes of a request for another URL of the same host.
abbrev repeated : HttpRequest → Url → HttpRequest
repeated r u = record r { url = u }

abbrev plain_url : Url
plain_url = url_of (text "http")

follow-IsStripped_example :
    (rest : List HttpRequest) × (first_request
        ∷ record first_request { url = plain_url; authorization = none }
        ∷ []
      ≡ first_request ∷ rest)
    × IsStripped recording first_request rest
    × (length rest ≡ 1)
    × (length rest ≤ 9)
unfolding follow strip_sensitive_on_redirect strip_after strips is_downgrade is_cross_host last_of
    text text_eq
follow-IsStripped_example = follow-IsStripped recording repeated first_request (plain_url ∷ []) refl

follow-token_returns_example :
    (r s : HttpRequest) × (follow recording repeated first_request
        (first_request ∷ [])
        (plain_url ∷ plain_url ∷ [])
      ≡ ok (first_request ∷ r ∷ s ∷ []))
    × (r.url ≡ plain_url)
    × (r.authorization ≡ none)
    × (s.url ≡ plain_url)
    × (s.authorization ≡ some (text "Bearer secret"))
unfolding text text_eq
follow-token_returns_example =
    follow-token_returns recording repeated first_request plain_url plain_url (λ w. refl) refl refl
      refl refl
