-- ===== src/Client/Config.antt =====
-- client/client.go: the Client and its options. What it uses of net/url, net, net/http, encoding/json
-- and of the Unicode tables of strings is a parameter.
use authzen.Base.{
  ℕ, ◌*◌, Bool, true, false, List, [], ◌∷◌, Option, none, some, Text, ℤ, pos, is_pos, if◌then◌else◌,
  Result,
}

-- A url.URL by what is asked of it: `host` is the host with its port, `hostname` without.
pub record Url : Type 0 where
  pub scheme : Text
  pub has_user : Bool
  pub host : Text
  pub hostname : Text
  pub port : Text
  pub path : Text

pub record HttpRequest : Type 0 where
  pub method : Text
  pub url : Url
  pub content_type : Text
  pub accept : Text
  pub authorization : Option Text
  pub body : Text

-- A response with its body, which may end in a read error.
pub record HttpResponse : Type 0 where
  pub status : ℕ
  pub body : Text
  pub read_error : Option Text

-- A CheckRedirect hook: the client's own, or one that the caller set.
pub data Hook : Type 0 where
  strip_sensitive callers_own : Hook

pub record HttpClient : Type 0 where
  pub timeout : ℤ
  pub check_redirect : Option Hook

-- The standard library, with a state W of what answers requests.
pub record Net (W : Type 0) : Type 0 where
  -- url.Parse
  pub parse_url : Text → Option Url
  -- net.ParseIP, and IsLoopback of what it returns
  pub ip_is_loopback : Text → Option Bool
  -- strings.EqualFold and strings.ToLower
  pub equal_fold : Text → Text → Bool
  pub to_lower : Text → Text
  -- the Do method of an http.Client
  pub send : W → HttpClient → HttpRequest → W × Result Text HttpResponse

pub record Client : Type 0 where
  pub base_url : Text
  pub http_client : Option HttpClient
  pub timeout : ℤ
  pub max_response_bytes : ℤ
  pub bearer_token : Text
  pub allow_insecure_http : Bool
  pub auth_func : Option (HttpRequest → Result Text HttpRequest)
  pub evaluation_path : Text
  pub evaluations_path : Text
  pub search_subject_path : Text
  pub search_resource_path : Text
  pub search_action_path : Text
  pub expected_issuer : Text
  pub skip_metadata_validation : Bool

pub data ClientOption : Type 0 where
  with_http_client : Option HttpClient → ClientOption
  with_timeout : ℤ → ClientOption
  with_max_response_bytes : ℤ → ClientOption
  with_insecure_allow_http : ClientOption
  with_bearer_token : Text → ClientOption
  with_auth_func : Option (HttpRequest → Result Text HttpRequest) → ClientOption
  with_evaluation_path : Text → ClientOption
  with_evaluations_path : Text → ClientOption
  with_search_subject_path : Text → ClientOption
  with_search_resource_path : Text → ClientOption
  with_search_action_path : Text → ClientOption
  with_expected_issuer : Text → ClientOption
  with_insecure_skip_metadata_validation : ClientOption

unfoldable pub apply_option : ClientOption → Client → Client
apply_option (with_http_client h) c = record c { http_client = h }
apply_option (with_timeout d) c = record c { timeout = d }
apply_option (with_max_response_bytes n) c = record c { max_response_bytes = n }
apply_option with_insecure_allow_http c = record c { allow_insecure_http = true }
apply_option (with_bearer_token t) c = record c { bearer_token = t }
apply_option (with_auth_func f) c = record c { auth_func = f }
apply_option (with_evaluation_path p) c = record c { evaluation_path = p }
apply_option (with_evaluations_path p) c = record c { evaluations_path = p }
apply_option (with_search_subject_path p) c = record c { search_subject_path = p }
apply_option (with_search_resource_path p) c = record c { search_resource_path = p }
apply_option (with_search_action_path p) c = record c { search_action_path = p }
apply_option (with_expected_issuer i) c = record c { expected_issuer = i }
apply_option with_insecure_skip_metadata_validation c = record c { skip_metadata_validation = true }

unfoldable pub apply_options : List ClientOption → Client → Client
apply_options [] c = c
apply_options (o ∷ os) c = apply_options os (apply_option o c)

unfoldable pub new_client : Text → List ClientOption → Client
new_client base_url opts = apply_options opts (record {
  base_url = base_url;
  http_client = none;
  timeout = pos 0;
  max_response_bytes = pos 0;
  bearer_token = [];
  allow_insecure_http = false;
  auth_func = none;
  evaluation_path = [];
  evaluations_path = [];
  search_subject_path = [];
  search_resource_path = [];
  search_action_path = [];
  expected_issuer = [];
  skip_metadata_validation = false;
})

-- 30 seconds, in nanoseconds.
unfoldable pub default_http_timeout : ℤ
default_http_timeout = pos (30 * 1000000000)

unfoldable pub effective_timeout : Client → ℤ
effective_timeout c = if is_pos c.timeout then c.timeout else default_http_timeout

unfoldable pub hooked : HttpClient → Option Hook → HttpClient
hooked h none = record h { check_redirect = some strip_sensitive }
hooked h (some hook) = h

unfoldable pub effective_http_client : Client → Option HttpClient → HttpClient
effective_http_client c none = record {
  timeout = effective_timeout c;
  check_redirect = some strip_sensitive;
}
effective_http_client c (some h) = hooked h h.check_redirect
