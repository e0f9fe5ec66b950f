-- ===== src/Client/Transport.antt =====
-- client/client.go: post, get and do, which send a request and read its response.
use authzen.Base.{
  ℕ, ◌*◌, ◌||◌, [], ◌++◌, Option, none, some, Text, text, ℤ, pos, pos_part, is_pos, is_empty,
  if◌then◌else◌, ltb, leb, length, take, Result, ok, err, ◌>>=◌,
}
use authzen.Core.Errors.{Error}
use authzen.Client.Config.{Url, HttpRequest, HttpResponse, Net, Client, effective_http_client}
use authzen.Client.Issuer.{is_loopback}

pub data ClientError : Type 0 where
  nil_request build_request : ClientError
  not_valid : Error → ClientError
  insecure : Text → Text → ClientError
  marshal auth_hook transport read_response decode : Text → ClientError
  -- APIError and MetadataValidationError
  api_error : ℕ → Text → ClientError
  metadata_mismatch : Text → Text → ClientError

unfoldable pub default_max_response_bytes : ℤ
default_max_response_bytes = pos (10 * 1048576)

unfoldable pub max_api_error_body_bytes : ℕ
max_api_error_body_bytes = 4096

unfoldable pub effective_limit : Client → ℤ
effective_limit c =
    if is_pos c.max_response_bytes then c.max_response_bytes else default_max_response_bytes

-- io.ReadAll of an io.LimitReader.
unfoldable pub read_limited : ℕ → HttpResponse → Result ClientError Text
read_limited limit r =
    if leb limit (length r.body)
    then ok (take limit r.body)
    else elim r.read_error [ none ↦ ok r.body | some e ↦ err (read_response e) ]

-- An error for a status that is not 2xx.
unfoldable pub check_status : ℕ → Text → Result ClientError Text
check_status status bytes =
    if ltb status 200 || leb 300 status
    then err (api_error status (take max_api_error_body_bytes bytes))
    else ok bytes

-- An error of a step, under a name of its own.
abbrev pub named {ℓ} : {A : Type ℓ} → (Text → ClientError) → Result Text A → Result ClientError A
named name (ok a) = ok a
named name (err e) = err (name e)

unfoldable pub read_reply :
    {A : Type 0} → Client → (Text → Result Text A) → HttpResponse → Result ClientError A
read_reply c unmarshal r = do
  bytes ← read_limited (pos_part (effective_limit c)) r
  checked ← check_status r.status bytes
  named decode (unmarshal checked)

-- The static token first, then the hook of the caller.
unfoldable pub with_bearer : Client → HttpRequest → HttpRequest
with_bearer c r =
    if is_empty c.bearer_token
    then r
    else record r { authorization = some (text "Bearer " ++ c.bearer_token) }

unfoldable pub apply_auth : Client → HttpRequest → Result ClientError HttpRequest
apply_auth c r = elim c.auth_func [
  | none ↦ ok (with_bearer c r)
  | some f ↦ named auth_hook (f (with_bearer c r))
]

module _ {W : Type 0} (net : Net W) (c : Client) where
  unfoldable pub check_transport_security : HttpRequest → Result ClientError (Unit {0})
  check_transport_security r =
      if is_empty c.bearer_token || c.allow_insecure_http
      then ok tt
      else if net.equal_fold r.url.scheme (text "https") || is_loopback net r.url.hostname
      then ok tt
      else err (insecure r.url.scheme r.url.host)

  unfoldable pub exchange :
      {A : Type 0}
      → W
      → (Text → Result Text A)
      → Result ClientError HttpRequest
      → W × Result ClientError A
  exchange w unmarshal (err e) = (w, err e)
  exchange w unmarshal (ok r) =
      let (w', reply) = net.send w (effective_http_client c c.http_client) r in
      (w', named transport reply >>= read_reply c unmarshal)

  unfoldable pub do_request :
      {A : Type 0} → W → HttpRequest → (Text → Result Text A) → W × Result ClientError A
  do_request w r unmarshal =
      exchange w unmarshal (check_transport_security r >>= λ u. apply_auth c r)

  -- http.NewRequestWithContext refuses a URL that does not parse.
  unfoldable pub send_to :
      {A : Type 0}
      → W
      → (Url → HttpRequest)
      → (Text → Result Text A)
      → Option Url
      → W × Result ClientError A
  send_to w request unmarshal none = (w, err build_request)
  send_to w request unmarshal (some u) = do_request w (request u) unmarshal

  unfoldable pub post_body :
      {A : Type 0} → W → Text → (Text → Result Text A) → Result Text Text → W × Result ClientError A
  post_body w url unmarshal (err e) = (w, err (marshal e))
  post_body w url unmarshal (ok body) =
      send_to w
        (λ u. record {
          method = text "POST";
          url = u;
          content_type = text "application/json";
          accept = text "application/json";
          authorization = none;
          body = body;
        })
        unmarshal (net.parse_url url)

  unfoldable pub get : {A : Type 0} → W → Text → (Text → Result Text A) → W × Result ClientError A
  get w url unmarshal =
      send_to w
        (λ u. record {
          method = text "GET";
          url = u;
          content_type = [];
          accept = text "application/json";
          authorization = none;
          body = [];
        })
        unmarshal (net.parse_url url)
