-- ===== src/Server/Endpoints/Guard.antt =====
-- What a request must be before the decision point sees it, and how it is refused otherwise.
use authzen.Base.{
  ◌≡◌, refl, ◌≢◌, ◌⊎◌, inl, inr, true, [], Option, none, some, Text, text, text_eq_iff, ℤ, pos,
  Result, ok, err, arith, ap, >>=-eq-ok, >>=-eq-err, subst, ok-injective,
}
use authzen.Json.{Any}
use authzen.Core.Codec.{DecodeError}
use authzen.Core.Errors.{Error}
use authzen.Server.Endpoints.{
  is_json_content_type, media_type_is_json, require_post, or_bad_request, decode_body, decode_json,
  check, admit,
}
use authzen.Server.Handler.{Body, document, malformed, too_large, Env, Handler}
use authzen.Server.Http.{Request, Response, write_error, write_json}

-- The request is a POST of a JSON document that decodes to `req`, and `req` is valid.
pub record IsAdmitted {A : Type 0} (h : Handler) (env : Env) (r : Request)
    (unmarshal : Any → Result DecodeError A) (validate : A → Result Error (Unit {0})) (req : A)
    : Type 0 where
  pub posted : r.method ≡ text "POST"
  pub content_type_given : r.content_type ≢ []
  pub json : env.parse_media_type r.content_type ≡ some (text "application/json")
  pub decoded :
      (v : Any) × (env.read_body h.max_body_bytes r.body ≡ document v) × (unmarshal v ≡ ok req)
  pub valid : validate req ≡ ok tt

-- The statuses that refuse a request.
abbrev pub IsRefusal : ℤ → Type 0
IsRefusal z = (z ≡ pos 405) ⊎ (z ≡ pos 415) ⊎ (z ≡ pos 413) ⊎ (z ≡ pos 400)

media_type_is_json_lem :
    (m : Option Text) → media_type_is_json m ≡ true → m ≡ some (text "application/json")
unfolding media_type_is_json
media_type_is_json_lem none h = cc
media_type_is_json_lem (some m) h = ap some ((text_eq_iff m _).0 h)

require_post_ok :
    (env : Env) (r : Request)
    → require_post env r ≡ ok tt
    → (r.method ≡ text "POST")
      × (r.content_type ≢ [])
      × (env.parse_media_type r.content_type ≡ some (text "application/json"))
unfolding require_post is_json_content_type
require_post_ok env r h = (
  ground (arith, text_eq_iff r.method (text "POST")),
  λ e. ground arith,
  media_type_is_json_lem _ (ground arith),
)

require_post_err :
    (env : Env) (r : Request) (resp : Response)
    → require_post env r ≡ err resp
    → IsRefusal resp.status
unfolding require_post write_error write_json
require_post_err env r resp h = ground arith

or_bad_request_ok :
    {A : Type 0} (r : Request) (m : Result DecodeError A) (req : A)
    → or_bad_request r m ≡ ok req
    → m ≡ ok req
unfolding or_bad_request
or_bad_request_ok r (ok a) req h = cc
or_bad_request_ok r (err e) req h = cc

or_bad_request_err :
    {A : Type 0} (r : Request) (m : Result DecodeError A) (resp : Response)
    → or_bad_request r m ≡ err resp
    → IsRefusal resp.status
unfolding or_bad_request write_error write_json
or_bad_request_err r (ok a) resp h = cc
or_bad_request_err r (err e) resp h = ground arith

decode_body_ok :
    {A : Type 0} (h : Handler) (r : Request) (unmarshal : Any → Result DecodeError A) (b : Body)
    (req : A)
    → decode_body h r unmarshal b ≡ ok req
    → (v : Any) × (b ≡ document v) × (unmarshal v ≡ ok req)
unfolding decode_body
decode_body_ok h r unmarshal (document v) req e = (v, refl, or_bad_request_ok r (unmarshal v) req e)
decode_body_ok h r unmarshal malformed req e = cc
decode_body_ok h r unmarshal too_large req e = cc

decode_body_err :
    {A : Type 0} (h : Handler) (r : Request) (unmarshal : Any → Result DecodeError A) (b : Body)
    (resp : Response)
    → decode_body h r unmarshal b ≡ err resp
    → IsRefusal resp.status
unfolding decode_body write_error write_json
decode_body_err h r unmarshal (document v) resp e = or_bad_request_err r (unmarshal v) resp e
decode_body_err h r unmarshal malformed resp e = ground arith
decode_body_err h r unmarshal too_large resp e = ground arith

check_ok : (r : Request) (m : Result Error (Unit {0})) → check r m ≡ ok tt → m ≡ ok tt
unfolding check
check_ok r (ok tt) h = refl
check_ok r (err e) h = cc

check_err :
    (r : Request) (m : Result Error (Unit {0})) (resp : Response)
    → check r m ≡ err resp
    → IsRefusal resp.status
unfolding check write_error write_json
check_err r (ok u) resp h = cc
check_err r (err e) resp h = ground arith

module _ {A : Type 0} (h : Handler) (env : Env) (r : Request)
    (unmarshal : Any → Result DecodeError A) (validate : A → Result Error (Unit {0})) where
  assemble :
      (req : A)
      → require_post env r ≡ ok tt
      → decode_body h r unmarshal (env.read_body h.max_body_bytes r.body) ≡ ok req
      → check r (validate req) ≡ ok tt
      → IsAdmitted h env r unmarshal validate req
  assemble req posted body checked =
      let (method, given, json) = require_post_ok env r posted in
      record {
        posted = method;
        content_type_given = given;
        json = json;
        decoded = decode_body_ok h r unmarshal _ req body;
        valid = check_ok r (validate req) checked;
      }

  -- A request that is handed on was a POST with a JSON content type whose body decodes to just
  -- what is handed on, and that passed its validation.
  pub admit-IsAdmitted :
      (req : A)
      → admit h env r unmarshal validate ≡ ok req
      → IsAdmitted h env r unmarshal validate req
  unfolding admit decode_json
  admit-IsAdmitted req e =
      let (u, posted, rest) = >>=-eq-ok _ (require_post env r) e in
      let (q, body, rest') = >>=-eq-ok _ (decode_json h env r unmarshal) rest in
      let (u', checked, same) = >>=-eq-ok _ (check r (validate q)) rest' in
      subst (IsAdmitted h env r unmarshal validate) (ok-injective same)
        (assemble q posted body checked)

  -- A request that is not handed on is answered with one of the statuses 400, 405, 413 and 415.
  pub admit-IsRefusal :
      (resp : Response) → admit h env r unmarshal validate ≡ err resp → IsRefusal resp.status
  unfolding admit decode_json
  admit-IsRefusal resp e = elim (>>=-eq-err _ (require_post env r) e) [
    | inl refused ↦ require_post_err env r resp refused
    | inr (u, posted, rest) ↦ elim (>>=-eq-err _ (decode_json h env r unmarshal) rest) [
      | inl refused ↦ decode_body_err h r unmarshal _ resp refused
      | inr (q, body, rest') ↦ elim (>>=-eq-err _ (check r (validate q)) rest') [
        | inl refused ↦ check_err r (validate q) resp refused
        | inr (u', checked, impossible) ↦ cc
      ]
    ]
  ]
