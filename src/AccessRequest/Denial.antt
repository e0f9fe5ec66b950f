-- ===== src/AccessRequest/Denial.antt =====
-- accessrequest/denial.go and validate.go: reading a requestable denial, and the binding that a
-- submission echoes.
use authzen.Base.{
  ◌&&◌, [], ◌++◌, Option, none, some, Text, text, is_empty, Result, ok, if◌then◌else◌, ◌≡◌, refl,
  ◌≢◌, ◌↔◌, ◌⊎◌, arith,
}
use authzen.Json.{Fields, get_str, get_obj}
use authzen.AccessRequest.Types.{Hint, DenialBinding}
use authzen.AccessRequest.Errors.{
  Fault, missing_expires_at, missing_denial, missing_denial_binding, reject,
}

abbrev or_zero : Option Text → Text
or_zero none = []
or_zero (some t) = t

abbrev or_keep : Text → Option Text → Text
or_keep old none = old
or_keep old (some t) = t

read_hint : Fields → Hint
read_hint raw = record {
  endpoint = or_zero (get_str (text "endpoint") raw);
  template = or_zero (get_str (text "template") raw);
  expires_at = or_zero (get_str (text "expires_at") raw);
  binding_token = or_zero (get_str (text "binding_token") raw);
  display = get_obj (text "display") raw;
  form_url = or_zero (get_str (text "form_url") raw);
  request_schema_url = or_zero (get_str (text "request_schema_url") raw);
  request_catalogs_url = or_zero (get_str (text "request_catalogs_url") raw);
}

read_raw : Option Fields → Option Hint
unfolding read_hint
read_raw none = none
read_raw (some raw) = some (read_hint raw)

unfoldable pub hint_from_context : Option Fields → Option Hint
unfolding read_raw
hint_from_context none = none
hint_from_context (some ctx) = read_raw (get_obj (text "access_request") ctx)

unfoldable pub echo_hint : Option Hint → DenialBinding → DenialBinding
echo_hint none d = d
echo_hint (some h) d = record d {
  expires_at = h.expires_at;
  binding_token = h.binding_token;
  template = h.template;
}

unfoldable pub echo_context : Option Fields → DenialBinding → DenialBinding
echo_context none d = d
echo_context (some ctx) d = record d {
  evaluation_id = or_keep d.evaluation_id (get_str (text "evaluation_id") ctx);
  evaluated_at = or_keep d.evaluated_at (get_str (text "evaluated_at") ctx);
  reason = or_keep d.reason (get_str (text "reason") ctx);
}

abbrev pub empty_binding : DenialBinding
empty_binding = record {
  evaluation_id = [];
  evaluated_at = [];
  expires_at = [];
  reason = [];
  binding_token = [];
  template = [];
}

unfoldable pub denial_from_hint : Option Hint → Option Fields → DenialBinding
denial_from_hint h ctx = echo_context ctx (echo_hint h empty_binding)

unfoldable pub validate_hint : Option Hint → Result Fault (Unit {0})
validate_hint none = reject (text "access_request") missing_expires_at
validate_hint (some h) =
    if is_empty h.expires_at
    then reject (text "access_request.expires_at") missing_expires_at
    else ok tt

unfoldable pub validate_denial : Text → Option DenialBinding → Result Fault (Unit {0})
validate_denial field none = reject field missing_denial
validate_denial field (some d) =
    if is_empty d.expires_at
    then reject (field ++ text ".expires_at") missing_expires_at
    else if is_empty d.evaluation_id && is_empty d.binding_token
    then reject field missing_denial_binding
    else ok tt

-- "expires_at is REQUIRED", and verifiable binding material: an evaluation_id or a binding_token.
abbrev pub IsBinding : Option DenialBinding → Type 0
IsBinding o =
    (d : DenialBinding) × (o ≡ some d)
    × (d.expires_at ≢ [])
    × ((d.evaluation_id ≢ []) ⊎ (d.binding_token ≢ []))

pub validate_denial_iff :
    (field : Text) (o : Option DenialBinding) → (validate_denial field o ≡ ok tt) ↔ IsBinding o
unfolding validate_denial reject
validate_denial_iff field none = (λ h. cc, λ h. cc (h.1))
validate_denial_iff field (some d) = (λ h. (d, refl, ground arith, ground arith), λ h. ground arith)

abbrev pub evaluation_id_in : Option Fields → Text
evaluation_id_in none = []
evaluation_id_in (some ctx) = or_zero (get_str (text "evaluation_id") ctx)

keep_nothing : (o : Option Text) → or_keep [] o ≡ or_zero o
keep_nothing none = refl
keep_nothing (some t) = refl

echo_parts :
    (h : Hint) (ctx : Option Fields)
    → ((denial_from_hint (some h) ctx).expires_at ≡ h.expires_at)
      × ((denial_from_hint (some h) ctx).binding_token ≡ h.binding_token)
      × ((denial_from_hint (some h) ctx).evaluation_id ≡ evaluation_id_in ctx)
unfolding denial_from_hint echo_hint echo_context
echo_parts h none = (refl, refl, refl)
echo_parts h (some ctx) = (refl, refl, keep_nothing (get_str (text "evaluation_id") ctx))

binding_iff :
    (field : Text) (d : DenialBinding)
    → (validate_denial field (some d) ≡ ok tt)
      ↔ ((d.expires_at ≢ []) × ((d.evaluation_id ≢ []) ⊎ (d.binding_token ≢ [])))
unfolding validate_denial reject
binding_iff field d = (λ h. (ground arith, ground arith), λ h. ground arith)

hint_iff : (h : Hint) → (validate_hint (some h) ≡ ok tt) ↔ (h.expires_at ≢ [])
unfolding validate_hint reject
hint_iff h = (λ u. ground arith, λ u. ground arith)

-- The binding that is echoed from a hint and a decision context is accepted exactly when the hint
-- is valid and either the context has a string evaluation_id that is not empty or the hint has a
-- binding token.
pub echoed_binding_iff :
    (field : Text) (h : Hint) (ctx : Option Fields)
    → (validate_denial field (some (denial_from_hint (some h) ctx)) ≡ ok tt)
      ↔ ((validate_hint (some h) ≡ ok tt) × ((evaluation_id_in ctx ≢ []) ⊎ (h.binding_token ≢ [])))
echoed_binding_iff field h ctx =
    let (to, from) = binding_iff field (denial_from_hint (some h) ctx) in
    let (e, b, i) = echo_parts h ctx in
    (
      λ u. let (x, y) = rw (e, b, i) at (to u) in ((hint_iff h).1 x, y),
      λ (x, y). from (rw (e, b, i) ((hint_iff h).0 x, y)),
    )
