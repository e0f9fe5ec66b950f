-- ===== src/Mcp/DenyContext.antt =====
-- mcp/challenge.go: a challenge in the context of a deny, written with DenyContext and read with
-- ChallengeFromDenyContext.
pub mod RoundTrip
use authzen.Base.{
  ℕ, suc, zero, ◌/◌, ◌^◌, Bool, true, false, ◌||◌, List, [], ◌∷◌, Option, none, some, Text, text, ℤ,
  pos, negsuc, is_empty, is_some, if◌then◌else◌, ◌==◌, Result, ok, err, ◌≡◌, refl, Bool-cases, inl,
  inr, text_eq, arith, ◌∙◌, ap, find,
}
use authzen.Json.{
  Any, Fields, null, int, int64, float64, str, obj, end, field, get, set, get-set, get_in, get_obj,
  as_obj, get_from, wire, wire_fields, get-wire_fields, map_value,
}
use authzen.Mcp.Runes.{strip_control, without, contains_func}
use authzen.Mcp.Challenge.{
  Challenge, rendered_scheme, to_string, parse_challenge, default_scheme, error_insufficient_scope,
}
use authzen.Mcp.Challenge.Keys.{carried_challenge}
use authzen.Mcp.Challenge.RoundTrip.{parse_challenge-to_string, rendered_scheme_ne}

abbrev pub is_zero : ℤ → Bool
is_zero (pos n) = n == 0
is_zero (negsuc n) = false

-- `if s != "" { m[key] = s }`
unfoldable pub set_text : Text → Text → Fields → Fields
set_text key s m = if is_empty s then m else set key (str s) m

unfoldable pub set_status : ℤ → Fields → Fields
set_status n m = if is_zero n then m else set (text "status") (int n) m

unfoldable pub www_authenticate : Challenge → Fields
www_authenticate c = set_text (text "realm") c.realm (
    set_text (text "resource_metadata") c.resource_metadata
      (set_text (text "scope") c.scope (field (text "header") (str (to_string c)) end)))

unfoldable pub mcp_object : Challenge → Fields
mcp_object c =
    set_text (text "error") c.error
      (set_status c.status (field (text "www_authenticate") (obj (www_authenticate c)) end))

unfoldable pub deny_context : Challenge → Fields
deny_context c = field (text "mcp") (obj (mcp_object c)) end

-- On a missing key, `m[k]` is nil.
unfoldable pub string_field : Option Any → Option Text
string_field (some (str s)) = if is_empty s then none else some s
string_field _ = none

-- `int(f)` of a float64 that an int can hold: the fraction is dropped.
abbrev pub neg : ℕ → ℤ
neg zero = pos 0
neg (suc n) = negsuc n

unfoldable pub truncate : ℤ → ℕ → ℤ
truncate (pos n) k = pos (n / 2 ^ k)
truncate (negsuc n) k = neg (suc n / 2 ^ k)

unfoldable pub int_field : Option Any → Option ℤ
int_field (some (int n)) = some n
int_field (some (int64 n)) = some n
int_field (some (float64 z k)) = some (truncate z k)
int_field _ = none

abbrev pub empty_challenge : Challenge
empty_challenge = record {
  scheme = [];
  error = [];
  error_description = [];
  scope = [];
  resource_metadata = [];
  realm = [];
  status = pos 0;
}

abbrev pub or_old {ℓ} : {A : Type ℓ} → Option A → A → A
or_old none old = old
or_old (some new) old = new

-- The challenge of the header, where there is one that can be parsed.
unfoldable pub parsed_header : Option Text → Challenge
parsed_header none = empty_challenge
parsed_header (some h) = elim (parse_challenge h) [ ok c ↦ c | err e ↦ empty_challenge ]

unfoldable pub read_www_authenticate : Option Fields → Challenge
read_www_authenticate none = empty_challenge
read_www_authenticate (some wa) =
    let c = parsed_header (string_field (get (text "header") wa)) in
    record c {
      scope = or_old (string_field (get (text "scope") wa)) c.scope;
      resource_metadata =
          or_old (string_field (get (text "resource_metadata") wa)) c.resource_metadata;
      realm = or_old (string_field (get (text "realm") wa)) c.realm;
    }

unfoldable pub read_mcp : Fields → Challenge × Bool
read_mcp m =
    let wa = get_obj (text "www_authenticate") m in
    let e = string_field (get (text "error") m) in
    let n = int_field (get (text "status") m) in
    let c = read_www_authenticate wa in
    (
      record c { error = or_old e c.error; status = or_old n c.status },
      is_some wa || is_some e || is_some n,
    )

unfoldable pub challenge_from_deny_context : Option Fields → Challenge × Bool
challenge_from_deny_context ctx = elim (get_from as_obj (get_in (text "mcp") ctx)) [
  | none ↦ (empty_challenge, false)
  | some m ↦ read_mcp m
]
