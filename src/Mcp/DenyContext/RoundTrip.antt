-- ===== src/Mcp/DenyContext/RoundTrip.antt =====
-- mcp/challenge.go: the challenge of a deny comes back from its context.
use authzen.Base.{
  ◌+◌, ◌<◌, pos_part, neg_part, suc, ◌/◌, ◌^◌, true, false, [], ◌∷◌, ◌++◌, Option, none, some, Text,
  text, ℤ, pos, negsuc, is_empty, if◌then◌else◌, ◌≡◌, refl, Bool-cases, inl, inr, text_eq, arith,
  some_injective, ◌∙◌, ap,
}
use authzen.Json.{
  Any, Fields, int, str, obj, get, get-set, get_obj, as_obj, get_from, wire, wire_fields,
  get-wire_fields, map_value, float64_of_small,
}
use authzen.Mcp.Runes.{strip_control, contains_func}
use authzen.Mcp.Challenge.{Challenge, rendered_scheme, to_string, params}
use authzen.Mcp.Challenge.Keys.{carried_challenge}
use authzen.Mcp.Challenge.RoundTrip.{parse_challenge-to_string, rendered_scheme_ne}
use authzen.Mcp.DenyContext.{
  is_zero, set_text, set_status, www_authenticate, mcp_object, deny_context, string_field, neg,
  truncate, int_field, or_old, parsed_header, read_www_authenticate, read_mcp,
  challenge_from_deny_context,
}

get-set_text :
    (k j s : Text) (m : Fields)
    → get j (set_text k s m)
      ≡ (if text_eq k j then (if is_empty s then get j m else some (str s)) else get j m)
unfolding set_text
get-set_text k j s m = elim (Bool-cases (is_empty s)) [
  | inl h ↦ rw h (ground arith)
  | inr h ↦ rw (h, get-set k j (str s) m) refl
]

get-set_status :
    (j : Text) (n : ℤ) (m : Fields)
    → get j (set_status n m) ≡ (
        if text_eq (text "status") j
        then (if is_zero n then get j m else some (int n))
        else get j m)
unfolding set_status
get-set_status j n m = elim (Bool-cases (is_zero n)) [
  | inl h ↦ rw h (ground arith)
  | inr h ↦ rw (h, get-set (text "status") j (int n) m) refl
]

-- A string that is left out when it is empty.
abbrev optional : Text → Option Text
optional s = if is_empty s then none else some s

string_field-optional :
    (s : Text) → string_field (if is_empty s then none else some (str s)) ≡ optional s
unfolding string_field
string_field-optional [] = refl
string_field-optional (r ∷ s) = refl

string_field-map_value : (o : Option Any) → string_field (map_value o) ≡ string_field o
unfolding string_field wire
string_field-map_value none = refl
string_field-map_value (some (str s)) = refl
string_field-map_value (some v) = refl

or_old-optional : (s : Text) → or_old (optional s) (strip_control s) ≡ s
unfolding strip_control contains_func
or_old-optional [] = refl
or_old-optional (r ∷ s) = refl

optional_status : ℤ → Option ℤ
optional_status n = if is_zero n then none else some n

or_old-optional_status : (n : ℤ) → or_old (optional_status n) (pos 0) ≡ n
unfolding optional_status
or_old-optional_status (pos n) = ground arith
or_old-optional_status (negsuc n) = refl

truncate_whole : (n : ℤ) → truncate n 0 ≡ n
unfolding truncate
truncate_whole (pos n) = let whole : n / 2 ^ 0 ≡ n = omega arith in ap pos whole
truncate_whole (negsuc n) = let whole : suc n / 2 ^ 0 ≡ suc n = omega arith in ap neg whole

-- What is read of a challenge, with its scheme as the header carries it.
abbrev pub read_back : Challenge → Challenge
read_back c = record c {
  scheme = rendered_scheme c.scheme;
  error_description = strip_control c.error_description;
}

is_empty-append : (s t : Text) → is_empty s ≡ false → is_empty (s ++ t) ≡ false
is_empty-append [] t h = cc
is_empty-append (r ∷ s) t h = refl

is_empty-to_string : (c : Challenge) → is_empty (to_string c) ≡ false
unfolding to_string
is_empty-to_string c = elim (Bool-cases (is_empty (params c))) [
  | inl e ↦ rw e (rendered_scheme_ne c.scheme)
  | inr e ↦ rw e (is_empty-append _ _ (rendered_scheme_ne c.scheme))
]

parsed_header-to_string : (c : Challenge) → parsed_header (some (to_string c)) ≡ carried_challenge c
unfolding parsed_header
parsed_header-to_string c = rw (parse_challenge-to_string c, parsed_header) refl

-- A map that holds the fields of c.
record Holds (c : Challenge) (m : Fields) : Type 0 where
  www : Fields
  nested : get_obj (text "www_authenticate") m ≡ some www
  header : string_field (get (text "header") www) ≡ some (to_string c)
  scope : string_field (get (text "scope") www) ≡ optional c.scope
  resource_metadata :
      string_field (get (text "resource_metadata") www) ≡ optional c.resource_metadata
  realm : string_field (get (text "realm") www) ≡ optional c.realm
  error : string_field (get (text "error") m) ≡ optional c.error
  status : int_field (get (text "status") m) ≡ optional_status c.status

read_mcp-Holds : (c : Challenge) (m : Fields) → Holds c m → read_mcp m ≡ (read_back c, true)
unfolding read_mcp read_www_authenticate
read_mcp-Holds c m h =
    rw
      (
        h.nested,
        h.header,
        parsed_header-to_string c,
        h.scope,
        h.resource_metadata,
        h.realm,
        h.error,
        h.status,
        or_old-optional c.error,
        or_old-optional c.scope,
        or_old-optional c.resource_metadata,
        or_old-optional c.realm,
        or_old-optional_status c.status,
      )
      refl

string_field_full : (s : Text) → is_empty s ≡ false → string_field (some (str s)) ≡ some s
unfolding string_field
string_field_full s h = rw h refl

int_field-optional :
    (n : ℤ) → int_field (if is_zero n then none else some (int n)) ≡ optional_status n
unfolding int_field optional_status
int_field-optional (pos n) = ground arith
int_field-optional (negsuc n) = refl

mcp_object-Holds : (c : Challenge) → Holds c (mcp_object c)
unfolding mcp_object www_authenticate text text_eq get
mcp_object-Holds c = record {
  www = www_authenticate c;
  nested = simp (get-set_text, get-set_status) refl;
  header = simp get-set_text (string_field_full (to_string c) (is_empty-to_string c));
  scope = simp get-set_text (string_field-optional c.scope);
  resource_metadata = simp get-set_text (string_field-optional c.resource_metadata);
  realm = simp get-set_text (string_field-optional c.realm);
  error = simp (get-set_text, get-set_status) (string_field-optional c.error);
  status = simp (get-set_text, get-set_status) (int_field-optional c.status);
}

-- A status that is left out when it is 0.
abbrev optional_int : ℤ → Option Any
optional_int n = if is_zero n then none else some (int n)

int_field-map_value :
    (n : ℤ)
    → pos_part n + neg_part n < 2 ^ 53
    → int_field (map_value (optional_int n)) ≡ optional_status n
unfolding int_field wire optional_status
int_field-map_value n h = elim (Bool-cases (is_zero n)) [
  | inl e ↦ rw (e) refl
  | inr e ↦ rw (e, float64_of_small n h) (ap some (truncate_whole n))
]

as_obj-map_value :
    (o : Option Any) {m : Fields}
    → get_from as_obj o ≡ some m
    → get_from as_obj (map_value o) ≡ some (wire_fields m)
unfolding wire
as_obj-map_value none h = cc
as_obj-map_value (some (obj f)) h = ap (λ x. some (wire_fields x)) (some_injective h)
as_obj-map_value (some v) h = cc

wire_fields-Holds :
    (c : Challenge) (m : Fields)
    → pos_part c.status + neg_part c.status < 2 ^ 53
    → get (text "status") m ≡ optional_int c.status
    → Holds c m
    → Holds c (wire_fields m)
wire_fields-Holds c m small sent h = record {
  www = wire_fields h.www;
  nested =
      ap (get_from as_obj) (get-wire_fields (text "www_authenticate") m)
      ∙ as_obj-map_value (get (text "www_authenticate") m) h.nested;
  header = rw (get-wire_fields, string_field-map_value) h.header;
  scope = rw (get-wire_fields, string_field-map_value) h.scope;
  resource_metadata = rw (get-wire_fields, string_field-map_value) h.resource_metadata;
  realm = rw (get-wire_fields, string_field-map_value) h.realm;
  error = rw (get-wire_fields, string_field-map_value) h.error;
  status = rw (get-wire_fields, sent) (int_field-map_value c.status small);
}

get-status : (c : Challenge) → get (text "status") (mcp_object c) ≡ optional_int c.status
unfolding mcp_object www_authenticate text text_eq get
get-status c = simp (get-set_text, get-set_status) refl

-- A challenge that a decision point puts into the context of a deny is found there again, in the
-- same process and after a trip over the wire: with its scheme as a bare token, its description
-- without control characters, and all else as it was, for a status that float64 holds exactly: of
-- less than 2^53 in size.
pub challenge_from_deny_context-deny_context :
    (c : Challenge)
    → pos_part c.status + neg_part c.status < 2 ^ 53
    → (challenge_from_deny_context (some (deny_context c)) ≡ (read_back c, true))
      × (challenge_from_deny_context (some (wire_fields (deny_context c))) ≡ (read_back c, true))
unfolding challenge_from_deny_context deny_context text text_eq get wire
challenge_from_deny_context-deny_context c small = (
  read_mcp-Holds c (mcp_object c) (mcp_object-Holds c),
  read_mcp-Holds c (wire_fields (mcp_object c))
      (wire_fields-Holds c (mcp_object c) small (get-status c) (mcp_object-Holds c)),
)
