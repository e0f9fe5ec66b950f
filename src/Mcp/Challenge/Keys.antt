-- ===== src/Mcp/Challenge/Keys.antt =====
-- mcp/challenge.go: the parameters of a challenge, read from the list that String writes.
use authzen.Base.{
  List, [], ◌∷◌, Text, text, text_eq, is_empty, if◌then◌else◌, find, pos, ◌≡◌, refl, ◌∙◌, ◌==◌,
}
use authzen.Mcp.Runes.{
  strip_control, is_space, to_lower, lower_rune, trim_space, trim_left, trim_right, contains_func,
  contains_func-Lacks,
}
use authzen.Mcp.Params.{parse_auth_params, skip_separators}
use authzen.Mcp.Challenge.{Challenge, params, join, rendered_scheme, value_of, challenge_of}
use authzen.Mcp.Challenge.Render.{
  IsKey, with_param, parse_into-add, parse_into-join, parse_into-nil, value_of-with_param,
}

realm_IsKey : IsKey (text "realm")
unfolding text skip_separators contains_func to_lower lower_rune trim_space trim_left trim_right
    is_space
realm_IsKey = record {
  starts = λ t. refl;
  ends = contains_func-Lacks (λ r. r == b'=') (text "realm") refl;
  reads = refl;
  named = refl;
}

error_IsKey : IsKey (text "error")
unfolding text skip_separators contains_func to_lower lower_rune trim_space trim_left trim_right
    is_space
error_IsKey = record {
  starts = λ t. refl;
  ends = contains_func-Lacks (λ r. r == b'=') (text "error") refl;
  reads = refl;
  named = refl;
}

error_description_IsKey : IsKey (text "error_description")
unfolding text skip_separators contains_func to_lower lower_rune trim_space trim_left trim_right
    is_space
error_description_IsKey = record {
  starts = λ t. refl;
  ends = contains_func-Lacks (λ r. r == b'=') (text "error_description") refl;
  reads = refl;
  named = refl;
}

scope_IsKey : IsKey (text "scope")
unfolding text skip_separators contains_func to_lower lower_rune trim_space trim_left trim_right
    is_space
scope_IsKey = record {
  starts = λ t. refl;
  ends = contains_func-Lacks (λ r. r == b'=') (text "scope") refl;
  reads = refl;
  named = refl;
}

resource_metadata_IsKey : IsKey (text "resource_metadata")
unfolding text skip_separators contains_func to_lower lower_rune trim_space trim_left trim_right
    is_space
resource_metadata_IsKey = record {
  starts = λ t. refl;
  ends = contains_func-Lacks (λ r. r == b'=') (text "resource_metadata") refl;
  reads = refl;
  named = refl;
}

-- The map that the parameters of c make.
abbrev pub param_map : Challenge → List (Text × Text)
param_map c = with_param (text "resource_metadata") c.resource_metadata (
    with_param (text "scope") c.scope (
      with_param (text "error_description") c.error_description
        (with_param (text "error") c.error (with_param (text "realm") c.realm []))))

pub parse_auth_params-params :
    (c : Challenge) → parse_auth_params (join (text ", ") (params c)) ≡ param_map c
unfolding parse_auth_params params
parse_auth_params-params c =
    parse_into-join (params c) []
    ∙ parse_into-add (text "realm") c.realm _ [] realm_IsKey
    ∙ parse_into-add (text "error") c.error _ _ error_IsKey
    ∙ parse_into-add (text "error_description") c.error_description _ _ error_description_IsKey
    ∙ parse_into-add (text "scope") c.scope _ _ scope_IsKey
    ∙ parse_into-add (text "resource_metadata") c.resource_metadata _ _ resource_metadata_IsKey
    ∙ parse_into-nil (param_map c)

-- A challenge as its header carries it: no control characters, and no status.
abbrev pub carried_challenge : Challenge → Challenge
carried_challenge c = record {
  scheme = rendered_scheme c.scheme;
  error = strip_control c.error;
  error_description = strip_control c.error_description;
  scope = strip_control c.scope;
  resource_metadata = strip_control c.resource_metadata;
  realm = strip_control c.realm;
  status = pos 0;
}

-- A parameter that is left out reads as the empty string.
or_left_out : (s : Text) → (if is_empty s then [] else s) ≡ s
or_left_out [] = refl
or_left_out (r ∷ s) = refl

pub value_of-param_map :
    (c : Challenge)
    → (scheme : Text)
    → challenge_of scheme (param_map c) ≡ record (carried_challenge c) { scheme = scheme }
unfolding challenge_of text text_eq value_of find
value_of-param_map c scheme = simp (value_of-with_param, or_left_out) refl
