-- ===== src/Mcp/Challenge.antt =====
-- mcp/challenge.go: a challenge, rendered with String and read with ParseChallenge.
pub mod Render
pub mod Keys
pub mod RoundTrip
pub mod Safety
use authzen.Base.{
  ℕ, List, [], ◌∷◌, ◌++◌, Option, none, some, Text, text, ℤ, pos, is_empty, if◌then◌else◌, find,
  Result, ok, err,
}
use authzen.Mcp.Runes.{strip_control, sanitize_scheme, trim_space}
use authzen.Mcp.Quote.{quote_string}
use authzen.Mcp.Params.{span_until, parse_auth_params}

unfoldable pub default_scheme : Text
default_scheme = text "Bearer"

unfoldable pub error_insufficient_scope : Text
error_insufficient_scope = text "insufficient_scope"

unfoldable pub error_invalid_token : Text
error_invalid_token = text "invalid_token"

pub record Challenge : Type 0 where
  pub scheme : Text
  pub error : Text
  pub error_description : Text
  pub scope : Text
  pub resource_metadata : Text
  pub realm : Text
  pub status : ℤ

-- `add(key, val)` before the parameters that are added later.
unfoldable pub add : Text → Text → List Text → List Text
add key val later =
    if is_empty (strip_control val) then later else (key ++ b'=' ∷ quote_string val) ∷ later

unfoldable pub params : Challenge → List Text
params c = add (text "realm") c.realm (
    add (text "error") c.error (
      add (text "error_description") c.error_description
        (add (text "scope") c.scope (add (text "resource_metadata") c.resource_metadata []))))

-- strings.Join
unfoldable pub join : Text → List Text → Text
join separator [] = []
join separator (s ∷ []) = s
join separator (s ∷ t ∷ more) = s ++ separator ++ join separator (t ∷ more)

unfoldable pub rendered_scheme : Text → Text
rendered_scheme s =
    let scheme = sanitize_scheme s in if is_empty scheme then default_scheme else scheme

unfoldable pub to_string : Challenge → Text
to_string c =
    let scheme = rendered_scheme c.scheme in
    let ps = params c in if is_empty ps then scheme else scheme ++ 0x20 ∷ join (text ", ") ps

-- `m[k]`, the empty string where k is missing.
unfoldable pub value_of : Text → List (Text × Text) → Text
value_of k m = elim (find k m) [ none ↦ [] | some v ↦ v ]

-- `s[i+1:]`, after the space at i.
abbrev pub after_first : Text → Text
after_first [] = []
after_first (c ∷ s) = s

unfoldable pub challenge_of : Text → List (Text × Text) → Challenge
challenge_of scheme m = record {
  scheme = scheme;
  error = value_of (text "error") m;
  error_description = value_of (text "error_description") m;
  scope = value_of (text "scope") m;
  resource_metadata = value_of (text "resource_metadata") m;
  realm = value_of (text "realm") m;
  status = pos 0;
}

unfoldable pub parse_challenge : Text → Result Text Challenge
parse_challenge header =
    let s = trim_space header in
    let (scheme, from) = span_until 0x20 s in
    if is_empty s
    then err (text "mcp: empty WWW-Authenticate header")
    else ok (challenge_of scheme (parse_auth_params (after_first from)))
