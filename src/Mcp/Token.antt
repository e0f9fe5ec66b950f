-- ===== src/Mcp/Token.antt =====
-- mcp/mcp.go: what the claims of a token say of the subject, and what the context carries of them.
use authzen.Base.{List, [], ◌∷◌, Option, none, some, Text, text, is_empty, if◌then◌else◌, ◌==◌}
use authzen.Json.{Items, Fields, str, arr, nil, cons, end, set, len}
use authzen.Core.Types.{Subject}
use authzen.Mcp.DenyContext.{set_text}

pub record TokenClaims : Type 0 where
  pub subject : Text
  pub client_id : Text
  pub scopes : List Text
  pub audience : Text
  pub actor : Text

-- A []string as a value.
unfoldable pub strings : List Text → Items
strings [] = nil
strings (s ∷ more) = cons (str s) (strings more)

unfoldable pub set_scopes : List Text → Fields → Fields
set_scopes ss m = if is_empty ss then m else set (text "scopes") (arr (strings ss)) m

-- `if len(props) == 0 { props = nil }`
abbrev pub unless_empty : Fields → Option Fields
unless_empty m = if len m == 0 then none else some m

unfoldable pub token_properties : TokenClaims → Option Fields
token_properties c = unless_empty (
    set_text (text "token_audience") c.audience (
      set_text (text "act") c.actor
        (set_scopes c.scopes (set_text (text "client_id") c.client_id end))))

-- The type and the id of the subject, by the claims that are there.
unfoldable pub token_identity : TokenClaims → Text × Text
token_identity c =
    if is_empty c.actor
    then if is_empty c.subject
      then if is_empty c.client_id then (text "user", c.subject) else (text "client", c.client_id)
      else (text "user", c.subject)
    else (text "agent", c.subject)

unfoldable pub subject_from_token : TokenClaims → Subject
subject_from_token c =
    let (type, id) = token_identity c in
    record { type = type; id = id; properties = token_properties c }

unfoldable pub token_context : TokenClaims → Fields
token_context c = set_text (text "audience") c.audience (
    set_text (text "act") c.actor (
      set_scopes c.scopes
        (set_text (text "client_id") c.client_id (set_text (text "sub") c.subject end))))
