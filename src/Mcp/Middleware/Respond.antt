-- ===== src/Mcp/Middleware/Respond.antt =====
-- mcp/middleware.go: defaultResponder, which writes a denial.
use authzen.Base.{
  Bool, false, Text, text, ℤ, pos, negsuc, is_empty, if◌then◌else◌, ◌==◌, ◌≡◌, refl, arith,
}
use authzen.Mcp.Runes.{Lacks, is_control}
use authzen.Mcp.Challenge.{to_string, error_invalid_token, error_insufficient_scope}
use authzen.Mcp.Challenge.Safety.{to_string-Lacks}
use authzen.Mcp.Middleware.{DenyInfo, clamp_deny_status}
use authzen.Mcp.Middleware.Denial.{IsDenyStatus, clamp_deny_status-IsDenyStatus}

-- What is written: four header fields, the status and the two members of the JSON body.
pub record Denial : Type 0 where
  pub www_authenticate : Text
  pub content_type : Text
  pub cache_control : Text
  pub pragma : Text
  pub status : ℤ
  pub error : Text
  pub error_description : Text

abbrev pub is_unauthorized : ℤ → Bool
is_unauthorized (pos n) = n == 401
is_unauthorized (negsuc n) = false

unfoldable pub body_error : ℤ → Text → Text
body_error status error =
    if is_empty error
    then if is_unauthorized status then error_invalid_token else error_insufficient_scope
    else error

unfoldable pub default_responder : DenyInfo → Denial
default_responder info =
    let status = clamp_deny_status info.challenge.status in
    record {
      www_authenticate = to_string info.challenge;
      content_type = text "application/json";
      cache_control = text "no-store";
      pragma = text "no-cache";
      status = status;
      error = body_error status info.challenge.error;
      error_description = info.challenge.error_description;
    }

body_error_ne : (status : ℤ) (error : Text) → is_empty (body_error status error) ≡ false
unfolding body_error error_invalid_token error_insufficient_scope text
body_error_ne status error = ground arith

-- Whatever a denial holds, the response has a status from 400 to 599, an authentication header
-- without control characters, an error code in its body, and may not be stored.
pub default_responder_safe :
    (info : DenyInfo)
    → IsDenyStatus (default_responder info).status
      × Lacks is_control (default_responder info).www_authenticate
      × (is_empty (default_responder info).error ≡ false)
      × ((default_responder info).cache_control ≡ text "no-store")
unfolding default_responder
default_responder_safe info = (
  clamp_deny_status-IsDenyStatus info.challenge.status,
  to_string-Lacks info.challenge,
  body_error_ne (clamp_deny_status info.challenge.status) info.challenge.error,
  refl,
)
