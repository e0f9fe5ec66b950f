-- ===== src/Server/Http.antt =====
-- Requests, responses and request ids of server.go. Header values and bodies are byte lists.
pub mod RequestId
use authzen.Base.{
  ℕ, Bool, true, false, not, ◌&&◌, ◌||◌, List, [], ◌∷◌, Option, none, some, Text, text, text_eq,
  is_empty, ltb, leb, ◌==◌, take, length, ℤ, pos, if◌then◌else◌,
}
use authzen.Json.{Any}
use authzen.Core.Errors.{Error}
use authzen.Core.Search.{SearchResponse}
use authzen.Core.Types.{EvaluationResponse, EvaluationsResponse, Subject, Resource, Action}

pub record Request : Type 0 where
  pub method : Text
  pub path : Text
  pub content_type : Text
  pub x_request_id : Text
  pub body : Text

-- Metadata of metadata.go.
pub record Metadata : Type 0 where
  pub policy_decision_point : Text
  pub access_evaluation_endpoint : Text
  pub access_evaluations_endpoint : Text
  pub search_subject_endpoint : Text
  pub search_resource_endpoint : Text
  pub search_action_endpoint : Text
  pub capabilities : List Text
  pub signed_metadata : Text

-- What an error body says, before it is formatted into a line of text.
pub data Message : Type 0 where
  plain : Text → Message
  unknown_endpoint : Text → Message
  not_valid : Error → Message
  batch_too_large : ℕ → ℤ → Message
  body_too_large : ℤ → Message

-- The value that writeJSON encodes. A nil pointer is encoded as null.
pub data Payload : Type 0 where
  error_body : Message → Text → Payload
  evaluation : Option EvaluationResponse → Payload
  evaluations : Option EvaluationsResponse → Payload
  subjects : Option (SearchResponse Subject) → Payload
  resources : Option (SearchResponse Resource) → Payload
  actions : Option (SearchResponse Action) → Payload
  metadata : Metadata → Payload

-- The content type is application/json on every response. An empty `x_request_id` is a header that
-- is not set.
pub record Response : Type 0 where
  pub status : ℤ
  pub x_request_id : Text
  pub payload : Payload

unfoldable pub max_request_id_len : ℕ
max_request_id_len = 128

-- The characters that a request id keeps.
unfoldable pub is_id_char : ℕ → Bool
is_id_char c =
    (leb b'a' c && leb c b'z')
    || (leb b'A' c && leb c b'Z')
    || (leb b'0' c && leb c b'9')
    || c == b'-'
    || c == b'_'
    || c == b'.'

unfoldable pub keep_id_chars : Text → Text
keep_id_chars [] = []
keep_id_chars (c ∷ cs) = if is_id_char c then c ∷ keep_id_chars cs else keep_id_chars cs

-- `if len(id) > maxRequestIDLen { id = id[:maxRequestIDLen] }`
cut_request_id : Text → Text
cut_request_id id = if ltb max_request_id_len (length id) then take max_request_id_len id else id

unfoldable pub sanitize_request_id : Text → Text
unfolding cut_request_id
sanitize_request_id id = if is_empty id then [] else keep_id_chars (cut_request_id id)

-- `fresh` is what newCorrelationID draws.
unfoldable pub correlation_id : Text → Request → Text
correlation_id fresh r =
    let id = sanitize_request_id r.x_request_id in if is_empty id then fresh else id

unfoldable pub write_json : Request → ℤ → Payload → Response
write_json r status v = record {
  status = status;
  x_request_id = sanitize_request_id r.x_request_id;
  payload = v;
}

unfoldable pub write_error : Request → ℤ → Message → Response
write_error r status m = write_json r status (error_body m [])

unfoldable pub write_error_with_id : Request → ℤ → Message → Text → Response
write_error_with_id r status m id = write_json r status (error_body m id)
