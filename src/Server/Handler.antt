-- ===== src/Server/Handler.antt =====
-- Handler of server.go: its options, the seven endpoints, the routing and the recovery from
-- panics. Log lines are left out.
pub mod Limits
use authzen.Base.{
  ℕ, Bool, true, false, not, List, [], ◌∷◌, Option, none, some, Text, text, text_eq, is_empty,
  length, ltb_ℤ, is_pos, ℤ, pos, Result, ok, err, ◌>>=◌, if◌then◌else◌,
}
use authzen.Json.{Any}
use authzen.Core.Batch.{validate_batch}
use authzen.Core.Codec.Requests.{
  unmarshal_request, unmarshal_batch, unmarshal_subject_search, unmarshal_resource_search,
  unmarshal_action_search,
}
use authzen.Core.Codec.{DecodeError}
use authzen.Core.Errors.{Error}
use authzen.Core.Evaluation.{validate_request}
use authzen.Core.Search.{
  SubjectSearchRequest, ResourceSearchRequest, ActionSearchRequest, SearchResponse,
  validate_subject_search, validate_resource_search, validate_action_search,
}
use authzen.Core.Types.{
  EvaluationRequest, EvaluationResponse, EvaluationsRequest, EvaluationsResponse, Subject, Resource,
  Action,
}
use authzen.Server.Batch.{
  BatchConfig, Outcome, value, aborted, panics, evaluate_batch, status_internal_server_error,
}
use authzen.Server.Http.{
  Request, Response, Metadata, Message, plain, unknown_endpoint, not_valid, batch_too_large,
  body_too_large, Payload, evaluation, evaluations, subjects, resources, actions, metadata,
  correlation_id, write_json, write_error, write_error_with_id,
}
use authzen.Server.Pdp.{Panic, abort_handler, message, Reply, answered, failed, panicked, Pdp}

-- What json.Decoder reads from a body that is cut off after the given number of bytes.
pub data Body : Type 0 where
  document : Any → Body
  malformed : Body
  too_large : Body

-- What a request meets outside this file: mime.ParseMediaType (`none` is an error), the reading of
-- a body by encoding/json, and the random correlation ids.
pub record Env : Type 0 where
  pub parse_media_type : Text → Option Text
  pub read_body : ℤ → Text → Body
  pub new_correlation_id : Text
  pub member_correlation_id : ℕ → Text

pub record Handler : Type 0 where
  pub metadata_document : Option Metadata
  pub evaluation_path : Text
  pub evaluations_path : Text
  pub search_subject_path : Text
  pub search_resource_path : Text
  pub search_action_path : Text
  pub max_body_bytes : ℤ
  pub max_batch_size : ℤ
  pub verbose_errors : Bool

unfoldable pub default_max_body_bytes : ℤ
default_max_body_bytes = pos 1048576

unfoldable pub default_max_batch_size : ℤ
default_max_batch_size = pos 1000

unfoldable pub well_known_configuration_path : Text
well_known_configuration_path = text "/.well-known/authzen-configuration"

pub default_handler : Handler
unfolding default_max_body_bytes default_max_batch_size
default_handler = record {
  metadata_document = none;
  evaluation_path = text "/access/v1/evaluation";
  evaluations_path = text "/access/v1/evaluations";
  search_subject_path = text "/access/v1/search/subject";
  search_resource_path = text "/access/v1/search/resource";
  search_action_path = text "/access/v1/search/action";
  max_body_bytes = default_max_body_bytes;
  max_batch_size = default_max_batch_size;
  verbose_errors = false;
}

-- The With… functions.
pub data HandlerOption : Type 0 where
  with_metadata : Option Metadata → HandlerOption
  with_evaluation_path with_evaluations_path : Text → HandlerOption
  with_search_subject_path with_search_resource_path with_search_action_path : Text → HandlerOption
  with_max_body_bytes with_max_batch_size : ℤ → HandlerOption
  with_verbose_errors : Bool → HandlerOption

apply_option : Handler → HandlerOption → Handler
apply_option h (with_metadata md) = record h { metadata_document = md }
apply_option h (with_evaluation_path p) = record h { evaluation_path = p }
apply_option h (with_evaluations_path p) = record h { evaluations_path = p }
apply_option h (with_search_subject_path p) = record h { search_subject_path = p }
apply_option h (with_search_resource_path p) = record h { search_resource_path = p }
apply_option h (with_search_action_path p) = record h { search_action_path = p }
apply_option h (with_max_body_bytes n) = record h { max_body_bytes = n }
apply_option h (with_max_batch_size n) = record h { max_batch_size = n }
apply_option h (with_verbose_errors b) = record h { verbose_errors = b }

apply_options : Handler → List HandlerOption → Handler
unfolding apply_option
apply_options h [] = h
apply_options h (o ∷ os) = apply_options (apply_option h o) os

-- A limit that is not positive falls back to its default.
unfoldable pub normalize : Handler → Handler
normalize h = record h {
  max_body_bytes = if is_pos h.max_body_bytes then h.max_body_bytes else default_max_body_bytes;
  max_batch_size = if is_pos h.max_batch_size then h.max_batch_size else default_max_batch_size;
}

unfoldable pub new_handler : List HandlerOption → Handler
unfolding apply_options default_handler normalize
new_handler os = normalize (apply_options default_handler os)
