-- ===== src/Server/Routes.antt =====
-- The metadata endpoint, the routing and the recovery from panics, in server.go. The paths of a
-- handler are plain and distinct, as NewHandler needs them: http.ServeMux matches them exactly, and
-- everything else falls to "/". Its redirects to a cleaned path are not modelled.
pub mod Safety
use authzen.Base.{not, Option, none, some, text, text_eq, pos, Result, ok, err, if◌then◌else◌}
use authzen.Server.Batch.{status_internal_server_error}
use authzen.Server.Endpoints.{
  handle_evaluation, handle_evaluations, handle_search_subject, handle_search_resource,
  handle_search_action,
}
use authzen.Server.Handler.{Env, Handler, well_known_configuration_path}
use authzen.Server.Http.{
  Request, Response, Metadata, plain, unknown_endpoint, metadata, correlation_id, write_json,
  write_error, write_error_with_id,
}
use authzen.Server.Pdp.{Panic, abort_handler, message, Pdp}

serve_metadata : Request → Option Metadata → Response
serve_metadata r none = write_error r (pos 404) (plain (text "metadata not configured"))
serve_metadata r (some md) = write_json r (pos 200) (metadata md)

unfoldable pub handle_metadata : Handler → Request → Response
unfolding serve_metadata
handle_metadata h r =
    if not (text_eq r.method (text "GET"))
    then write_error r (pos 405) (plain (text "method not allowed: metadata requires GET"))
    else serve_metadata r h.metadata_document

unfoldable pub handle_not_found : Request → Response
handle_not_found r = write_error r (pos 404) (unknown_endpoint r.path)

module _ {S : Type 0} (h : Handler) (env : Env) (pdp : Pdp S) (s : S) (r : Request) where
  unfoldable pub serve_mux : S × Result Panic Response
  serve_mux =
      if text_eq r.path h.evaluation_path
      then handle_evaluation h env pdp s r
      else if text_eq r.path h.evaluations_path
      then handle_evaluations h env pdp s r
      else if text_eq r.path h.search_subject_path
      then handle_search_subject h env pdp s r
      else if text_eq r.path h.search_resource_path
      then handle_search_resource h env pdp s r
      else if text_eq r.path h.search_action_path
      then handle_search_action h env pdp s r
      else if text_eq r.path well_known_configuration_path
      then (s, ok (handle_metadata h r))
      else (s, ok (handle_not_found r))

  -- No endpoint has written when it panics, so the recovery writes.
  recover : Result Panic Response → Result Panic Response
  recover (ok resp) = ok resp
  recover (err abort_handler) = err abort_handler
  recover (err (message m)) = ok (
      write_error_with_id r status_internal_server_error (plain (text "internal server error"))
        (correlation_id env.new_correlation_id r))

  unfoldable pub serve_http : S × Result Panic Response
  unfolding recover
  serve_http = (serve_mux.0, recover serve_mux.1)
