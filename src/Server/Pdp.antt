-- ===== src/Server/Pdp.antt =====
-- The PDP and BatchEvaluator interfaces of server.go. The decision point belongs to the caller: it
-- is a parameter, and carries a state S of its own from call to call.
use authzen.Base.{Option, Text}
use authzen.Core.Types.{
  EvaluationRequest, EvaluationResponse, EvaluationsRequest, EvaluationsResponse, Subject, Resource,
  Action,
}
use authzen.Core.Search.{
  SubjectSearchRequest, ResourceSearchRequest, ActionSearchRequest, SearchResponse,
}

-- The value that a goroutine panics with: http.ErrAbortHandler, or any other.
pub data Panic : Type 0 where
  abort_handler : Panic
  message : Text → Panic

-- What a call returns: a response pointer (which may be nil) with a nil error, or an error. It may
-- also panic.
pub data Reply (A : Type 0) : Type 0 where
  answered : Option A → Reply A
  failed : Text → Reply A
  panicked : Panic → Reply A

pub record Pdp (S : Type 0) : Type 0 where
  pub evaluate : S → EvaluationRequest → S × Reply EvaluationResponse
  pub search_subjects : S → SubjectSearchRequest → S × Reply (SearchResponse Subject)
  pub search_resources : S → ResourceSearchRequest → S × Reply (SearchResponse Resource)
  pub search_actions : S → ActionSearchRequest → S × Reply (SearchResponse Action)
  -- The BatchEvaluator interface, where the decision point implements it.
  pub evaluate_batch : Option (S → EvaluationsRequest → S × Reply EvaluationsResponse)
  -- ctx.Err() of the request's context, read in the state S.
  pub ctx_err : S → Option Text
