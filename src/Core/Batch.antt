-- ===== src/Core/Batch.antt =====
-- evaluations.go: defaulting, validation of a batch, and the three semantics. The clone functions
-- copy pointers and maps; as values they give back what they are given.
pub mod Valid
pub mod Defaults
use authzen.Base.{
  ℕ, ◌+◌, Bool, true, false, ◌||◌, List, [], ◌∷◌, map, Option, none, some, Text, text, text_eq,
  is_empty, or_default, Result, ok, err, ◌>>=◌, ◌>>◌, if◌then◌else◌,
}
use authzen.Json.{Fields, end, field}
use authzen.Core.Errors.{Error, in_member, invalid_semantic, new_validation_error}
use authzen.Core.Evaluation.{validate_request}
use authzen.Core.Types.{
  Subject, Resource, Action, EvaluationRequest, Options, EvaluationsRequest, EvaluationsResponse,
}

unfoldable pub semantic_execute_all : Text
semantic_execute_all = text "execute_all"

unfoldable pub semantic_deny_on_first_deny : Text
semantic_deny_on_first_deny = text "deny_on_first_deny"

unfoldable pub semantic_permit_on_first_permit : Text
semantic_permit_on_first_permit = text "permit_on_first_permit"

-- `for k, v := range m { out[k] = v }` into a new map, which holds the entries of m.
clone_any_map : Option Fields → Option Fields
clone_any_map none = none
clone_any_map (some m) = some m

clone_context : Option Fields → Option Fields
clone_context none = none
clone_context (some m) = some m

clone_subject : Option Subject → Option Subject
clone_subject none = none
clone_subject (some s) = some (record s { properties = clone_any_map s.properties })

clone_action : Option Action → Option Action
clone_action none = none
clone_action (some a) = some (record a { properties = clone_any_map a.properties })

clone_resource : Option Resource → Option Resource
clone_resource none = none
clone_resource (some r) = some (record r { properties = clone_any_map r.properties })

-- One pass of the loop in Resolved: the member's own value, or else the top-level default.
unfoldable pub resolve : EvaluationsRequest → EvaluationRequest → EvaluationRequest
unfolding clone_subject clone_action clone_resource clone_context clone_any_map
resolve r e = record {
  subject = clone_subject (or_default e.subject r.subject);
  action = clone_action (or_default e.action r.action);
  resource = clone_resource (or_default e.resource r.resource);
  context = clone_context (or_default e.context r.context);
}

-- The request that the top-level fields make by themselves.
unfoldable pub top_level : EvaluationsRequest → EvaluationRequest
unfolding clone_subject clone_action clone_resource clone_context clone_any_map
top_level r = record {
  subject = clone_subject r.subject;
  action = clone_action r.action;
  resource = clone_resource r.resource;
  context = clone_context r.context;
}

unfoldable pub resolved : EvaluationsRequest → List EvaluationRequest
unfolding resolve top_level
resolved r = if is_empty r.evaluations then top_level r ∷ [] else map (resolve r) r.evaluations

-- `switch r.Options.EvaluationsSemantic`
is_known_semantic : Text → Bool
is_known_semantic s =
    is_empty s
    || text_eq s semantic_execute_all
    || text_eq s semantic_deny_on_first_deny
    || text_eq s semantic_permit_on_first_permit

unfoldable pub validate_options : Option Options → Result Error (Unit {0})
unfolding is_known_semantic new_validation_error
validate_options none = ok tt
validate_options (some o) =
    if is_known_semantic o.evaluations_semantic
    then ok tt
    else new_validation_error (text "options.evaluations_semantic") invalid_semantic

-- The error of member i; a single evaluation's error is not wrapped.
wrap_member : Bool → ℕ → Result Error (Unit {0}) → Result Error (Unit {0})
wrap_member single i (ok u) = ok u
wrap_member true i (err e) = err e
wrap_member false i (err e) = err (in_member i e)

-- The loop over the resolved members, from index i.
unfoldable pub validate_members : Bool → ℕ → List EvaluationRequest → Result Error (Unit {0})
unfolding wrap_member
validate_members single i [] = ok tt
validate_members single i (e ∷ es) = do
  wrap_member single i (validate_request e)
  validate_members single (i + 1) es

unfoldable pub validate_batch : EvaluationsRequest → Result Error (Unit {0})
validate_batch r = do
  validate_options r.options
  validate_members (is_empty r.evaluations) 0 (resolved r)
