-- ===== src/Core/Evaluation.antt =====
-- evaluation.go: the Validate methods. A nil pointer is a valid receiver.
pub mod Complete
use authzen.Base.{
  Bool, [], Option, none, some, text, is_empty, Result, ok, err, ◌>>=◌, ◌>>◌, if◌then◌else◌,
}
use authzen.Core.Errors.{
  Error, missing_type, missing_id, missing_name, missing_subject, missing_action, missing_resource,
  new_validation_error,
}
use authzen.Core.Types.{Subject, Resource, Action, EvaluationRequest}

unfoldable pub validate_subject : Option Subject → Result Error (Unit {0})
unfolding new_validation_error
validate_subject none = new_validation_error (text "subject") missing_subject
validate_subject (some s) =
    if is_empty s.type
    then new_validation_error (text "subject.type") missing_type
    else if is_empty s.id
    then new_validation_error (text "subject.id") missing_id
    else ok tt

unfoldable pub validate_resource : Option Resource → Result Error (Unit {0})
unfolding new_validation_error
validate_resource none = new_validation_error (text "resource") missing_resource
validate_resource (some r) =
    if is_empty r.type
    then new_validation_error (text "resource.type") missing_type
    else if is_empty r.id
    then new_validation_error (text "resource.id") missing_id
    else ok tt

unfoldable pub validate_action : Option Action → Result Error (Unit {0})
unfolding new_validation_error
validate_action none = new_validation_error (text "action") missing_action
validate_action (some a) =
    if is_empty a.name then new_validation_error (text "action.name") missing_name else ok tt

unfoldable pub validate_request : EvaluationRequest → Result Error (Unit {0})
validate_request r = do
  validate_subject r.subject
  validate_action r.action
  validate_resource r.resource
