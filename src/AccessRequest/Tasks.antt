-- ===== src/AccessRequest/Tasks.antt =====
-- accessrequest/validate.go and task.go: what the Validate methods of a task and its parts demand.
use authzen.Base.{
  List, [], ◌∷◌, Option, none, some, text, text_eq, is_empty, Result, ok, ◌>>◌, if◌then◌else◌,
}
use authzen.Core.Evaluation.{validate_resource, validate_action}
use authzen.AccessRequest.Types.{
  Approval, TaskResult, TaskItem, Task, Response, status_approved, mode_reevaluate,
}
use authzen.AccessRequest.Errors.{
  Fault, missing_id, missing_status, missing_status_endpoint, missing_task, missing_mode,
  missing_approval, missing_approved_until, reject, pass_on,
}
use authzen.AccessRequest.Submit.{optional}

unfoldable pub validate_approval : Option Approval → Result Fault (Unit {0})
validate_approval none = reject (text "result.approval") missing_approval
validate_approval (some a) =
    if is_empty a.id
    then reject (text "result.approval.id") missing_id
    else if is_empty a.approved_until
    then reject (text "result.approval.approved_until") missing_approved_until
    else ok tt

unfoldable pub validate_result : Option TaskResult → Result Fault (Unit {0})
validate_result none = reject (text "result.mode") missing_mode
validate_result (some r) =
    if is_empty r.mode
    then reject (text "result.mode") missing_mode
    else if text_eq r.mode mode_reevaluate
    then validate_approval r.approval
    else ok tt

unfoldable pub validate_enforceable : Option TaskResult → Result Fault (Unit {0})
validate_enforceable none = reject (text "task.items.result") missing_approval
validate_enforceable (some r) = validate_result (some r)

unfoldable pub validate_task_status : TaskItem → Result Fault (Unit {0})
validate_task_status ti =
    if is_empty ti.status
    then reject (text "task.items.status") missing_status
    else if text_eq ti.status status_approved
    then validate_enforceable ti.result
    else ok tt

unfoldable pub validate_task_item : TaskItem → Result Fault (Unit {0})
validate_task_item ti = do
  pass_on (validate_resource ti.resource)
  pass_on (validate_action ti.action)
  validate_task_status ti

unfoldable pub validate_task_items : List TaskItem → Result Fault (Unit {0})
validate_task_items [] = ok tt
validate_task_items (ti ∷ items) = do validate_task_item ti; validate_task_items items

unfoldable pub validate_task : Option Task → Result Fault (Unit {0})
validate_task none = reject (text "task") missing_task
validate_task (some t) =
    if is_empty t.id
    then reject (text "task.id") missing_id
    else if is_empty t.status
    then reject (text "task.status") missing_status
    else if is_empty t.status_endpoint
    then reject (text "task.status_endpoint") missing_status_endpoint
    else validate_task_items t.items

unfoldable pub has_task : Option Task → Result Fault (Unit {0})
has_task none = reject (text "task") missing_task
has_task (some t) = validate_task (some t)

unfoldable pub validate_response : Option Response → Result Fault (Unit {0})
unfolding has_task
validate_response none = reject (text "task") missing_task
validate_response (some r) = do has_task r.task; optional validate_result r.result
