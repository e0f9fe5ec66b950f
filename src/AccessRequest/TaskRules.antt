-- ===== src/AccessRequest/TaskRules.antt =====
-- The rules of Sections 10.2, 11.3 and 12 of the profile for a response, and that Validate decides
-- them.
use authzen.Base.{
  some_injective, List, [], ◌∷◌, Option, none, some, Text, text_eq, text_eq_iff, is_empty, Result,
  ok, >>-eq-ok, if◌then◌else◌, ◌≡◌, refl, ◌≢◌, ◌↔◌, inl, inr, arith, All, Bool-cases, subst, sym,
}
use authzen.Core.Evaluation.Complete.{IsResource, IsAction}
use authzen.AccessRequest.Types.{
  Approval, TaskResult, TaskItem, Task, Response, status_approved, mode_reevaluate,
}
use authzen.AccessRequest.Errors.{Fault, Reason, reject}
use authzen.AccessRequest.ItemRules.{resource_iff, action_iff}
use authzen.AccessRequest.Rules.{Present}
use authzen.AccessRequest.Submit.{optional}
use authzen.AccessRequest.Tasks.{
  validate_approval, validate_result, validate_enforceable, validate_task_status,
  validate_task_item, validate_task_items, validate_task, has_task, validate_response,
}

abbrev pub IsApproval : Option Approval → Type 0
IsApproval o = (a : Approval) × (o ≡ some a) × (a.id ≢ []) × (a.approved_until ≢ [])

-- A result has a mode, and the mode reevaluate comes with an approval.
pub record IsResult (r : TaskResult) : Type 0 where
  pub mode_ok : r.mode ≢ []
  pub approval_ok : r.mode ≡ mode_reevaluate → IsApproval r.approval

-- An item has a resource, an action and a status, and an approved one a result.
pub record IsTaskItem (ti : TaskItem) : Type 0 where
  pub resource_ok : IsResource ti.resource
  pub action_ok : IsAction ti.action
  pub status_ok : ti.status ≢ []
  pub result_ok : ti.status ≡ status_approved → (r : TaskResult) × (ti.result ≡ some r) × IsResult r

pub record IsTask (t : Task) : Type 0 where
  pub id_ok : t.id ≢ []
  pub status_ok : t.status ≢ []
  pub endpoint_ok : t.status_endpoint ≢ []
  pub items_ok : All IsTaskItem t.items

pub record IsResponse (r : Response) : Type 0 where
  pub task_ok : (t : Task) × (r.task ≡ some t) × IsTask t
  pub result_ok : Present IsResult r.result

approval_iff : (o : Option Approval) → (validate_approval o ≡ ok tt) ↔ IsApproval o
unfolding validate_approval reject
approval_iff none = (λ h. cc, λ h. cc (h.1))
approval_iff (some a) = (λ h. (a, refl, ground arith, ground arith), λ h. ground arith)

-- A check that a string is not empty, and one that depends on which string it is.
past_iff :
    (s field : Text) (why : Reason) (m : Result Fault (Unit {0}))
    → ((if is_empty s then reject field why else m) ≡ ok tt) ↔ ((s ≢ []) × (m ≡ ok tt))
unfolding reject
past_iff [] field why m = (λ h. cc, λ (x, y). absurd (x refl))
past_iff (c ∷ s) field why m = (λ h. (λ k. cc, h), λ (x, y). y)

when_key_iff :
    (s key : Text) (m : Result Fault (Unit {0}))
    → ((if text_eq s key then m else ok tt) ≡ ok tt) ↔ (s ≡ key → m ≡ ok tt)
when_key_iff s key m = elim (Bool-cases (text_eq s key)) [
  | inl e ↦ rw (e) (λ h. λ k. h, λ y. y ((text_eq_iff s key).0 e))
  | inr e ↦ rw (e) (λ h. λ k. absurd (cc ((text_eq_iff s key).1 k)), λ y. refl)
]

validate_result_iff : (r : TaskResult) → (validate_result (some r) ≡ ok tt) ↔ IsResult r
unfolding validate_result
validate_result_iff r = (
  λ u.
      let (a, b) = (past_iff r.mode _ _ _).0 u in
      record {
        mode_ok = a;
        approval_ok =
            λ k. (approval_iff r.approval).0 ((when_key_iff r.mode mode_reevaluate _).0 b k);
      },
  λ g. (past_iff r.mode _ _ _).1 (
    g.mode_ok,
    (when_key_iff r.mode mode_reevaluate _).1 (λ k. (approval_iff r.approval).1 (g.approval_ok k)),
  ),
)

enforceable_iff :
    (o : Option TaskResult)
    → (validate_enforceable o ≡ ok tt) ↔ ((r : TaskResult) × (o ≡ some r) × IsResult r)
unfolding validate_enforceable reject
enforceable_iff none = (λ h. cc, λ h. cc (h.1))
enforceable_iff (some r) = (
  λ h. (r, refl, (validate_result_iff r).0 h),
  λ (q, e, g). (validate_result_iff r).1 (subst (λ v. IsResult v) (some_injective (sym e)) g),
)

task_item_iff : (ti : TaskItem) → (validate_task_item ti ≡ ok tt) ↔ IsTaskItem ti
unfolding validate_task_item validate_task_status
task_item_iff ti = (
  λ u.
      let (r, more) = (>>-eq-ok _ _).0 u in
      let (a, s) = (>>-eq-ok _ _).0 more in
      let (x, y) = (past_iff ti.status _ _ _).0 s in
      record {
        resource_ok = (resource_iff ti.resource).0 r;
        action_ok = (action_iff ti.action).0 a;
        status_ok = x;
        result_ok =
            λ k. (enforceable_iff ti.result).0 ((when_key_iff ti.status status_approved _).0 y k);
      },
  λ g.
      let y =
        (when_key_iff ti.status status_approved _).1
          (λ k. (enforceable_iff ti.result).1 (g.result_ok k)) in
      let s = (past_iff ti.status _ _ _).1 (g.status_ok, y) in
      (>>-eq-ok _ _).1 (
        (resource_iff ti.resource).1 g.resource_ok,
        (>>-eq-ok _ _).1 ((action_iff ti.action).1 g.action_ok, s),
      ),
)

task_items_iff : (l : List TaskItem) → (validate_task_items l ≡ ok tt) ↔ All IsTaskItem l
unfolding validate_task_items
task_items_iff [] = (λ u. tt, λ u. refl)
task_items_iff (ti ∷ l) = (
  λ u. let (a, b) = (>>-eq-ok _ _).0 u in ((task_item_iff ti).0 a, (task_items_iff l).0 b),
  λ (a, b). (>>-eq-ok _ _).1 ((task_item_iff ti).1 a, (task_items_iff l).1 b),
)

task_iff : (t : Task) → (validate_task (some t) ≡ ok tt) ↔ IsTask t
unfolding validate_task
task_iff t = (
  λ u.
      let (a, u1) = (past_iff t.id _ _ _).0 u in
      let (b, u2) = (past_iff t.status _ _ _).0 u1 in
      let (c, d) = (past_iff t.status_endpoint _ _ _).0 u2 in
      record { id_ok = a; status_ok = b; endpoint_ok = c; items_ok = (task_items_iff t.items).0 d },
  λ g.
      let d =
        (past_iff t.status_endpoint _ _ _).1
          (g.endpoint_ok, (task_items_iff t.items).1 g.items_ok) in
      (past_iff t.id _ _ _).1 (g.id_ok, (past_iff t.status _ _ _).1 (g.status_ok, d)),
)

has_task_iff : (o : Option Task) → (has_task o ≡ ok tt) ↔ ((t : Task) × (o ≡ some t) × IsTask t)
unfolding has_task reject
has_task_iff none = (λ h. cc, λ h. cc (h.1))
has_task_iff (some t) = (
  λ h. (t, refl, (task_iff t).0 h),
  λ (q, e, g). (task_iff t).1 (subst (λ v. IsTask v) (some_injective (sym e)) g),
)

given_iff : (o : Option TaskResult) → (optional validate_result o ≡ ok tt) ↔ Present IsResult o
given_iff none = (λ u. tt, λ u. refl)
given_iff (some r) = validate_result_iff r

-- A response is accepted exactly when it has a task with an id, a status and a status endpoint
-- whose items each have a resource, an action, a status and, where approved, a result; and the
-- result of each approved item, and the one of the response where it is there, has a mode and, to
-- reevaluate, an approval with an id and an end.
pub validate_response_iff : (r : Response) → (validate_response (some r) ≡ ok tt) ↔ IsResponse r
unfolding validate_response
validate_response_iff r = (
  λ u.
      let (a, b) = (>>-eq-ok _ _).0 u in
      record { task_ok = (has_task_iff r.task).0 a; result_ok = (given_iff r.result).0 b },
  λ g. (>>-eq-ok _ _).1 ((has_task_iff r.task).1 g.task_ok, (given_iff r.result).1 g.result_ok),
)
