-- ===== src/AccessRequest/Submit.antt =====
-- accessrequest/validate.go: what the Validate methods of a submission and its parts demand.
use authzen.Base.{
  Bool, true, false, not, ◌&&◌, ◌||◌, List, [], ◌∷◌, ◌++◌, Option, none, some, is_some, Text, text,
  is_empty, Result, ok, err, ◌>>◌, if◌then◌else◌,
}
use authzen.Core.Errors.{missing_subject, new_validation_error}
use authzen.Core.Evaluation.{validate_subject, validate_resource, validate_action}
use authzen.AccessRequest.Types.{DenialBinding, Item, Callback, Client, Actor, Submission}
use authzen.AccessRequest.Errors.{
  Fault, missing_denial, conflicting_targets, missing_target, missing_endpoint, missing_id, reject,
  pass_on,
}
use authzen.AccessRequest.Denial.{validate_denial}

-- A check of a part that may be left out.
abbrev pub optional :
    {A : Type 0} → (Option A → Result Fault (Unit {0})) → Option A → Result Fault (Unit {0})
optional check none = ok tt
optional check (some a) = check (some a)

unfoldable pub validate_callback : Option Callback → Result Fault (Unit {0})
validate_callback none = reject (text "callback.endpoint") missing_endpoint
validate_callback (some c) =
    if is_empty c.endpoint then reject (text "callback.endpoint") missing_endpoint else ok tt

unfoldable pub validate_actor : Option Actor → Result Fault (Unit {0})
validate_actor none = reject (text "client.actor.id") missing_id
validate_actor (some a) =
    if is_empty a.id then reject (text "client.actor.id") missing_id else ok tt

unfoldable pub validate_item : Text → Item → Result Fault (Unit {0})
validate_item field it = do
  pass_on (validate_resource it.resource)
  pass_on (validate_action it.action)
  optional (validate_denial (field ++ text ".denial")) it.denial

unfoldable pub is_ok : Result Fault (Unit {0}) → Bool
is_ok (ok _) = true
is_ok (err _) = false

-- The loop's test of the binding of an item without one of its own.
unfoldable pub cover_item :
    Option DenialBinding → Bool → Option DenialBinding → Result Fault (Unit {0})
cover_item top top_valid denial =
    if not (is_some denial) && not top_valid
    then (do optional (validate_denial (text "denial")) top; reject (text "denial") missing_denial)
    else ok tt

unfoldable pub validate_each : Option DenialBinding → Bool → List Item → Result Fault (Unit {0})
validate_each top top_valid [] = ok tt
validate_each top top_valid (it ∷ items) = do
  validate_item (text "items") it
  cover_item top top_valid it.denial
  validate_each top top_valid items

unfoldable pub validate_items : Submission → Result Fault (Unit {0})
unfolding is_ok
validate_items s =
    validate_each s.denial (is_some s.denial && is_ok (validate_denial (text "denial") s.denial))
      s.items

unfoldable pub has_single : Submission → Bool
has_single s = is_some s.resource || is_some s.action

abbrev pub is_cons : {A : Type 0} → List A → Bool
is_cons [] = false
is_cons (x ∷ xs) = true

unfoldable pub validate_single : Submission → Result Fault (Unit {0})
validate_single s = do
  pass_on (validate_resource s.resource)
  pass_on (validate_action s.action)
  validate_denial (text "denial") s.denial

unfoldable pub validate_target : Submission → Result Fault (Unit {0})
validate_target s =
    if has_single s && is_cons s.items
    then reject (text "items") conflicting_targets
    else if not (has_single s) && not (is_cons s.items)
    then reject (text "items") missing_target
    else if has_single s
    then validate_single s
    else validate_items s

unfoldable pub validate_client : Option Client → Result Fault (Unit {0})
validate_client none = ok tt
validate_client (some c) = optional validate_actor c.actor

unfoldable pub validate_submission : Option Submission → Result Fault (Unit {0})
validate_submission none = pass_on (new_validation_error (text "subject") missing_subject)
validate_submission (some s) = do
  pass_on (validate_subject s.subject)
  validate_target s
  optional validate_callback s.callback
  validate_client s.client
