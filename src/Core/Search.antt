-- ===== src/Core/Search.antt =====
-- search.go: the three search requests, what their Validate methods demand, and the responses.
pub mod Complete
use authzen.Base.{
  List, [], Option, none, some, Text, text, is_empty, ℤ, Result, ok, ◌>>=◌, ◌>>◌, if◌then◌else◌,
}
use authzen.Json.{Fields}
use authzen.Core.Errors.{
  Error, missing_type, missing_subject, missing_resource, new_validation_error,
}
use authzen.Core.Evaluation.{validate_subject, validate_resource, validate_action}
use authzen.Core.Types.{Subject, Resource, Action}

pub record Page : Type 0 where
  pub token : Text
  pub limit : ℤ
  pub properties : Option Fields

pub record PageResponse : Type 0 where
  pub next_token : Text
  pub count : ℤ
  pub total : ℤ
  pub properties : Option Fields

pub record SubjectSearchRequest : Type 0 where
  pub subject : Option Subject
  pub action : Option Action
  pub resource : Option Resource
  pub context : Option Fields
  pub page : Option Page

pub record ResourceSearchRequest : Type 0 where
  pub subject : Option Subject
  pub action : Option Action
  pub resource : Option Resource
  pub context : Option Fields
  pub page : Option Page

pub record ActionSearchRequest : Type 0 where
  pub subject : Option Subject
  pub resource : Option Resource
  pub context : Option Fields
  pub page : Option Page

-- The subject of a subject search: its id is not asked for.
unfoldable pub subject_type_only : Option Subject → Result Error (Unit {0})
unfolding new_validation_error
subject_type_only none = new_validation_error (text "subject") missing_subject
subject_type_only (some s) =
    if is_empty s.type then new_validation_error (text "subject.type") missing_type else ok tt

unfoldable pub resource_type_only : Option Resource → Result Error (Unit {0})
unfolding new_validation_error
resource_type_only none = new_validation_error (text "resource") missing_resource
resource_type_only (some r) =
    if is_empty r.type then new_validation_error (text "resource.type") missing_type else ok tt

unfoldable pub validate_subject_search : SubjectSearchRequest → Result Error (Unit {0})
unfolding subject_type_only
validate_subject_search r = do
  subject_type_only r.subject
  validate_action r.action
  validate_resource r.resource

unfoldable pub validate_resource_search : ResourceSearchRequest → Result Error (Unit {0})
unfolding resource_type_only
validate_resource_search r = do
  validate_subject r.subject
  validate_action r.action
  resource_type_only r.resource

unfoldable pub validate_action_search : ActionSearchRequest → Result Error (Unit {0})
validate_action_search r = do validate_subject r.subject; validate_resource r.resource

-- The three responses differ in the type of a result. `results` is `none` for a nil slice.
pub record SearchResponse (A : Type 0) : Type 0 where
  pub page : Option PageResponse
  pub results : Option (List A)
  pub context : Option Fields
