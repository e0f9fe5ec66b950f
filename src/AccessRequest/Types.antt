-- ===== src/AccessRequest/Types.antt =====
-- accessrequest/denial.go, request.go and task.go: the documents of the profile. A pointer that may
-- be nil is an Option, and so is a map that may be nil.
use authzen.Base.{Bool, List, Option, Text, text, ℤ}
use authzen.Json.{Any, Fields}
use authzen.Core.Types.{Subject, Resource, Action}

pub record Hint : Type 0 where
  pub endpoint : Text
  pub template : Text
  pub expires_at : Text
  pub binding_token : Text
  pub display : Option Fields
  pub form_url : Text
  pub request_schema_url : Text
  pub request_catalogs_url : Text

pub record DenialBinding : Type 0 where
  pub evaluation_id : Text
  pub evaluated_at : Text
  pub expires_at : Text
  pub reason : Text
  pub binding_token : Text
  pub template : Text

pub record RequestedAccess : Type 0 where
  pub requested_until : Text
  pub emergency : Bool

pub record Item : Type 0 where
  pub resource : Option Resource
  pub action : Option Action
  pub requested_access : Option RequestedAccess
  pub denial : Option DenialBinding

pub record Callback : Type 0 where
  pub endpoint : Text
  pub state : Text
  pub events : List Text

pub record Actor : Type 0 where
  pub id : Text
  pub issuer : Text
  pub type : Text
  pub act : Option Fields

pub record Source : Type 0 where
  pub session_id : Text
  pub external_url : Text
  pub integration_id : Text

pub record Client : Type 0 where
  pub id : Text
  pub name : Text
  pub actor : Option Actor
  pub source : Option Source

pub record Submission : Type 0 where
  pub subject : Option Subject
  pub resource : Option Resource
  pub action : Option Action
  pub items : List Item
  pub context : Option Fields
  pub denial : Option DenialBinding
  pub requested_access : Option RequestedAccess
  pub callback : Option Callback
  pub client : Option Client

-- A TaskStatus and a CompletionMode are strings.
unfoldable pub status_approved : Text
status_approved = text "approved"

unfoldable pub mode_reevaluate : Text
mode_reevaluate = text "reevaluate"

pub record Approval : Type 0 where
  pub id : Text
  pub approved_at : Text
  pub approved_until : Text
  pub state : Option Any

pub record TaskResult : Type 0 where
  pub mode : Text
  pub approval : Option Approval

pub record Progress : Type 0 where
  pub current_step : ℤ
  pub total_steps : ℤ
  pub step_name : Text
  pub awaiting : List Text

pub record TaskItem : Type 0 where
  pub resource : Option Resource
  pub action : Option Action
  pub status : Text
  pub result : Option TaskResult

pub record Task : Type 0 where
  pub id : Text
  pub status : Text
  pub status_endpoint : Text
  pub progress : Option Progress
  pub expires_at : Text
  pub display : Option Fields
  pub links : List (Text × Text)
  pub items : List TaskItem

pub record Response : Type 0 where
  pub task : Option Task
  pub result : Option TaskResult
