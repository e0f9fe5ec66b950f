-- ===== src/Core/Types.antt =====
-- types.go and the request and response structs of evaluation.go. A pointer that may be nil is an
-- Option, and so is a map that may be nil.
use authzen.Base.{Bool, List, Option, Text}
use authzen.Json.{Fields}

pub record Subject : Type 0 where
  pub type : Text
  pub id : Text
  pub properties : Option Fields

pub record Resource : Type 0 where
  pub type : Text
  pub id : Text
  pub properties : Option Fields

pub record Action : Type 0 where
  pub name : Text
  pub properties : Option Fields

pub record EvaluationRequest : Type 0 where
  pub subject : Option Subject
  pub action : Option Action
  pub resource : Option Resource
  pub context : Option Fields

pub record EvaluationResponse : Type 0 where
  pub decision : Bool
  pub context : Option Fields

pub record Options : Type 0 where
  pub evaluations_semantic : Text
  pub additional : Option Fields

pub record EvaluationsRequest : Type 0 where
  pub subject : Option Subject
  pub action : Option Action
  pub resource : Option Resource
  pub context : Option Fields
  pub evaluations : List EvaluationRequest
  pub options : Option Options

-- `evaluations` is `none` for a nil slice.
pub record EvaluationsResponse : Type 0 where
  pub decision : Option Bool
  pub context : Option Fields
  pub evaluations : Option (List EvaluationResponse)
