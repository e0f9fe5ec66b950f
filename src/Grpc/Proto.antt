-- ===== src/Grpc/Proto.antt =====
-- The messages of grpc/gen/authzen/v1 that the conversions read and write, over the type S of
-- structpb.Struct. A pointer to a message may be nil, in a repeated field too. An int32 is an
-- integer.
use authzen.Base.{Bool, List, Option, Text, ℤ}

pub record Subject (S : Type 0) : Type 0 where
  pub type : Text
  pub id : Text
  pub properties : Option S

pub record Resource (S : Type 0) : Type 0 where
  pub type : Text
  pub id : Text
  pub properties : Option S

pub record Action (S : Type 0) : Type 0 where
  pub name : Text
  pub properties : Option S

pub record EvaluateRequest (S : Type 0) : Type 0 where
  pub subject : Option (Subject S)
  pub action : Option (Action S)
  pub resource : Option (Resource S)
  pub context : Option S

pub record EvaluateResponse (S : Type 0) : Type 0 where
  pub decision : Bool
  pub context : Option S

-- The enum EvaluationsSemantic: its four values, and any other number.
pub data Semantic : Type 0 where
  unspecified execute_all deny_on_first_deny permit_on_first_permit : Semantic
  unknown : ℤ → Semantic

pub record Options (S : Type 0) : Type 0 where
  pub evaluations_semantic : Semantic
  pub additional : Option S

pub record EvaluateBatchRequest (S : Type 0) : Type 0 where
  pub subject : Option (Subject S)
  pub action : Option (Action S)
  pub resource : Option (Resource S)
  pub context : Option S
  pub evaluations : List (Option (EvaluateRequest S))
  pub options : Option (Options S)

pub record EvaluateBatchResponse (S : Type 0) : Type 0 where
  pub evaluations : List (Option (EvaluateResponse S))

pub record PageResponse (S : Type 0) : Type 0 where
  pub next_token : Text
  pub count : ℤ
  pub total : ℤ
  pub properties : Option S

pub record SearchSubjectsRequest (S : Type 0) : Type 0 where
  pub subject : Option (Subject S)
  pub action : Option (Action S)
  pub resource : Option (Resource S)
  pub context : Option S
  pub page_size : ℤ
  pub page_token : Text
  pub page_properties : Option S

pub record SearchResourcesRequest (S : Type 0) : Type 0 where
  pub subject : Option (Subject S)
  pub action : Option (Action S)
  pub resource : Option (Resource S)
  pub context : Option S
  pub page_size : ℤ
  pub page_token : Text
  pub page_properties : Option S

pub record SearchActionsRequest (S : Type 0) : Type 0 where
  pub subject : Option (Subject S)
  pub resource : Option (Resource S)
  pub context : Option S
  pub page_size : ℤ
  pub page_token : Text
  pub page_properties : Option S

-- The three search responses differ in the type of a result.
pub record SearchResponse (S A : Type 0) : Type 0 where
  pub results : List (Option A)
  pub page : Option (PageResponse S)
  pub context : Option S

pub record Configuration : Type 0 where
  pub policy_decision_point : Text
  pub access_evaluation_endpoint : Text
  pub access_evaluations_endpoint : Text
  pub search_subject_endpoint : Text
  pub search_resource_endpoint : Text
  pub search_action_endpoint : Text
  pub capabilities : List Text
  pub signed_metadata : Text
