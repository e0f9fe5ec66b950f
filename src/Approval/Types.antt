-- ===== src/Approval/Types.antt =====
-- approval/approval.go: the approval and its parts. A time is a number of nanoseconds.
use authzen.Base.{Bool, true, false, List, [], Option, none, Text, ℤ, pos}

-- The Status constants, and any other string.
pub data Status : Type 0 where
  pending approved denied expired canceled : Status
  other : Text → Status

unfoldable pub terminal : Status → Bool
terminal approved = true
terminal denied = true
terminal expired = true
terminal canceled = true
terminal _ = false

pub record RequestRef : Type 0 where
  pub type : Text
  pub identifier : Text
  pub locations : List Text
  pub actions : List Text
  pub datatypes : List Text
  pub privileges : List Text

pub record Approvers : Type 0 where
  pub operator : Text
  pub stage : ℤ
  pub stage_count : ℤ

pub record Grant : Type 0 where
  pub expires_at : Option ℤ

abbrev pub Reasons : Type 0
Reasons = List (Text × Text)

pub record Approval : Type 0 where
  pub status : Status
  pub id : Text
  pub expires_in : ℤ
  pub interval : ℤ
  pub poll_url : Text
  pub delivery : List Text
  pub callback_url : Text
  pub request_ref : Option RequestRef
  pub approvers : Option Approvers
  pub grant : Option Grant
  pub decided_by : Text
  pub decided_at : Option ℤ
  pub reason_user : Reasons

unfoldable pub default_expires_in : ℤ
default_expires_in = pos 300

unfoldable pub default_interval : ℤ
default_interval = pos 5

-- `&Approval{}`, whose status is the empty string.
abbrev pub zero_approval : Approval
zero_approval = record {
  status = other [];
  id = [];
  expires_in = pos 0;
  interval = pos 0;
  poll_url = [];
  delivery = [];
  callback_url = [];
  request_ref = none;
  approvers = none;
  grant = none;
  decided_by = [];
  decided_at = none;
  reason_user = [];
}

unfoldable pub new_pending : Option RequestRef → Approval
new_pending ref = record zero_approval {
  status = pending;
  expires_in = default_expires_in;
  interval = default_interval;
  request_ref = ref;
}
