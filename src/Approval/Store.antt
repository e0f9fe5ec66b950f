-- ===== src/Approval/Store.antt =====
-- approval/store.go: the in-memory store of pending approvals. Each method is one critical
-- section on records that hold their approvals; Approval/Heap has the pointers. Its result lists
-- the approvals that it passes to OnResolve after the unlock; a panic of that hook is swallowed.
-- The times that a method reads from the clock are its arguments.
use authzen.Base.{
  ℕ, ◌*◌, Bool, true, false, not, ◌||◌, List, [], ◌∷◌, Option, none, some, Text, find, put, ltb_ℤ,
  is_pos, pos_part, ℤ, pos, ◌+ℤ◌, int64_of_bits, Result, ok, err, if◌then◌else◌,
}
use authzen.Approval.Clone.{clone}
use authzen.Approval.Types.{
  Status, pending, approved, denied, expired, canceled, terminal, Grant, Reasons, Approval,
}

pub data StoreError : Type 0 where
  not_found already_resolved lapsed store_full entropy_failure : StoreError

-- The struct `record`: an approval and the instant of its creation.
pub record Entry : Type 0 where
  pub approval : Approval
  pub created_at : ℤ

-- `hooked` says whether OnResolve is set; a `max_size` of 0 is no cap.
pub record Store : Type 0 where
  pub items : List (Text × Entry)
  pub max_size : ℕ
  pub hooked : Bool

-- A result, the store that is left, and the approvals that OnResolve gets.
pub record Done (A : Type 0) : Type 0 where
  pub store : Store
  pub result : A
  pub fired : List Approval

pub data StoreOption : Type 0 where
  with_max_size : ℤ → StoreOption
  with_hook : StoreOption

apply_option : Store → StoreOption → Store
apply_option s (with_max_size n) = if is_pos n then record s { max_size = pos_part n } else s
apply_option s with_hook = record s { hooked = true }

apply_options : Store → List StoreOption → Store
unfolding apply_option
apply_options s [] = s
apply_options s (o ∷ os) = apply_options (apply_option s o) os

unfoldable pub new_store : List StoreOption → Store
unfolding apply_options
new_store = apply_options (record { items = []; max_size = 0; hooked = false })

abbrev pub is_pending : Status → Bool
is_pending pending = true
is_pending _ = false

abbrev pub is_expired : Status → Bool
is_expired expired = true
is_expired _ = false

-- `time.Duration(n) * time.Second`, in int64 arithmetic, for a positive n.
unfoldable pub seconds : ℤ → ℤ
seconds n = int64_of_bits (pos_part n * 1000000000)

unfoldable pub deadline : Entry → ℤ
deadline r = r.created_at +ℤ seconds r.approval.expires_in

-- expireLocked: the entry, and whether this call expired it.
unfoldable pub expire : ℤ → Entry → Entry × Bool
expire now r =
    if not (is_pending r.approval.status) || not (is_pos r.approval.expires_in)
    then (r, false)
    else if not (ltb_ℤ now (deadline r))
    then (
      record r { approval = record (r.approval) { status = expired; expires_in = pos 0 } },
      true,
    )
    else (r, false)

-- fireResolve on an approval that may be nil.
unfoldable pub fire : Bool → Option Approval → List Approval
fire hooked none = []
fire hooked (some a) = if hooked then a ∷ [] else []

abbrev pub when {ℓ} : {A : Type ℓ} → Bool → A → Option A
when true a = some a
when false a = none

-- What mutableLocked finds: the record with its own error and whether this call expired it, or a
-- record that may change.
pub data Mutable : Type 0 where
  missing : Mutable
  refused : Entry → Bool → StoreError → Mutable
  changeable : Entry → Mutable

unfoldable pub check_mutable : Entry × Bool → Mutable
check_mutable (r, just_expired) =
    if is_expired r.approval.status
    then refused r just_expired lapsed
    else if terminal r.approval.status
    then refused r false already_resolved
    else changeable r

unfoldable pub look_up : ℤ → Option Entry → Mutable
look_up now none = missing
look_up now (some r) = check_mutable (expire now r)

unfoldable pub mutable_locked : ℤ → Text → Store → Mutable
mutable_locked now id s = look_up now (find id s.items)

abbrev pub set_entry : Text → Entry → Store → Store
set_entry id r s = record s { items = put id r s.items }

-- What approve, deny and cancel share: the error paths, and the change of an open record.
unfoldable pub settle_entry :
    Text → (Approval → Approval) → Store → Mutable → Done (Result StoreError Approval)
settle_entry id change s missing = record { store = s; result = err not_found; fired = [] }
settle_entry id change s (refused r just_expired e) = record {
  store = set_entry id r s;
  result = err e;
  fired = fire s.hooked (when just_expired (clone r.approval));
}
settle_entry id change s (changeable r) = record {
  store = set_entry id (record r { approval = change r.approval }) s;
  result = ok (clone (change r.approval));
  fired = fire s.hooked (some (clone (change r.approval)));
}

unfoldable pub attach_grant : Option Grant → Approval → Approval
attach_grant none a = a
attach_grant (some g) a = record a { grant = some g }

unfoldable pub set_approved : Text → Option Grant → ℤ → Approval → Approval
unfolding attach_grant
set_approved by grant decided a =
    attach_grant grant (record a {
      status = approved;
      decided_by = by;
      decided_at = some decided;
      expires_in = pos 0;
    })

unfoldable pub attach_reason : Reasons → Approval → Approval
attach_reason [] a = a
attach_reason (m ∷ ms) a = record a { reason_user = m ∷ ms }

unfoldable pub set_denied : Text → Reasons → ℤ → Approval → Approval
unfolding attach_reason
set_denied by reason decided a =
    attach_reason reason
      (record a { status = denied; decided_by = by; decided_at = some decided; expires_in = pos 0 })

unfoldable pub set_canceled : ℤ → Approval → Approval
set_canceled decided a = record a {
  status = canceled;
  decided_at = some decided;
  expires_in = pos 0;
}

-- `now` is the time that the expiry reads, `decided` the time of the decision.
unfoldable pub approve :
    ℤ → ℤ → Text → Text → Option Grant → Store → Done (Result StoreError Approval)
approve now decided id by grant s =
    settle_entry id (set_approved by grant decided) s (mutable_locked now id s)

unfoldable pub deny : ℤ → ℤ → Text → Text → Reasons → Store → Done (Result StoreError Approval)
deny now decided id by reason s =
    settle_entry id (set_denied by reason decided) s (mutable_locked now id s)

unfoldable pub cancel : ℤ → ℤ → Text → Store → Done (Result StoreError Approval)
cancel now decided id s = settle_entry id (set_canceled decided) s (mutable_locked now id s)

unfoldable pub read_entry : Text → Store → Entry × Bool → Done (Result StoreError Approval)
read_entry id s (r, just_expired) = record {
  store = set_entry id r s;
  result = ok (clone r.approval);
  fired = fire s.hooked (when just_expired (clone r.approval));
}

unfoldable pub get_found : ℤ → Text → Store → Option Entry → Done (Result StoreError Approval)
get_found now id s none = record { store = s; result = err not_found; fired = [] }
get_found now id s (some r) = read_entry id s (expire now r)

unfoldable pub get : ℤ → Text → Store → Done (Result StoreError Approval)
get now id s = get_found now id s (find id s.items)
