-- ===== src/Approval/Decisions.antt =====
-- approval/store.go: mutableLocked, and the three decisions that it guards.
use authzen.Base.{
  true, false, [], ◌∷◌, Option, none, some, Text, find, ◌≡◌, refl, ◌⊎◌, inl, inr, ℤ, Bool-cases,
  if◌then◌else◌,
}
use authzen.Approval.Clone.{clone_lem}
use authzen.Approval.Types.{
  Status, pending, approved, expired, other, terminal, Grant, Reasons, Approval,
}
use authzen.Approval.Store.{
  StoreError, Entry, Store, is_pending, is_expired, expire, fire, Mutable, refused, changeable,
  mutable_locked, settle_entry, set_approved, set_denied, set_canceled, approve, deny, cancel,
  look_up, check_mutable, already_resolved, attach_reason, attach_grant,
}
use authzen.Approval.Moves.{
  Move, idle, same, resolves, lapse, expire-cases, not_terminal-is_pending,
}

is_expired-terminal : (s : Status) → terminal s ≡ false → is_expired s ≡ false
unfolding terminal
is_expired-terminal pending h = refl
is_expired-terminal approved h = refl
is_expired-terminal Status.denied h = refl
is_expired-terminal expired h = cc
is_expired-terminal Status.canceled h = refl
is_expired-terminal (other t) h = refl

-- A record that neither expires nor has been decided is the only one that may change.
pub data View (now : ℤ) (r : Entry) : Mutable → Type 0 where
  just_lapsed :
      is_pending r.approval.status ≡ true
      → expire now r ≡ (lapse r, true)
      → View now r (refused (lapse r) true StoreError.lapsed)
  closed :
      (e : StoreError)
      → terminal r.approval.status ≡ true
      → expire now r ≡ (r, false)
      → e ≡ (if is_expired r.approval.status then StoreError.lapsed else already_resolved)
      → View now r (refused r false e)
  live : terminal r.approval.status ≡ false → expire now r ≡ (r, false) → View now r (changeable r)

closed-View :
    (now : ℤ) (r : Entry)
    → terminal r.approval.status ≡ true
    → expire now r ≡ (r, false)
    → (is_expired r.approval.status ≡ true) ⊎ (is_expired r.approval.status ≡ false)
    → View now r (check_mutable (r, false))
unfolding check_mutable
closed-View now r t e (inl x) = rw (x) (closed StoreError.lapsed t e (rw (x) refl))
closed-View now r t e (inr x) = rw (x, t) (closed already_resolved t e (rw (x) refl))

pub check_mutable-View : (now : ℤ) (r : Entry) → View now r (check_mutable (expire now r))
unfolding check_mutable
check_mutable-View now r = elim (expire-cases now r) [
  | inr (p, e) ↦ rw (e) (just_lapsed p e)
  | inl e ↦ elim (Bool-cases (terminal r.approval.status)) [
    | inl t ↦ rw (e) (closed-View now r t e (Bool-cases (is_expired r.approval.status)))
    | inr t ↦ rw (e, is_expired-terminal r.approval.status t, t) (live t e)
  ]
]

-- approve, deny and cancel differ in the change that they make.
settle_entry-Move :
    (now : ℤ) (id : Text) (change : Approval → Approval) (s : Store) (r : Entry)
    → ((a : Approval) → terminal (change a).status ≡ true)
    → ((a : Approval) → (change a).id ≡ a.id)
    → find id s.items ≡ some r
    → (m : Mutable) → View now r m
    → Move id s (settle_entry id change s m).store (settle_entry id change s m).fired
unfolding settle_entry terminal fire
settle_entry-Move now id change s r t k f _ (just_lapsed p e) =
    rw (clone_lem (lapse r).approval)
      (resolves r (lapse r).approval f (not_terminal-is_pending r.approval.status p) refl refl)
settle_entry-Move now id change s r t k f _ (closed x y e z) = same r f
settle_entry-Move now id change s r t k f _ (live y e) =
    rw (clone_lem (change r.approval))
      (resolves r (change r.approval) f y (t r.approval) (k r.approval))

set_approved-terminal :
    (by : Text) (g : Option Grant) (d : ℤ) (a : Approval)
    → terminal (set_approved by g d a).status ≡ true
unfolding terminal set_approved attach_grant
set_approved-terminal by none d a = refl
set_approved-terminal by (some g) d a = refl

set_approved-id :
    (by : Text) (g : Option Grant) (d : ℤ) (a : Approval) → (set_approved by g d a).id ≡ a.id
unfolding set_approved attach_grant
set_approved-id by none d a = refl
set_approved-id by (some g) d a = refl

set_denied-terminal :
    (by : Text) (m : Reasons) (d : ℤ) (a : Approval) → terminal (set_denied by m d a).status ≡ true
unfolding terminal set_denied attach_reason
set_denied-terminal by [] d a = refl
set_denied-terminal by (x ∷ m) d a = refl

set_denied-id : (by : Text) (m : Reasons) (d : ℤ) (a : Approval) → (set_denied by m d a).id ≡ a.id
unfolding set_denied attach_reason
set_denied-id by [] d a = refl
set_denied-id by (x ∷ m) d a = refl

set_canceled-terminal : (d : ℤ) (a : Approval) → terminal (set_canceled d a).status ≡ true
unfolding terminal set_canceled
set_canceled-terminal d a = refl

set_canceled-id : (d : ℤ) (a : Approval) → (set_canceled d a).id ≡ a.id
unfolding set_canceled
set_canceled-id d a = refl

found-Move :
    (now : ℤ) (id : Text) (change : Approval → Approval) (s : Store) (o : Option Entry)
    → ((a : Approval) → terminal (change a).status ≡ true)
    → ((a : Approval) → (change a).id ≡ a.id)
    → find id s.items ≡ o
    → Move id s
        (settle_entry id change s (look_up now o)).store
        (settle_entry id change s (look_up now o)).fired
unfolding look_up settle_entry
found-Move now id change s none t k e = idle
found-Move now id change s (some r) t k e =
    settle_entry-Move now id change s r t k e (check_mutable (expire now r))
      (check_mutable-View now r)

pub approve-Move :
    (now decided : ℤ) (id by : Text) (g : Option Grant) (s : Store)
    → Move id s (approve now decided id by g s).store (approve now decided id by g s).fired
unfolding approve mutable_locked
approve-Move now d id by g s =
    found-Move now id (set_approved by g d) s (find id s.items) (set_approved-terminal by g d)
      (set_approved-id by g d) refl

pub deny-Move :
    (now decided : ℤ) (id by : Text) (m : Reasons) (s : Store)
    → Move id s (deny now decided id by m s).store (deny now decided id by m s).fired
unfolding deny mutable_locked
deny-Move now d id by m s =
    found-Move now id (set_denied by m d) s (find id s.items) (set_denied-terminal by m d)
      (set_denied-id by m d) refl

pub cancel-Move :
    (now decided : ℤ) (id : Text) (s : Store)
    → Move id s (cancel now decided id s).store (cancel now decided id s).fired
unfolding cancel mutable_locked
cancel-Move now d id s =
    found-Move now id (set_canceled d) s (find id s.items) (set_canceled-terminal d)
      (set_canceled-id d) refl
