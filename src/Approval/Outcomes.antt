-- ===== src/Approval/Outcomes.antt =====
-- approval/store.go: when a decision goes through.
use mathlib.Core.Path.{fun_ext}
use authzen.Base.{
  subst, some, or_default, if◌then◌else◌, is_empty, pos, [], ◌∷◌, false, Option, none, some, Text,
  find, ◌≡◌, refl, ℤ, ok, ◌↔◌, ok-injective,
}
use authzen.Approval.Expiry.{did_expire}
use authzen.Approval.Clone.{clone_lem}
use authzen.Approval.Types.{approved, denied, canceled, terminal, Grant, Reasons, Approval}
use authzen.Approval.Store.{
  Entry, Store, expire, Mutable, mutable_locked, settle_entry, set_approved, set_denied,
  set_canceled, approve, deny, cancel, look_up, check_mutable, attach_grant, attach_reason,
}
use authzen.Approval.Decisions.{View, just_lapsed, closed, live, check_mutable-View}

-- The record of an id that is there, not decided, and not lapsed at `now`.
abbrev pub OpenAt : ℤ → Text → Store → Entry → Type 0
OpenAt now id s r =
    (find id s.items ≡ some r)
    × (terminal r.approval.status ≡ false)
    × (did_expire (expire now r) ≡ false)

settle_entry_ok_iff :
    (now : ℤ) (id : Text) (change : Approval → Approval) (s : Store) (r : Entry) (a : Approval)
    → (m : Mutable) → View now r m
    → ((settle_entry id change s m).result ≡ ok a) ↔ (
        (terminal r.approval.status ≡ false)
        × (did_expire (expire now r) ≡ false)
        × (change r.approval ≡ a))
unfolding settle_entry
settle_entry_ok_iff now id change s r a _ (just_lapsed p e) =
    (λ h. cc, λ (x, y, z). cc (rw (e) at y))
settle_entry_ok_iff now id change s r a _ (closed x y e z) = (λ h. cc, λ (u, v, w). cc)
settle_entry_ok_iff now id change s r a _ (live y e) = (
  λ h. (y, rw (e) refl, ok-injective (rw (clone_lem (change r.approval)) at h)),
  λ (u, v, w). rw (clone_lem (change r.approval), w) refl,
)

same_record :
    (now : ℤ) (change : Approval → Approval) (a : Approval) (u r : Entry)
    → some u ≡ some r
    → terminal r.approval.status ≡ false
    → did_expire (expire now r) ≡ false
    → change r.approval ≡ a
    → (terminal u.approval.status ≡ false)
      × (did_expire (expire now u) ≡ false)
      × (change u.approval ≡ a)
same_record now change a u r e y z w = (cc, cc, cc)

-- The approval that a decision returns, and the record that it was made on.
abbrev pub Decided : ℤ → Text → (Approval → Approval) → Store → Approval → Type 0
Decided now id change s a = (r : Entry) × OpenAt now id s r × (change r.approval ≡ a)

look_up_ok_iff :
    (now : ℤ) (id : Text) (change : Approval → Approval) (s : Store) (a : Approval)
    (o : Option Entry)
    → find id s.items ≡ o
    → ((settle_entry id change s (look_up now o)).result ≡ ok a) ↔ Decided now id change s a
unfolding look_up settle_entry
look_up_ok_iff now id change s a none f = (λ h. cc, λ (r, (g, y, z), w). cc (rw (f) at g))
look_up_ok_iff now id change s a (some u) f =
    let (to, from) =
      settle_entry_ok_iff now id change s u a (check_mutable (expire now u))
        (check_mutable-View now u) in
    (
      λ h. let (y, z, w) = to h in (u, (f, y, z), w),
      λ (r, (g, y, z), w). from (same_record now change a u r (rw (f) at g) y z w),
    )

-- What each decision makes of an approval.
abbrev pub as_approved : Text → Option Grant → ℤ → Approval → Approval
as_approved by g decided a = record a {
  status = approved;
  decided_by = by;
  decided_at = some decided;
  expires_in = pos 0;
  grant = or_default g a.grant;
}

abbrev pub as_denied : Text → Reasons → ℤ → Approval → Approval
as_denied by m decided a = record a {
  status = denied;
  decided_by = by;
  decided_at = some decided;
  expires_in = pos 0;
  reason_user = if is_empty m then a.reason_user else m;
}

abbrev pub as_canceled : ℤ → Approval → Approval
as_canceled decided a = record a {
  status = canceled;
  decided_at = some decided;
  expires_in = pos 0;
}

set_approved_lem :
    (by : Text) (g : Option Grant) (d : ℤ) (a : Approval)
    → set_approved by g d a ≡ as_approved by g d a
unfolding set_approved attach_grant
set_approved_lem by none d a = refl
set_approved_lem by (some g) d a = refl

set_denied_lem :
    (by : Text) (m : Reasons) (d : ℤ) (a : Approval) → set_denied by m d a ≡ as_denied by m d a
unfolding set_denied attach_reason
set_denied_lem by [] d a = refl
set_denied_lem by (k ∷ m) d a = refl

set_canceled_lem : (d : ℤ) (a : Approval) → set_canceled d a ≡ as_canceled d a
unfolding set_canceled
set_canceled_lem d a = refl

-- A decision returns an approval exactly when its id names a record that is open and has not
-- lapsed, and then it is that record's approval with its status, the time, a lifetime of 0 and,
-- for approve and deny, the decider written in, and with the grant or the reasons where some are
-- given: this for approve, deny and cancel.
pub decisions_iff :
    (now decided : ℤ) (id by : Text) (g : Option Grant) (m : Reasons) (s : Store) (a : Approval)
    → (((approve now decided id by g s).result ≡ ok a)
        ↔ Decided now id (as_approved by g decided) s a)
      × (((deny now decided id by m s).result ≡ ok a) ↔ Decided now id (as_denied by m decided) s a)
      × (((cancel now decided id s).result ≡ ok a) ↔ Decided now id (as_canceled decided) s a)
unfolding approve deny cancel mutable_locked
decisions_iff now d id by g m s a = (
  subst
      (λ f.
        ((settle_entry id (set_approved by g d) s (mutable_locked now id s)).result ≡ ok a)
        ↔ Decided now id f s a)
      (fun_ext (set_approved_lem by g d))
      (look_up_ok_iff now id (set_approved by g d) s a (find id s.items) refl),
  subst
      (λ f.
        ((settle_entry id (set_denied by m d) s (mutable_locked now id s)).result ≡ ok a)
        ↔ Decided now id f s a)
      (fun_ext (set_denied_lem by m d))
      (look_up_ok_iff now id (set_denied by m d) s a (find id s.items) refl),
  subst
      (λ f.
        ((settle_entry id (set_canceled d) s (mutable_locked now id s)).result ≡ ok a)
        ↔ Decided now id f s a)
      (fun_ext (set_canceled_lem d))
      (look_up_ok_iff now id (set_canceled d) s a (find id s.items) refl),
)
