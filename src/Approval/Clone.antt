-- ===== src/Approval/Clone.antt =====
-- approval/store.go, clone: the copy that callers and the hook get.
use authzen.Base.{Option, none, some, ℤ, ◌≡◌, refl, arith}
use authzen.Approval.Types.{RequestRef, Approvers, Grant, Approval}

-- A copy of the approval and of everything behind its pointers.
clone_ref : Option RequestRef → Option RequestRef
clone_ref none = none
clone_ref (some r) = some r

clone_approvers : Option Approvers → Option Approvers
clone_approvers none = none
clone_approvers (some a) = some a

clone_time : Option ℤ → Option ℤ
clone_time none = none
clone_time (some t) = some t

clone_grant : Option Grant → Option Grant
unfolding clone_time
clone_grant none = none
clone_grant (some g) = some (record g { expires_at = clone_time g.expires_at })

pub clone : Approval → Approval
unfolding clone_ref clone_approvers clone_time clone_grant
clone a = record a {
  request_ref = clone_ref a.request_ref;
  approvers = clone_approvers a.approvers;
  grant = clone_grant a.grant;
  decided_at = clone_time a.decided_at;
}

clone_ref_lem : (r : Option RequestRef) → clone_ref r ≡ r
unfolding clone_ref
clone_ref_lem r = ground arith

clone_approvers_lem : (a : Option Approvers) → clone_approvers a ≡ a
unfolding clone_approvers
clone_approvers_lem a = ground arith

clone_time_lem : (t : Option ℤ) → clone_time t ≡ t
unfolding clone_time
clone_time_lem t = ground arith

clone_grant_lem : (g : Option Grant) → clone_grant g ≡ g
unfolding clone_grant
clone_grant_lem none = refl
clone_grant_lem (some g) = rw (clone_time_lem g.expires_at) refl

-- As a value, the copy is the approval.
pub clone_lem : (a : Approval) → clone a ≡ a
unfolding clone
clone_lem a =
    rw
      (
        clone_ref_lem a.request_ref,
        clone_approvers_lem a.approvers,
        clone_grant_lem a.grant,
        clone_time_lem a.decided_at,
      )
      refl
