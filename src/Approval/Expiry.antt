-- ===== src/Approval/Expiry.antt =====
-- approval/store.go, expireLocked: when a record expires.
use authzen.Base.{
  ℕ, ◌*◌, ◌^◌, ◌<◌, ◌≤◌, Bool, true, false, ◌≡◌, ◌↔◌, ℤ, pos, negsuc, ◌+ℤ◌, ltb_ℤ, is_pos, arith,
  ◌-◌, not, ◌&&◌, if◌then◌else◌, ◌||◌,
}
use authzen.Approval.Types.{Status, pending, expired, approved, other}
use authzen.Approval.Store.{Entry, expire, seconds, deadline, is_pending}

pub seconds-small : (n : ℕ) → n * 1000000000 < 2 ^ 63 → seconds (pos n) ≡ pos (n * 1000000000)
unfolding seconds
seconds-small n h = ground arith

pub seconds-wrapped :
    (n : ℕ)
    → 2 ^ 63 ≤ n * 1000000000
    → n * 1000000000 < 2 ^ 64
    → seconds (pos n) ≡ negsuc (2 ^ 64 - n * 1000000000 - 1)
unfolding seconds
seconds-wrapped n h k = ground arith

pub is_pending_iff : (s : Status) → (is_pending s ≡ true) ↔ (s ≡ pending)
is_pending_iff pending = ground arith
is_pending_iff approved = ground arith
is_pending_iff Status.denied = ground arith
is_pending_iff expired = ground arith
is_pending_iff Status.canceled = ground arith
is_pending_iff (other t) = ground arith

-- now ≥ a, on the integers.
abbrev pub reached : ℤ → ℤ → Bool
reached now a = not (ltb_ℤ now a)

abbrev pub did_expire : Entry × Bool → Bool
did_expire (r, b) = b

chosen :
    (p q t : Bool) (x y : Entry)
    → did_expire (if not p || not q then (y, false) else if t then (x, true) else (y, false))
      ≡ (p && q && t)
chosen p q t x y = ground arith

pub fires :
    (now : ℤ) (r : Entry)
    → did_expire (expire now r)
      ≡ (is_pending r.approval.status && is_pos r.approval.expires_in && reached now (deadline r))
unfolding expire
fires now r =
    chosen (is_pending r.approval.status) (is_pos r.approval.expires_in) (reached now (deadline r))
      _ r

gate_iff :
    (s : Status) (n : ℕ) (t : Bool)
    → ((is_pending s && is_pos (pos n) && t) ≡ true) ↔ ((s ≡ pending) × (0 < n) × (t ≡ true))
gate_iff s n t = ground (arith, is_pending_iff s)

-- For a lifetime whose nanoseconds fit an int64, a record expires exactly when it is pending, its
-- lifetime is positive, and that many seconds have passed since its creation.
pub expire_iff :
    (now : ℤ) (r : Entry) (n : ℕ)
    → r.approval.expires_in ≡ pos n
    → n * 1000000000 < 2 ^ 63
    → (did_expire (expire now r) ≡ true) ↔ (
        (r.approval.status ≡ pending)
        × (0 < n)
        × (reached now (r.created_at +ℤ pos (n * 1000000000)) ≡ true))
unfolding deadline
expire_iff now r n e h =
    rw (fires now r, e, seconds-small n h)
      (gate_iff r.approval.status n (reached now (r.created_at +ℤ pos (n * 1000000000))))

reached_before : (a : ℤ) (k : ℕ) → reached a (a +ℤ negsuc k) ≡ true
reached_before (pos a) k = ground arith
reached_before (negsuc a) k = ground arith

-- A pending record whose lifetime in nanoseconds is from 2^63 to 2^64 expires at the instant of
-- its creation.
pub expire-overflow :
    (r : Entry) (n : ℕ)
    → r.approval.status ≡ pending
    → r.approval.expires_in ≡ pos n
    → 2 ^ 63 ≤ n * 1000000000
    → n * 1000000000 < 2 ^ 64
    → did_expire (expire r.created_at r) ≡ true
unfolding deadline
expire-overflow r n p e h k =
    rw
      (
        fires r.created_at r,
        p,
        e,
        seconds-wrapped n h k,
        reached_before r.created_at (2 ^ 64 - n * 1000000000 - 1),
      )
      ground arith
