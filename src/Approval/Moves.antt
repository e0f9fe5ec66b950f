-- ===== src/Approval/Moves.antt =====
-- approval/store.go: what the methods that name one approval do to the store.
use authzen.Base.{
  Bool, true, false, not, ◌||◌, List, [], some, Text, find, ◌≡◌, refl, ◌⊎◌, inl, inr, ℤ, pos,
  is_pos, ltb_ℤ, arith, Option-cases, if◌then◌else◌,
}
use authzen.Approval.Clone.{clone, clone_lem}
use authzen.Approval.Types.{Status, pending, approved, expired, other, terminal, Approval}
use authzen.Approval.Store.{
  Entry, Store, is_pending, expire, fire, when, deadline, set_entry, get, read_entry, get_found,
}

-- A call leaves the store as it is, or writes the record of `id` back, or gives this open record
-- its terminal status and reports it to the hook.
pub data Move (id : Text) (s : Store) : Store → List Approval → Type 0 where
  idle : Move id s s []
  same : (r : Entry) → find id s.items ≡ some r → Move id s (set_entry id r s) []
  resolves :
      (r : Entry) (a : Approval)
      → find id s.items ≡ some r
      → terminal r.approval.status ≡ false
      → terminal a.status ≡ true
      → a.id ≡ r.approval.id
      → Move id s (set_entry id (record r { approval = a }) s) (fire s.hooked (some a))

abbrev pub lapse : Entry → Entry
lapse r = record r { approval = record (r.approval) { status = expired; expires_in = pos 0 } }

abbrev picked : Bool → Bool → Bool → Entry → Entry → Entry × Bool
picked p q t x y = if not p || not q then (y, false) else if t then (x, true) else (y, false)

picked-cases :
    (p q t : Bool) (x y : Entry)
    → (picked p q t x y ≡ (y, false)) ⊎ ((p ≡ true) × (picked p q t x y ≡ (x, true)))
picked-cases p q t x y = ground arith

pub expire-cases :
    (now : ℤ) (r : Entry)
    → (expire now r ≡ (r, false))
      ⊎ ((is_pending r.approval.status ≡ true) × (expire now r ≡ (lapse r, true)))
unfolding expire
expire-cases now r =
    picked-cases (is_pending r.approval.status) (is_pos r.approval.expires_in)
      (not (ltb_ℤ now (deadline r))) (lapse r) r

pub not_terminal-is_pending : (s : Status) → is_pending s ≡ true → terminal s ≡ false
unfolding terminal
not_terminal-is_pending pending h = refl
not_terminal-is_pending approved h = cc
not_terminal-is_pending Status.denied h = cc
not_terminal-is_pending expired h = cc
not_terminal-is_pending Status.canceled h = cc
not_terminal-is_pending (other t) h = cc

-- Writing the record back after expireLocked, with the hook called where it expired.
pub expire-Move :
    (now : ℤ) (id : Text) (s : Store) (r : Entry)
    → find id s.items ≡ some r
    → Move id s
        (set_entry id (expire now r).0 s)
        (fire s.hooked (when (expire now r).1 (clone (expire now r).0.approval)))
unfolding fire terminal
expire-Move now id s r f = elim (expire-cases now r) [
  | inl e ↦ rw (e) (same r f)
  | inr (p, e) ↦
      rw (e, clone_lem (lapse r).approval)
        (resolves r (lapse r).approval f (not_terminal-is_pending r.approval.status p) refl refl)
]

read_entry-Move :
    (id : Text) (s : Store) (r : Entry) (now : ℤ)
    → find id s.items ≡ some r
    → Move id s (read_entry id s (expire now r)).store (read_entry id s (expire now r)).fired
unfolding read_entry
read_entry-Move id s r now f = expire-Move now id s r f

pub get-Move :
    (now : ℤ) (id : Text) (s : Store) → Move id s (get now id s).store (get now id s).fired
unfolding get get_found
get-Move now id s = elim (Option-cases (find id s.items)) [
  | inl e ↦ rw (e) idle
  | inr (r, e) ↦ rw (e) (read_entry-Move id s r now e)
]
