-- ===== src/Approval/Heap/Sweeping.antt =====
-- approval/store.go, Sweep: what its writes through pointers do while no two records share one.
use authzen.Base.{
  ℕ, Bool, true, false, ◌==◌, List, [], ◌∷◌, Text, ℤ, ◌≡◌, refl, sym, ◌∙◌, inl, inr, Bool-cases,
  arith,
}
use authzen.Approval.Types.{terminal, Approval}
use authzen.Approval.Store.{Entry, expire}
use authzen.Approval.Records.{Swept, sweep_items, sweep_entry, expire_pending}
use authzen.Approval.Heap.{Slot, update, entry_of, SweptAt, sweep_slot, sweep_slots}
use authzen.Approval.Heap.Events.{holds, distinct}
use authzen.Approval.Heap.Views.{
  view_slots, view_slots-away, update-same, update-other, neither, both_hold,
}

expire_pending-created_at :
    (now : ℤ) (r : Entry) → (expire_pending now r).0.created_at ≡ r.created_at
unfolding expire_pending expire
expire_pending-created_at now r = ground arith

-- A pointer that no record holds keeps its approval.
sweep_slots-away :
    (clock : Text → ℤ) (q : ℕ) (m : List (Text × Slot)) (cells : ℕ → Approval)
    → holds q m ≡ false
    → (sweep_slots clock m cells).cells q ≡ cells q
unfolding sweep_slots sweep_slot holds
sweep_slots-away clock q [] cells h = refl
sweep_slots-away clock q ((id, t) ∷ m) cells h =
    let (one, rest) = neither (t.pointer == q) (holds q m) h in
    let seen = expire_pending (clock id) (entry_of cells t) in
    sweep_slots-away clock q m (update cells t.pointer seen.0.approval) rest
    ∙ update-other cells t.pointer q seen.0.approval one

sweep_slots-holds :
    (clock : Text → ℤ) (q : ℕ) (m : List (Text × Slot)) (cells : ℕ → Approval)
    → holds q m ≡ false
    → holds q (sweep_slots clock m cells).kept ≡ false
unfolding sweep_slots sweep_slot holds
sweep_slots-holds clock q [] cells h = refl
sweep_slots-holds clock q ((id, t) ∷ m) cells h =
    let (one, rest) = neither (t.pointer == q) (holds q m) h in
    let seen = expire_pending (clock id) (entry_of cells t) in
    let later = sweep_slots-holds clock q m (update cells t.pointer seen.0.approval) rest in
    elim (Bool-cases (terminal seen.0.approval.status)) [
      | inl e ↦ rw (e) later
      | inr e ↦ rw (e, one) later
    ]

-- What the loop over the records finds, as the loop over their approvals finds it.
abbrev seen_swept : SweptAt → Swept
seen_swept s = record {
  kept = view_slots s.cells s.kept;
  removed = s.removed;
  resolved = s.resolved;
}

sweep_slot-seen :
    (id : Text) (t : Slot) (r : Entry) (b : Bool) (rest : SweptAt)
    → rest.cells t.pointer ≡ r.approval
    → r.created_at ≡ t.created_at
    → sweep_entry id (r, b) (seen_swept rest) ≡ seen_swept (sweep_slot id t (r, b) rest)
unfolding sweep_entry sweep_slot
sweep_slot-seen id t r b rest e c = elim (Bool-cases (terminal r.approval.status)) [
  | inl k ↦ rw (k) refl
  | inr k ↦ rw (k, e, sym c) refl
]

kept-distinct :
    (id : Text) (t : Slot) (r : Entry) (b : Bool) (rest : SweptAt)
    → distinct rest.kept ≡ true
    → holds t.pointer rest.kept ≡ false
    → distinct (sweep_slot id t (r, b) rest).kept ≡ true
unfolding sweep_slot distinct
kept-distinct id t r b rest d h = elim (Bool-cases (terminal r.approval.status)) [
  | inl k ↦ rw (k) d
  | inr k ↦ rw (k, h, d) refl
]

pub sweep_slots-Swept :
    (clock : Text → ℤ) (m : List (Text × Slot)) (cells : ℕ → Approval)
    → distinct m ≡ true
    → (sweep_items clock (view_slots cells m) ≡ seen_swept (sweep_slots clock m cells))
      × (distinct (sweep_slots clock m cells).kept ≡ true)
unfolding sweep_items sweep_slots distinct
sweep_slots-Swept clock [] cells d = (refl, refl)
sweep_slots-Swept clock ((id, t) ∷ m) cells d =
    let (away, more) = both_hold (holds t.pointer m) (distinct m) d in
    let (r, b) = expire_pending (clock id) (entry_of cells t) in
    let after = update cells t.pointer r.approval in
    let (same, apart) = sweep_slots-Swept clock m after more in
    (
      rw (sym (view_slots-away t.pointer r.approval cells m away), same)
          (sweep_slot-seen id t r b (sweep_slots clock m after)
            (sweep_slots-away clock t.pointer m after away ∙ update-same cells t.pointer r.approval)
            (expire_pending-created_at (clock id) (entry_of cells t))),
      kept-distinct id t r b (sweep_slots clock m after) apart
          (sweep_slots-holds clock t.pointer m after away),
    )
