-- ===== src/Approval/Heap/Capacity.antt =====
-- approval/store.go: the cap on the number of records, whoever shares what.
use authzen.Base.{
  ℕ, ◌+◌, ◌≤◌, false, List, [], ◌∷◌, Option, none, some, Text, find, is_some, ◌≡◌, ◌⊎◌, inl, inr,
  arith, Bool-cases, length, ℤ, ◌&&◌, ltb, leb, length-put, length-drop_key,
}
use authzen.Approval.Types.{terminal, Approval, zero_approval}
use authzen.Approval.Store.{Mutable, missing, refused, changeable}
use authzen.Approval.Records.{fill_in, expire_pending}
use authzen.Approval.Heap.{
  Slot, Heap, update, write, entry_of, is_full_at, register_at, create_at, create_nil_at,
  settle_slot, settle_found, approve_at, deny_at, cancel_at, read_slot, get_slot, get_at, delete_at,
  sweep_slot, sweep_slots, sweep_at,
}
use authzen.Approval.Heap.Events.{
  HeapEvent, creates_at, creates_nil_at, writes_at, gets_at, approves_at, denies_at, cancels_at,
  deletes_at, sweeps_at, step_at, run_at,
}

-- There is no cap, or the store has no more records than its cap.
abbrev pub WithinAt : Heap → Type 0
WithinAt h = (h.max_size ≡ 0) ⊎ (length h.slots ≤ h.max_size)

has_room : (m n l : ℕ) → (ltb 0 m && leb m n) ≡ false → l ≤ n + 1 → (m ≡ 0) ⊎ (l ≤ m)
has_room m n l h k = ground arith

register_at-WithinAt :
    (now : ℤ) (id : Text) (p : ℕ) (h : Heap) → WithinAt h → WithinAt (register_at now id p h).heap
unfolding register_at is_full_at
register_at-WithinAt now id p h w = elim (Bool-cases (is_full_at h)) [
  | inl e ↦ rw (e) w
  | inr e ↦ rw (e) (
      has_room h.max_size (length h.slots) _ e
        (length-put id (record { pointer = p; created_at = now }) h.slots))
]

create_at-WithinAt :
    (o : Option Text) (now : ℤ) (p : ℕ) (h : Heap)
    → WithinAt h
    → WithinAt (create_at o now p h).heap
unfolding create_at
create_at-WithinAt none now p h w = w
create_at-WithinAt (some id) now p h w =
    register_at-WithinAt now id p (write p (fill_in id (h.cells p)) h) w

settle_slot-WithinAt :
    (t : Slot) (change : Approval → Approval) (h : Heap) (m : Mutable)
    → WithinAt h
    → WithinAt (settle_slot t change h m).heap
unfolding settle_slot
settle_slot-WithinAt t change h missing w = w
settle_slot-WithinAt t change h (refused r b e) w = w
settle_slot-WithinAt t change h (changeable r) w = w

settle_found-WithinAt :
    (now : ℤ) (change : Approval → Approval) (h : Heap) (o : Option Slot)
    → WithinAt h
    → WithinAt (settle_found now change h o).heap
unfolding settle_found
settle_found-WithinAt now change h none w = w
settle_found-WithinAt now change h (some t) w = settle_slot-WithinAt t change h _ w

get_slot-WithinAt :
    (now : ℤ) (h : Heap) (o : Option Slot) → WithinAt h → WithinAt (get_slot now h o).heap
unfolding get_slot read_slot
get_slot-WithinAt now h none w = w
get_slot-WithinAt now h (some t) w = w

fewer : (m a b : ℕ) → a ≤ b → (m ≡ 0) ⊎ (b ≤ m) → (m ≡ 0) ⊎ (a ≤ m)
fewer m a b h w = ground arith

delete_at-WithinAt : (id : Text) (h : Heap) → WithinAt h → WithinAt (delete_at id h).heap
unfolding delete_at
delete_at-WithinAt id h w = elim (Bool-cases (is_some (find id h.slots))) [
  | inr e ↦ rw (e) w
  | inl e ↦ rw (e) (fewer h.max_size _ _ (length-drop_key id h.slots) w)
]

length-sweep_slots :
    (clock : Text → ℤ) (m : List (Text × Slot)) (cells : ℕ → Approval)
    → length (sweep_slots clock m cells).kept ≤ length m
unfolding sweep_slots sweep_slot
length-sweep_slots clock [] cells = omega arith
length-sweep_slots clock ((id, t) ∷ m) cells =
    let seen = expire_pending (clock id) (entry_of cells t) in
    let later = length-sweep_slots clock m (update cells t.pointer seen.0.approval) in
    elim (Bool-cases (terminal seen.0.approval.status)) [
      | inl e ↦ rw (e) (omega (arith, later))
      | inr e ↦ rw (e) (omega (arith, later))
    ]

sweep_at-WithinAt : (clock : Text → ℤ) (h : Heap) → WithinAt h → WithinAt (sweep_at clock h).heap
unfolding sweep_at
sweep_at-WithinAt clock h w = fewer h.max_size _ _ (length-sweep_slots clock h.slots h.cells) w

step_at-WithinAt : (e : HeapEvent) (h : Heap) → WithinAt h → WithinAt (step_at e h).0
unfolding step_at create_nil_at approve_at deny_at cancel_at get_at
step_at-WithinAt (creates_at o now p) h w = create_at-WithinAt o now p h w
step_at-WithinAt (creates_nil_at o now p) h w =
    create_at-WithinAt o now p (write p zero_approval h) w
step_at-WithinAt (writes_at p a) h w = w
step_at-WithinAt (gets_at now id) h w = get_slot-WithinAt now h _ w
step_at-WithinAt (approves_at now d id by g) h w = settle_found-WithinAt now _ h _ w
step_at-WithinAt (denies_at now d id by m) h w = settle_found-WithinAt now _ h _ w
step_at-WithinAt (cancels_at now d id) h w = settle_found-WithinAt now _ h _ w
step_at-WithinAt (deletes_at id) h w = delete_at-WithinAt id h w
step_at-WithinAt (sweeps_at clock) h w = sweep_at-WithinAt clock h w

-- Whatever calls a store takes, whatever approvals its records share and whatever the caller writes
-- to them, it has no more records than its cap, where it has one and had no more at the start.
pub run_at-WithinAt : (es : List HeapEvent) (h : Heap) → WithinAt h → WithinAt (run_at es h).0
unfolding run_at
run_at-WithinAt [] h w = w
run_at-WithinAt (e ∷ es) h w = run_at-WithinAt es (step_at e h).0 (step_at-WithinAt e h w)
