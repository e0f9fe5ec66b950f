-- ===== src/Approval/Heap/Events.antt =====
-- approval/store.go: the calls of a store in the order of its lock, and the caller's own writes to
-- the approvals it has pointers to.
use authzen.Base.{
  ℕ, ◌+◌, Bool, true, false, ◌&&◌, not, ◌||◌, ◌==◌, List, [], ◌∷◌, ◌++◌, Option, some, Text,
  text_eq, ℤ, if◌then◌else◌,
}
use authzen.Approval.Types.{Grant, Reasons, Approval}
use authzen.Approval.Heap.{
  Slot, Heap, Made, write, create_at, create_nil_at, approve_at, deny_at, cancel_at, get_at,
  delete_at, sweep_at,
}

pub data HeapEvent : Type 0 where
  creates_at : Option Text → ℤ → ℕ → HeapEvent
  creates_nil_at : Option Text → ℤ → ℕ → HeapEvent
  writes_at : ℕ → Approval → HeapEvent
  gets_at : ℤ → Text → HeapEvent
  approves_at : ℤ → ℤ → Text → Text → Option Grant → HeapEvent
  denies_at : ℤ → ℤ → Text → Text → Reasons → HeapEvent
  cancels_at : ℤ → ℤ → Text → HeapEvent
  deletes_at : Text → HeapEvent
  sweeps_at : (Text → ℤ) → HeapEvent

abbrev pub made : {A : Type 0} → Made A → Heap × List Approval
made d = (d.heap, d.fired)

unfoldable pub step_at : HeapEvent → Heap → Heap × List Approval
step_at (creates_at id now p) h = made (create_at id now p h)
step_at (creates_nil_at id now p) h = made (create_nil_at id now p h)
step_at (writes_at p a) h = (write p a h, [])
step_at (gets_at now id) h = made (get_at now id h)
step_at (approves_at now decided id by grant) h = made (approve_at now decided id by grant h)
step_at (denies_at now decided id by reason) h = made (deny_at now decided id by reason h)
step_at (cancels_at now decided id) h = made (cancel_at now decided id h)
step_at (deletes_at id) h = made (delete_at id h)
step_at (sweeps_at clock) h = made (sweep_at clock h)

unfoldable pub run_at : List HeapEvent → Heap → Heap × List Approval
run_at [] h = (h, [])
run_at (e ∷ es) h =
    ((run_at es (step_at e h).0).0, (step_at e h).1 ++ (run_at es (step_at e h).0).1)

-- Whether a record holds the pointer p.
unfoldable pub holds : ℕ → List (Text × Slot) → Bool
holds p [] = false
holds p ((id, t) ∷ m) = t.pointer == p || holds p m

-- No two records hold one pointer.
unfoldable pub distinct : List (Text × Slot) → Bool
distinct [] = true
distinct ((id, t) ∷ m) = not (holds t.pointer m) && distinct m

-- The caller does not pass or write what a record holds.
unfoldable pub fresh : HeapEvent → Heap → Bool
fresh (creates_at id now p) h = not (holds p h.slots)
fresh (creates_nil_at id now p) h = not (holds p h.slots)
fresh (writes_at p a) h = not (holds p h.slots)
fresh _ h = true

unfoldable pub all_fresh : List HeapEvent → Heap → Bool
all_fresh [] h = true
all_fresh (e ∷ es) h = fresh e h && all_fresh es (step_at e h).0

-- How many approvals with the id x an event may register.
unfoldable pub births_at : Text → HeapEvent → ℕ
births_at x (creates_at (some id) now p) = if text_eq id x then 1 else 0
births_at x (creates_nil_at (some id) now p) = if text_eq id x then 1 else 0
births_at x _ = 0

unfoldable pub all_births_at : Text → List HeapEvent → ℕ
all_births_at x [] = 0
all_births_at x (e ∷ es) = births_at x e + all_births_at x es

-- Neither the registration of an approval under x nor its removal by Delete.
unfoldable pub leaves_at : Text → HeapEvent → Bool
leaves_at x (creates_at (some id) now p) = not (text_eq id x)
leaves_at x (creates_nil_at (some id) now p) = not (text_eq id x)
leaves_at x (deletes_at id) = not (text_eq id x)
leaves_at x _ = true

unfoldable pub all_leave_at : Text → List HeapEvent → Bool
all_leave_at x [] = true
all_leave_at x (e ∷ es) = leaves_at x e && all_leave_at x es
