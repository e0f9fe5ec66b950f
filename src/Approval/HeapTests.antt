-- ===== src/Approval/HeapTests.antt =====
-- Runs of the store over its memory, and its theorems at a small one.
use authzen.Base.{
  ◌+◌, ◌==◌, true, List, [], ◌∷◌, none, some, Text, find, ◌≡◌, refl, ◌⊎◌, inr, pos, arith, text_eq,
  if◌then◌else◌,
}
use authzen.Approval.Types.{terminal}
use authzen.Approval.Keyed.{Keyed}
use authzen.Approval.Counts.{reports, open_in}
use authzen.Approval.Tests.{id1, id2, bob, open_entry, closed_entry, two_items-Keyed}
use authzen.Approval.Heap.{Slot, Heap}
use authzen.Approval.Heap.Events.{
  HeapEvent, approves_at, cancels_at, sweeps_at, run_at, holds, distinct, fresh, all_fresh,
  births_at, all_births_at, leaves_at, all_leave_at,
}
use authzen.Approval.Heap.Views.{view}
use authzen.Approval.Heap.Once.{run_at-reports_exact, run_at-settled}
use authzen.Approval.Heap.Capacity.{WithinAt, run_at-WithinAt}

abbrev id3 : Text
id3 = 51 ∷ []

abbrev closed_slot : Slot
closed_slot = record { pointer = 2; created_at = pos 500 }

abbrev two_slots : Heap
two_slots = record {
  cells = λ p. if p == 1 then open_entry.approval else closed_entry.approval;
  slots = (id1, record { pointer = 1; created_at = pos 1000 }) ∷ (id2, closed_slot) ∷ [];
  max_size = 2;
  hooked = true;
}

two_slots-Keyed : Keyed (view two_slots).items
unfolding view
two_slots-Keyed = two_items-Keyed

two_slots_distinct : distinct two_slots.slots ≡ true
unfolding distinct holds
two_slots_distinct = refl

abbrev calls_at : List HeapEvent
calls_at =
    approves_at (pos 2000) (pos 2000) id1 bob none
    ∷ cancels_at (pos 3000) (pos 3000) id1
    ∷ sweeps_at (λ id. pos 4000)
    ∷ []

calls_at_fresh : all_fresh calls_at two_slots ≡ true
unfolding all_fresh fresh
calls_at_fresh = refl

calls_at_leave : all_leave_at id1 calls_at ≡ true
unfolding all_leave_at leaves_at
calls_at_leave = refl

run_at-reports_exact_example :
    reports id1 (run_at calls_at two_slots).1 + open_in id1 (view (run_at calls_at two_slots).0)
    ≡ open_in id1 (view two_slots)
run_at-reports_exact_example =
    run_at-reports_exact id1 calls_at two_slots two_slots-Keyed two_slots_distinct refl
      calls_at_fresh calls_at_leave

find_closed : find id2 (view two_slots).items ≡ some closed_entry
unfolding find text_eq view
find_closed = refl

closed-terminal : terminal closed_entry.approval.status ≡ true
unfolding terminal
closed-terminal = refl

no_births_of_2 : all_births_at id2 calls_at ≡ 0
unfolding all_births_at births_at
no_births_of_2 = refl

run_at-settled_example :
    (find id2 (view (run_at calls_at two_slots).0).items ≡ some closed_entry)
    ⊎ (find id2 (view (run_at calls_at two_slots).0).items ≡ none)
run_at-settled_example =
    run_at-settled id2 closed_entry calls_at two_slots two_slots-Keyed two_slots_distinct
      find_closed closed-terminal calls_at_fresh no_births_of_2

two_slots-WithinAt : WithinAt two_slots
two_slots-WithinAt = inr (omega arith)

run_at-WithinAt_example : WithinAt (run_at calls_at two_slots).0
run_at-WithinAt_example = run_at-WithinAt calls_at two_slots two_slots-WithinAt
