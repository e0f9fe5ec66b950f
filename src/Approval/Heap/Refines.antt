-- ===== src/Approval/Heap/Refines.antt =====
-- approval/store.go: while no two records share an approval, the store that records point out of is
-- the store that holds its approvals.
use authzen.Base.{
  ℕ, Bool, true, false, ◌&&◌, not, List, [], ◌∷◌, ◌++◌, Option, none, some, Text, is_some, put,
  find, ℤ, ◌≡◌, refl, sym, ap, ◌∙◌, inl, inr, Bool-cases, arith, subst,
}
use authzen.Approval.Types.{zero_approval, terminal, Approval}
use authzen.Approval.Clone.{clone}
use authzen.Approval.Store.{
  Entry, Store, expire, fire, when, Mutable, missing, refused, changeable, check_mutable, look_up,
  mutable_locked, settle_entry, set_entry, approve, deny, cancel, get, get_found, read_entry,
  is_expired, set_approved, set_denied, set_canceled,
}
use authzen.Approval.Records.{create, register, fill_in, is_full, delete, sweep}
use authzen.Approval.Events.{
  Event, creates, gets, approves, denies, cancels, deletes, sweeps, left, step, run,
}
use authzen.Approval.Heap.{
  Slot, Heap, write, entry_of, is_full_at, register_at, create_at, create_nil_at, settle_slot,
  settle_found, approve_at, deny_at, cancel_at, read_slot, get_slot, get_at, delete_at, sweep_at,
}
use authzen.Approval.Heap.Events.{
  HeapEvent, creates_at, creates_nil_at, writes_at, gets_at, approves_at, denies_at, cancels_at,
  deletes_at, sweeps_at, made, step_at, run_at, holds, distinct, fresh, all_fresh,
}
use authzen.Approval.Heap.Sweeping.{sweep_slots-Swept}
use authzen.Approval.Heap.Views.{
  view, view_found, find-view_slots, view_slots-put, view_slots-drop_key, length-view_slots,
  view_slots-away, view_slots-write, distinct-put, distinct-drop_key, update-same,
}

expire-created_at : (now : ℤ) (r : Entry) → (expire now r).0.created_at ≡ r.created_at
unfolding expire
expire-created_at now r = ground arith

-- The record that is found is the one that was looked up.
IsOf : ℤ → Mutable → Type 0
IsOf at missing = Unit {0}
IsOf at (refused r b e) = r.created_at ≡ at
IsOf at (changeable r) = r.created_at ≡ at

check_mutable-IsOf : (r : Entry) (b : Bool) → IsOf r.created_at (check_mutable (r, b))
unfolding check_mutable IsOf
check_mutable-IsOf r b = elim (Bool-cases (is_expired r.approval.status)) [
  | inl e ↦ rw (e) refl
  | inr e ↦ elim (Bool-cases (terminal r.approval.status)) [
    | inl f ↦ rw (e, f) refl
    | inr f ↦ rw (e, f) refl
  ]
]

away_of : (b : Bool) → not b ≡ true → b ≡ false
away_of b h = ground arith

both_true : (a b : Bool) → (a && b) ≡ true → (a ≡ true) × (b ≡ true)
both_true a b h = ground arith

-- A step of the heap and the step of its view: what both leave and report, and the records that
-- still share nothing.
abbrev Follows : Heap × List Approval → Store × List Approval → Type 0
Follows a b = (b ≡ (view a.0, a.1)) × (distinct a.0.slots ≡ true)

write-Follows :
    (id : Text) (t : Slot) (r : Entry) (h : Heap) (l : List Approval)
    → distinct h.slots ≡ true
    → find id h.slots ≡ some t
    → r.created_at ≡ t.created_at
    → Follows (write t.pointer r.approval h, l) (set_entry id r (view h), l)
unfolding view
write-Follows id t r h l d f e =
    (rw (view_slots-write id t r.approval h.cells h.slots d f, sym e) refl, d)

settle_slot-Follows :
    (id : Text) (t : Slot) (change : Approval → Approval) (h : Heap) (m : Mutable)
    → distinct h.slots ≡ true
    → find id h.slots ≡ some t
    → IsOf t.created_at m
    → Follows (made (settle_slot t change h m)) (left (settle_entry id change (view h) m))
unfolding settle_slot settle_entry IsOf view
settle_slot-Follows id t change h missing d f e = (refl, d)
settle_slot-Follows id t change h (refused r b why) d f e = write-Follows id t r h _ d f e
settle_slot-Follows id t change h (changeable r) d f e =
    write-Follows id t (record r { approval = change r.approval }) h _ d f e

found_in_view :
    (id : Text) (h : Heap) → find id (view h).items ≡ view_found h.cells (find id h.slots)
unfolding view
found_in_view id h = find-view_slots id h.cells h.slots

settle_found-Follows :
    (now : ℤ) (id : Text) (change : Approval → Approval) (h : Heap) (o : Option Slot)
    → distinct h.slots ≡ true
    → find id h.slots ≡ o
    → Follows
        (made (settle_found now change h o))
        (left (settle_entry id change (view h) (look_up now (view_found h.cells o))))
unfolding settle_found look_up settle_entry
settle_found-Follows now id change h none d f = (refl, d)
settle_found-Follows now id change h (some t) d f =
    settle_slot-Follows id t change h (check_mutable (expire now (entry_of h.cells t))) d f (
      subst (λ at. IsOf at (check_mutable (expire now (entry_of h.cells t))))
        (expire-created_at now (entry_of h.cells t))
        (check_mutable-IsOf (expire now (entry_of h.cells t)).0
          (expire now (entry_of h.cells t)).1))

decide-Follows :
    (now : ℤ) (id : Text) (change : Approval → Approval) (h : Heap)
    → distinct h.slots ≡ true
    → Follows
        (made (settle_found now change h (find id h.slots)))
        (left (settle_entry id change (view h) (mutable_locked now id (view h))))
unfolding mutable_locked
decide-Follows now id change h d =
    rw (found_in_view id h) (settle_found-Follows now id change h (find id h.slots) d refl)

get_slot-Follows :
    (now : ℤ) (id : Text) (h : Heap) (o : Option Slot)
    → distinct h.slots ≡ true
    → find id h.slots ≡ o
    → Follows (made (get_slot now h o)) (left (get_found now id (view h) (view_found h.cells o)))
unfolding get_slot get_found read_slot read_entry view
get_slot-Follows now id h none d f = (refl, d)
get_slot-Follows now id h (some t) d f =
    let (r, b) = expire now (entry_of h.cells t) in
    write-Follows id t r h (fire h.hooked (when b (clone r.approval))) d f
      (expire-created_at now (entry_of h.cells t))

get_at-Follows :
    (now : ℤ) (id : Text) (h : Heap)
    → distinct h.slots ≡ true
    → Follows (made (get_at now id h)) (left (get now id (view h)))
unfolding get_at get
get_at-Follows now id h d =
    rw (found_in_view id h) (get_slot-Follows now id h (find id h.slots) d refl)

is_some-view_found :
    (cells : ℕ → Approval) (o : Option Slot) → is_some (view_found cells o) ≡ is_some o
is_some-view_found cells none = refl
is_some-view_found cells (some t) = refl

delete_at-Follows :
    (id : Text) (h : Heap)
    → distinct h.slots ≡ true
    → Follows (made (delete_at id h)) (left (delete id (view h)))
unfolding delete_at delete view
delete_at-Follows id h d = elim (Bool-cases (is_some (find id h.slots))) [
  | inl e ↦ (
    rw
        (
          find-view_slots id h.cells h.slots,
          is_some-view_found h.cells (find id h.slots),
          e,
          view_slots-drop_key id h.cells h.slots,
        )
        refl,
    rw (e) (distinct-drop_key id h.slots d),
  )
  | inr e ↦ (
    rw (find-view_slots id h.cells h.slots, is_some-view_found h.cells (find id h.slots), e) refl,
    rw (e) d,
  )
]

is_full-view : (h : Heap) → is_full (view h) ≡ is_full_at h
unfolding is_full is_full_at view
is_full-view h = rw (length-view_slots h.cells h.slots) refl

view-write_away :
    (p : ℕ) (a : Approval) (h : Heap) → holds p h.slots ≡ false → view (write p a h) ≡ view h
unfolding view
view-write_away p a h away = rw (view_slots-away p a h.cells h.slots away) refl

view-put :
    (id : Text) (t : Slot) (h : Heap)
    → set_entry id (entry_of h.cells t) (view h) ≡ view (record h { slots = put id t h.slots })
unfolding view
view-put id t h = rw (view_slots-put id t h.cells h.slots) refl

register_at-Follows :
    (now : ℤ) (id : Text) (p : ℕ) (h : Heap)
    → distinct h.slots ≡ true
    → holds p h.slots ≡ false
    → Follows (made (register_at now id p h)) (left (register now id (h.cells p) (view h)))
unfolding register_at register
register_at-Follows now id p h d away = elim (Bool-cases (is_full_at h)) [
  | inl e ↦ (rw (is_full-view h, e) refl, rw (e) d)
  | inr e ↦ (
    rw (is_full-view h, e)
        (ap (λ s. (s, [])) (view-put id (record { pointer = p; created_at = now }) h)),
    rw (e) (distinct-put id (record { pointer = p; created_at = now }) h.slots d away),
  )
]

create_at-Follows :
    (o : Option Text) (now : ℤ) (p : ℕ) (h : Heap)
    → distinct h.slots ≡ true
    → holds p h.slots ≡ false
    → Follows (made (create_at o now p h)) (left (create o now (some (h.cells p)) (view h)))
unfolding create_at create
create_at-Follows none now p h d away = (refl, d)
create_at-Follows (some id) now p h d away =
    let filled = write p (fill_in id (h.cells p)) h in
    subst (λ a. Follows (made (register_at now id p filled)) (left (register now id a (view h))))
      (update-same h.cells p (fill_in id (h.cells p)))
      (subst
        (λ s.
          Follows (made (register_at now id p filled)) (left (register now id (filled.cells p) s)))
        (view-write_away p (fill_in id (h.cells p)) h away)
        (register_at-Follows now id p filled d away))

create-zero :
    (o : Option Text) (now : ℤ) (s : Store)
    → create o now (some zero_approval) s ≡ create o now none s
unfolding create
create-zero none now s = refl
create-zero (some id) now s = refl

create_nil_at-Follows :
    (o : Option Text) (now : ℤ) (p : ℕ) (h : Heap)
    → distinct h.slots ≡ true
    → holds p h.slots ≡ false
    → Follows (made (create_nil_at o now p h)) (left (create o now none (view h)))
unfolding create_nil_at
create_nil_at-Follows o now p h d away =
    let cleared = write p zero_approval h in
    subst (λ s. Follows (made (create_at o now p cleared)) (left (create o now none s)))
      (view-write_away p zero_approval h away)
      (subst (λ c. Follows (made (create_at o now p cleared)) (left c))
        (create-zero o now (view cleared))
        (subst
          (λ a.
            Follows (made (create_at o now p cleared))
              (left (create o now (some a) (view cleared))))
          (update-same h.cells p zero_approval) (create_at-Follows o now p cleared d away)))

sweep_at-Follows :
    (clock : Text → ℤ) (h : Heap)
    → distinct h.slots ≡ true
    → Follows (made (sweep_at clock h)) (left (sweep clock (view h)))
unfolding sweep_at sweep view
sweep_at-Follows clock h d =
    let (same, apart) = sweep_slots-Swept clock h.slots h.cells d in (rw same refl, apart)

-- The call of the view that an event is, if it is one.
unfoldable pub seen_as : HeapEvent → Heap → Option Event
seen_as (creates_at o now p) h = some (creates o now (some (h.cells p)))
seen_as (creates_nil_at o now p) h = some (creates o now none)
seen_as (writes_at p a) h = none
seen_as (gets_at now id) h = some (gets now id)
seen_as (approves_at now d id by g) h = some (approves now d id by g)
seen_as (denies_at now d id by m) h = some (denies now d id by m)
seen_as (cancels_at now d id) h = some (cancels now d id)
seen_as (deletes_at id) h = some (deletes id)
seen_as (sweeps_at clock) h = some (sweeps clock)

unfoldable pub also : Option Event → List Event → List Event
also none es = es
also (some e) es = e ∷ es

abbrev maybe_step : Option Event → Store → Store × List Approval
maybe_step none s = (s, [])
maybe_step (some e) s = step e s

-- The calls of the view that events are.
unfoldable pub trace : List HeapEvent → Heap → List Event
trace [] h = []
trace (e ∷ es) h = also (seen_as e h) (trace es (step_at e h).0)

step_at-Follows :
    (e : HeapEvent) (h : Heap)
    → distinct h.slots ≡ true
    → fresh e h ≡ true
    → Follows (step_at e h) (maybe_step (seen_as e h) (view h))
unfolding step_at seen_as step fresh approve_at deny_at cancel_at approve deny cancel
step_at-Follows (creates_at o now p) h d f = create_at-Follows o now p h d (away_of _ f)
step_at-Follows (creates_nil_at o now p) h d f = create_nil_at-Follows o now p h d (away_of _ f)
step_at-Follows (writes_at p a) h d f =
    (ap (λ s. (s, [])) (sym (view-write_away p a h (away_of _ f))), d)
step_at-Follows (gets_at now id) h d f = get_at-Follows now id h d
step_at-Follows (approves_at now at id by g) h d f =
    decide-Follows now id (set_approved by g at) h d
step_at-Follows (denies_at now at id by m) h d f = decide-Follows now id (set_denied by m at) h d
step_at-Follows (cancels_at now at id) h d f = decide-Follows now id (set_canceled at) h d
step_at-Follows (deletes_at id) h d f = delete_at-Follows id h d
step_at-Follows (sweeps_at clock) h d f = sweep_at-Follows clock h d

run-also :
    (o : Option Event) (es : List Event) (s : Store)
    → run (also o es) s
      ≡ ((run es (maybe_step o s).0).0, (maybe_step o s).1 ++ (run es (maybe_step o s).0).1)
unfolding run also
run-also none es s = refl
run-also (some e) es s = refl

-- Over any events that pass and write no approval a record holds, the heap does what its view does.
pub run_at-view :
    (es : List HeapEvent) (h : Heap)
    → distinct h.slots ≡ true
    → all_fresh es h ≡ true
    → run (trace es h) (view h) ≡ (view (run_at es h).0, (run_at es h).1)
unfolding run run_at trace all_fresh
run_at-view [] h d f = refl
run_at-view (e ∷ es) h d f =
    let (now, later) = both_true (fresh e h) (all_fresh es (step_at e h).0) f in
    let (same, apart) = step_at-Follows e h d now in
    run-also (seen_as e h) (trace es (step_at e h).0) (view h)
    ∙ rw (same, run_at-view es (step_at e h).0 apart later) refl
