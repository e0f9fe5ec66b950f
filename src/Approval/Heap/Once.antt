-- ===== src/Approval/Heap/Once.antt =====
-- approval/store.go: how often OnResolve hears of an approval and what becomes of a decided one,
-- over any calls; and what a second Create on one pointer does.
use authzen.Base.{
  ◌+◌, true, ◌&&◌, List, [], ◌∷◌, none, some, Text, find, ◌≡◌, refl, ap, ◌∙◌, subst, ◌⊎◌, arith,
}
use authzen.Approval.Types.{terminal}
use authzen.Approval.Store.{Entry}
use authzen.Approval.Counts.{reports, open_in}
use authzen.Approval.Keyed.{Keyed}
use authzen.Approval.Events.{Event, births, births_in}
use authzen.Approval.Once.{leaves, all_leave, run-reports_exact}
use authzen.Approval.Finality.{run-settled}
use authzen.Approval.Heap.{Heap}
use authzen.Approval.Heap.Events.{
  HeapEvent, creates_at, creates_nil_at, writes_at, gets_at, approves_at, denies_at, cancels_at,
  deletes_at, sweeps_at, step_at, run_at, distinct, all_fresh, births_at, all_births_at, leaves_at,
  all_leave_at,
}
use authzen.Approval.Heap.Views.{view}
use authzen.Approval.Heap.Refines.{seen_as, also, trace, run_at-view}

births_in-also :
    (x : Text) (e : HeapEvent) (h : Heap) (es : List Event)
    → births_in x (also (seen_as e h) es) ≡ births_at x e + births_in x es
unfolding births_in births also seen_as births_at
births_in-also x (creates_at none now p) h es = omega arith
births_in-also x (creates_at (some id) now p) h es = refl
births_in-also x (creates_nil_at none now p) h es = omega arith
births_in-also x (creates_nil_at (some id) now p) h es = refl
births_in-also x (writes_at p a) h es = omega arith
births_in-also x (gets_at now id) h es = omega arith
births_in-also x (approves_at now d id by g) h es = omega arith
births_in-also x (denies_at now d id by m) h es = omega arith
births_in-also x (cancels_at now d id) h es = omega arith
births_in-also x (deletes_at id) h es = omega arith
births_in-also x (sweeps_at clock) h es = omega arith

births_in-trace :
    (x : Text) (es : List HeapEvent) (h : Heap) → births_in x (trace es h) ≡ all_births_at x es
unfolding trace all_births_at births_in
births_in-trace x [] h = refl
births_in-trace x (e ∷ es) h =
    births_in-also x e h (trace es (step_at e h).0)
    ∙ ap (λ n. births_at x e + n) (births_in-trace x es (step_at e h).0)

all_leave-also :
    (x : Text) (e : HeapEvent) (h : Heap) (es : List Event)
    → all_leave x (also (seen_as e h) es) ≡ (leaves_at x e && all_leave x es)
unfolding all_leave leaves also seen_as leaves_at
all_leave-also x (creates_at none now p) h es = refl
all_leave-also x (creates_at (some id) now p) h es = refl
all_leave-also x (creates_nil_at none now p) h es = refl
all_leave-also x (creates_nil_at (some id) now p) h es = refl
all_leave-also x (writes_at p a) h es = refl
all_leave-also x (gets_at now id) h es = refl
all_leave-also x (approves_at now d id by g) h es = refl
all_leave-also x (denies_at now d id by m) h es = refl
all_leave-also x (cancels_at now d id) h es = refl
all_leave-also x (deletes_at id) h es = refl
all_leave-also x (sweeps_at clock) h es = refl

all_leave-trace :
    (x : Text) (es : List HeapEvent) (h : Heap) → all_leave x (trace es h) ≡ all_leave_at x es
unfolding trace all_leave_at all_leave
all_leave-trace x [] h = refl
all_leave-trace x (e ∷ es) h =
    all_leave-also x e h (trace es (step_at e h).0)
    ∙ ap (λ b. leaves_at x e && b) (all_leave-trace x es (step_at e h).0)

-- In a store with a hook that has each record under its own id, no two of them with one pointer,
-- while an approval is neither registered again nor deleted, and the caller passes or writes no
-- approval that a record holds, whatever else is called: one that was open is still open and was
-- never reported, or is no longer open and was reported exactly once; one that was not open is not
-- reported.
pub run_at-reports_exact :
    (x : Text) (es : List HeapEvent) (h : Heap)
    → Keyed (view h).items
    → distinct h.slots ≡ true
    → h.hooked ≡ true
    → all_fresh es h ≡ true
    → all_leave_at x es ≡ true
    → reports x (run_at es h).1 + open_in x (view (run_at es h).0) ≡ open_in x (view h)
unfolding view
run_at-reports_exact x es h keyed apart hooked fresh leave =
    subst (λ s. reports x s.1 + open_in x s.0 ≡ open_in x (view h)) (run_at-view es h apart fresh)
      (run-reports_exact x (trace es h) (view h) keyed hooked (all_leave-trace x es h ∙ leave))

-- In a store that has each record under its own id, no two of them with one pointer, once the
-- record of an id is decided, no calls change it: while nothing is registered under the id again,
-- and the caller passes or writes no approval that a record holds, it stays as it is until it is
-- removed.
pub run_at-settled :
    (x : Text) (r : Entry) (es : List HeapEvent) (h : Heap)
    → Keyed (view h).items
    → distinct h.slots ≡ true
    → find x (view h).items ≡ some r
    → terminal r.approval.status ≡ true
    → all_fresh es h ≡ true
    → all_births_at x es ≡ 0
    → (find x (view (run_at es h).0).items ≡ some r) ⊎ (find x (view (run_at es h).0).items ≡ none)
run_at-settled x r es h keyed apart found decided fresh none_born =
    subst (λ s. (find x s.0.items ≡ some r) ⊎ (find x s.0.items ≡ none))
      (run_at-view es h apart fresh)
      (run-settled x r (trace es h) (view h) keyed found decided
        (births_in-trace x es h ∙ none_born))
