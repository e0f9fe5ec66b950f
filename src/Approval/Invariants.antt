-- ===== src/Approval/Invariants.antt =====
-- approval/store.go: what every call keeps of a store: each record under its own id, and the hook.
use authzen.Base.{
  List, [], ◌∷◌, Option, Text, find, is_some, ◌≡◌, refl, inl, inr, arith, Bool-cases,
}
use authzen.Approval.Types.{Approval}
use authzen.Approval.Store.{Store}
use authzen.Approval.Records.{delete, sweep}
use authzen.Approval.Moves.{Move, idle, same, resolves, get-Move}
use authzen.Approval.Decisions.{approve-Move, deny-Move, cancel-Move}
use authzen.Approval.Births.{Birth, none_born, born, create-Birth}
use authzen.Approval.Keyed.{Keyed, Move-Keyed, put-Keyed, drop_key-Keyed}
use authzen.Approval.Remains.{sweep-Keyed}
use authzen.Approval.Events.{
  Event, creates, gets, approves, denies, cancels, deletes, sweeps, step, run,
}

delete-Keyed : (id : Text) (s : Store) → Keyed s.items → Keyed (delete id s).store.items
unfolding delete
delete-Keyed id s w = elim (Bool-cases (is_some (find id s.items))) [
  | inl e ↦ rw (e) (drop_key-Keyed id s.items w)
  | inr e ↦ rw (e) w
]

Birth-Keyed :
    (s t : Store) (o : Option Text) (l : List Approval)
    → Keyed s.items
    → Birth s o t l
    → Keyed t.items
Birth-Keyed s _ _ _ w (none_born o) = w
Birth-Keyed s _ _ _ w (born id r e p f) = put-Keyed id r s.items e w

pub step-Keyed : (e : Event) (s : Store) → Keyed s.items → Keyed (step e s).0.items
unfolding step
step-Keyed (creates o now req) s w = Birth-Keyed s _ o _ w (create-Birth o now req s)
step-Keyed (gets now id) s w = Move-Keyed id s _ _ w (get-Move now id s)
step-Keyed (approves now d id by g) s w = Move-Keyed id s _ _ w (approve-Move now d id by g s)
step-Keyed (denies now d id by m) s w = Move-Keyed id s _ _ w (deny-Move now d id by m s)
step-Keyed (cancels now d id) s w = Move-Keyed id s _ _ w (cancel-Move now d id s)
step-Keyed (deletes id) s w = delete-Keyed id s w
step-Keyed (sweeps clock) s w = sweep-Keyed clock s w

pub run-Keyed : (es : List Event) (s : Store) → Keyed s.items → Keyed (run es s).0.items
unfolding run
run-Keyed [] s w = w
run-Keyed (e ∷ es) s w = run-Keyed es (step e s).0 (step-Keyed e s w)

Move-hooked : (id : Text) (s t : Store) (l : List Approval) → Move id s t l → t.hooked ≡ s.hooked
Move-hooked id s _ _ idle = refl
Move-hooked id s _ _ (same r f) = refl
Move-hooked id s _ _ (resolves r a f o t e) = refl

Birth-hooked :
    (s t : Store) (o : Option Text) (l : List Approval) → Birth s o t l → t.hooked ≡ s.hooked
Birth-hooked s _ _ _ (none_born o) = refl
Birth-hooked s _ _ _ (born id r e p f) = refl

pub step-hooked : (e : Event) (s : Store) → (step e s).0.hooked ≡ s.hooked
unfolding step delete sweep
step-hooked (creates o now req) s = Birth-hooked s _ o _ (create-Birth o now req s)
step-hooked (gets now id) s = Move-hooked id s _ _ (get-Move now id s)
step-hooked (approves now d id by g) s = Move-hooked id s _ _ (approve-Move now d id by g s)
step-hooked (denies now d id by m) s = Move-hooked id s _ _ (deny-Move now d id by m s)
step-hooked (cancels now d id) s = Move-hooked id s _ _ (cancel-Move now d id s)
step-hooked (deletes id) s = ground arith
step-hooked (sweeps clock) s = refl
