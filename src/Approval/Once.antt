-- ===== src/Approval/Once.antt =====
-- approval/store.go: how often OnResolve hears of an approval, over any calls.
use authzen.Base.{
  ℕ, ◌+◌, ◌≤◌, Bool, true, false, List, [], ◌∷◌, Option, some, Text, text_eq, find, drop_key,
  find-drop_key, is_some, ◌≡◌, refl, inl, inr, arith, Bool-cases, if◌then◌else◌, ℤ, ◌&&◌, not,
}
use authzen.Approval.Types.{Approval}
use authzen.Approval.Store.{Entry, Store}
use authzen.Approval.Records.{delete}
use authzen.Approval.Moves.{get-Move}
use authzen.Approval.Decisions.{approve-Move, deny-Move, cancel-Move}
use authzen.Approval.Births.{Birth, none_born, born, create-Birth}
use authzen.Approval.Keyed.{Keyed, same_key}
use authzen.Approval.Counts.{reports, open_count, open_in, reports-++, Move-reports, open_in-put}
use authzen.Approval.Remains.{sweep-reports}
use authzen.Approval.Events.{
  Event, creates, gets, approves, denies, cancels, deletes, sweeps, step, run, births, births_in,
}
use authzen.Approval.Invariants.{step-Keyed, step-hooked}

both : (a b : Bool) → (a && b) ≡ true → (a ≡ true) × (b ≡ true)
both a b h = ground arith

open_in-drop :
    (x id : Text) (s : Store)
    → open_in x (record s { items = drop_key id s.items })
      ≡ (if text_eq id x then 0 else open_in x s)
unfolding open_in open_count
open_in-drop x id s = rw (find-drop_key id x s.items) (ground arith)

absent :
    (x id : Text) (s : Store)
    → is_some (find id s.items) ≡ false
    → text_eq id x ≡ true
    → open_in x s ≡ 0
unfolding open_in open_count
absent x id s h c = rw (same_key id x c) (ground arith)

open_in-delete :
    (x id : Text) (s : Store)
    → open_in x (delete id s).store ≡ (if text_eq id x then 0 else open_in x s)
unfolding delete
open_in-delete x id s = elim (Bool-cases (is_some (find id s.items))) [
  | inl e ↦ rw (e) (open_in-drop x id s)
  | inr e ↦ rw (e) (elim (Bool-cases (text_eq id x)) [
    | inl c ↦ rw (c) (absent x id s e c)
    | inr c ↦ rw (c) refl
  ])
]

delete-fired : (id : Text) (s : Store) → (delete id s).fired ≡ []
unfolding delete
delete-fired id s = ground arith

-- Neither the registration of an approval under x nor its removal by Delete.
unfoldable pub leaves : Text → Event → Bool
leaves x (creates (some id) now req) = not (text_eq id x)
leaves x (deletes id) = not (text_eq id x)
leaves x _ = true

unfoldable pub all_leave : Text → List Event → Bool
all_leave x [] = true
all_leave x (e ∷ es) = leaves x e && all_leave x es

open_count-one : (r : Entry) → open_count (some r) ≤ 1
unfolding open_count
open_count-one r = ground arith

Birth-reports :
    (x : Text) (s t : Store) (o : Option Text) (l : List Approval) (now : ℤ) (req : Option Approval)
    → Birth s o t l
    → reports x l + open_in x t ≤ open_in x s + births x (creates o now req)
unfolding reports births
Birth-reports x s _ _ _ now req (none_born o) = omega arith
Birth-reports x s _ _ _ now req (born id r e p f) =
    rw (open_in-put x id r s) (ground (arith, open_count-one r))

Birth-elsewhere :
    (x : Text) (s t : Store) (o : Option Text) (l : List Approval) (now : ℤ) (req : Option Approval)
    → Birth s o t l
    → leaves x (creates o now req) ≡ true
    → reports x l + open_in x t ≡ open_in x s
unfolding reports leaves
Birth-elsewhere x s _ _ _ now req (none_born o) h = omega arith
Birth-elsewhere x s _ _ _ now req (born id r e p f) h = rw (open_in-put x id r s) (ground arith)

no_report : (x : Text) (l : List Approval) → l ≡ [] → reports x l ≡ 0
unfolding reports
no_report x _ e = rw (e) refl

pub step-elsewhere :
    (x : Text) (e : Event) (s : Store)
    → Keyed s.items
    → s.hooked ≡ true
    → leaves x e ≡ true
    → reports x (step e s).1 + open_in x (step e s).0 ≡ open_in x s
unfolding step leaves
step-elsewhere x (creates o now req) s w h q =
    Birth-elsewhere x s _ o _ now req (create-Birth o now req s) q
step-elsewhere x (gets now id) s w h q = Move-reports x id s _ _ w (get-Move now id s) h
step-elsewhere x (approves now d id by g) s w h q =
    Move-reports x id s _ _ w (approve-Move now d id by g s) h
step-elsewhere x (denies now d id by m) s w h q =
    Move-reports x id s _ _ w (deny-Move now d id by m s) h
step-elsewhere x (cancels now d id) s w h q = Move-reports x id s _ _ w (cancel-Move now d id s) h
step-elsewhere x (deletes id) s w h q =
    rw (open_in-delete x id s, no_report x (delete id s).fired (delete-fired id s)) (ground arith)
step-elsewhere x (sweeps clock) s w h q = sweep-reports clock x s w h

eq_bound : (a b n : ℕ) → a ≡ b → a ≤ b + n
eq_bound a b n e = omega arith

delete-bound :
    (x id : Text) (s : Store)
    → reports x (delete id s).fired + open_in x (delete id s).store ≤ open_in x s + 0
delete-bound x id s =
    rw (open_in-delete x id s, no_report x (delete id s).fired (delete-fired id s)) (ground arith)

elsewhere-bound :
    (x : Text) (e : Event) (s : Store)
    → Keyed s.items
    → s.hooked ≡ true
    → leaves x e ≡ true
    → reports x (step e s).1 + open_in x (step e s).0 ≤ open_in x s + births x e
elsewhere-bound x e s w h q = eq_bound _ _ (births x e) (step-elsewhere x e s w h q)

pub step-bound :
    (x : Text) (e : Event) (s : Store)
    → Keyed s.items
    → s.hooked ≡ true
    → reports x (step e s).1 + open_in x (step e s).0 ≤ open_in x s + births x e
unfolding step births leaves
step-bound x (creates o now req) s w h = Birth-reports x s _ o _ now req (create-Birth o now req s)
step-bound x (deletes id) s w h = delete-bound x id s
step-bound x (gets now id) s w h = elsewhere-bound x (gets now id) s w h refl
step-bound x (approves now d id by g) s w h = elsewhere-bound x (approves now d id by g) s w h refl
step-bound x (denies now d id by m) s w h = elsewhere-bound x (denies now d id by m) s w h refl
step-bound x (cancels now d id) s w h = elsewhere-bound x (cancels now d id) s w h refl
step-bound x (sweeps clock) s w h = elsewhere-bound x (sweeps clock) s w h refl

chain : (a b c p q r m : ℕ) → a + p ≤ q + m → b + r ≤ p + c → (a + b) + r ≤ q + (m + c)
chain a b c p q r m h k = omega arith

chain_eq : (a b p q r : ℕ) → a + p ≡ q → b + r ≡ p → (a + b) + r ≡ q
chain_eq a b p q r h k = omega arith

next_hooked : (e : Event) (s : Store) → s.hooked ≡ true → (step e s).0.hooked ≡ true
next_hooked e s h = rw (step-hooked e s) h

-- Whatever calls a store takes, in any order, if it has a hook and each record under its own id:
-- the reports of an approval and its being open at the end are together at most its being open at
-- the start and its registrations. So one registration leads to one report at most.
pub run-reports :
    (x : Text) (es : List Event) (s : Store)
    → Keyed s.items
    → s.hooked ≡ true
    → reports x (run es s).1 + open_in x (run es s).0 ≤ open_in x s + births_in x es
unfolding run reports births_in
run-reports x [] s w h = omega arith
run-reports x (e ∷ es) s w h = rw (reports-++ x (step e s).1 (run es (step e s).0).1) (
    chain _ _ _ _ _ _ _ (step-bound x e s w h)
      (run-reports x es (step e s).0 (step-Keyed e s w) (next_hooked e s h)))

-- In a store with a hook that has each record under its own id, while an approval is neither
-- registered again nor deleted, whatever else is called: one that was open is still open and was
-- never reported, or is no longer open and was reported exactly once; one that was not open is not
-- reported.
pub run-reports_exact :
    (x : Text) (es : List Event) (s : Store)
    → Keyed s.items
    → s.hooked ≡ true
    → all_leave x es ≡ true
    → reports x (run es s).1 + open_in x (run es s).0 ≡ open_in x s
unfolding run reports all_leave
run-reports_exact x [] s w h q = omega arith
run-reports_exact x (e ∷ es) s w h q =
    let (a, b) = both (leaves x e) (all_leave x es) q in
    rw (reports-++ x (step e s).1 (run es (step e s).0).1) (
      chain_eq _ _ _ _ _ (step-elsewhere x e s w h a)
        (run-reports_exact x es (step e s).0 (step-Keyed e s w) (next_hooked e s h) b))
