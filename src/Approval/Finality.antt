-- ===== src/Approval/Finality.antt =====
-- approval/store.go: what becomes of an approval once it is decided.
use authzen.Base.{
  ℕ, ◌+◌, Bool, true, false, List, [], ◌∷◌, Option, none, some, Text, text_eq, find, find-put,
  find-drop_key, is_some, ◌≡◌, refl, ◌⊎◌, inl, inr, arith, Bool-cases, if◌then◌else◌, ℤ,
}
use authzen.Approval.Types.{Approval, terminal}
use authzen.Approval.Store.{Entry, Store}
use authzen.Approval.Expiry.{did_expire}
use authzen.Approval.Store.{expire}
use mathlib.Core.Bool.{◌||◌}
use authzen.Approval.Records.{delete, sweep}
use authzen.Approval.Moves.{Move, idle, same, resolves, get-Move}
use authzen.Approval.Decisions.{approve-Move, deny-Move, cancel-Move}
use authzen.Approval.Births.{Birth, none_born, born, create-Birth}
use authzen.Approval.Keyed.{Keyed, same_key}
use authzen.Approval.Counts.{open_count, open_in}
use authzen.Approval.Events.{
  Event, creates, gets, approves, denies, cancels, deletes, sweeps, step, run, births, births_in,
}
use authzen.Approval.Invariants.{step-Keyed}
use authzen.Approval.Counts.{open_in-found, open_count-open, open_count-terminal, open_count-none}
use authzen.Approval.Remains.{keep, sweep_items-find}

abbrev number : Bool → ℕ → ℕ → ℕ
number c a b = if c then a else b

pick_same : (c : Bool) (a b : Option Entry) → number c 1 0 ≡ 0 → (if c then a else b) ≡ b
pick_same true a b h = cc
pick_same false a b h = refl

pick_none :
    (c : Bool) (b : Option Entry) → ((if c then none else b) ≡ b) ⊎ ((if c then none else b) ≡ none)
pick_none true b = inr refl
pick_none false b = inl refl

out : (c d : Bool) (a : Option Entry) → number c 0 1 ≡ 0 → (if c || d then none else a) ≡ none
out true d a h = refl
out false d a h = cc

found_eq :
    (x id : Text) (r : Entry) (s : Store)
    → find id s.items ≡ some r
    → text_eq id x ≡ true
    → find x s.items ≡ some r
found_eq x id r s f c = rw (same_key id x c) f

Move-settled :
    (x id : Text) (s t : Store) (l : List Approval)
    → Move id s t l
    → open_in x s ≡ 0
    → find x t.items ≡ find x s.items
Move-settled x id s _ _ idle z = refl
Move-settled x id s _ _ (same r f) z =
    rw (find-put id x r s.items) (elim (Bool-cases (text_eq id x)) [
      | inl c ↦ rw (c, found_eq x id r s f c) refl
      | inr c ↦ rw (c) refl
    ])
Move-settled x id s _ _ (resolves r a f o t e) z =
    rw (find-put id x (record r { approval = a }) s.items) (elim (Bool-cases (text_eq id x)) [
      | inl c ↦ cc (rw (open_in-found x id r s f c, open_count-open r o) at z)
      | inr c ↦ rw (c) refl
    ])

Birth-settled :
    (x : Text) (s t : Store) (o : Option Text) (l : List Approval) (now : ℤ) (req : Option Approval)
    → Birth s o t l
    → births x (creates o now req) ≡ 0
    → find x t.items ≡ find x s.items
unfolding births
Birth-settled x s _ _ _ now req (none_born o) z = refl
Birth-settled x s _ _ _ now req (born id r e p f) z =
    rw (find-put id x r s.items) (pick_same (text_eq id x) (some r) (find x s.items) z)

delete-settled :
    (x id : Text) (s : Store)
    → (find x (delete id s).store.items ≡ find x s.items)
      ⊎ (find x (delete id s).store.items ≡ none)
unfolding delete
delete-settled x id s = elim (Bool-cases (is_some (find id s.items))) [
  | inr e ↦ rw (e) (inl refl)
  | inl e ↦ rw (e, find-drop_key id x s.items) (pick_none (text_eq id x) (find x s.items))
]

keep-settled : (now : ℤ) (o : Option Entry) → open_count o ≡ 0 → keep now o ≡ none
unfolding open_count
keep-settled now none h = refl
keep-settled now (some r) h =
    out (terminal r.approval.status) (did_expire (expire now r)) (some r) h

sweep-settled :
    (clock : Text → ℤ) (x : Text) (s : Store)
    → Keyed s.items
    → open_in x s ≡ 0
    → find x (sweep clock s).store.items ≡ none
unfolding sweep open_in
sweep-settled clock x s w z =
    rw (sweep_items-find clock x s.items w) (keep-settled (clock x) (find x s.items) z)

step-settled :
    (x : Text) (e : Event) (s : Store)
    → Keyed s.items
    → open_in x s ≡ 0
    → births x e ≡ 0
    → (find x (step e s).0.items ≡ find x s.items) ⊎ (find x (step e s).0.items ≡ none)
unfolding step
step-settled x (creates o now req) s w z b =
    inl (Birth-settled x s _ o _ now req (create-Birth o now req s) b)
step-settled x (gets now id) s w z b = inl (Move-settled x id s _ _ (get-Move now id s) z)
step-settled x (approves now d id by g) s w z b =
    inl (Move-settled x id s _ _ (approve-Move now d id by g s) z)
step-settled x (denies now d id by m) s w z b =
    inl (Move-settled x id s _ _ (deny-Move now d id by m s) z)
step-settled x (cancels now d id) s w z b = inl (Move-settled x id s _ _ (cancel-Move now d id s) z)
step-settled x (deletes id) s w z b = delete-settled x id s
step-settled x (sweeps clock) s w z b = inr (sweep-settled clock x s w z)

no_births : (a b : ℕ) → a + b ≡ 0 → (a ≡ 0) × (b ≡ 0)
no_births a b h = ground arith

as_found :
    (x : Text) (s : Store) (o : Option Entry)
    → find x s.items ≡ o
    → open_count o ≡ 0
    → open_in x s ≡ 0
unfolding open_in
as_found x s o f z = rw (f) z

settled_from :
    (x : Text) (es : List Event) (s : Store) (o : Option Entry)
    → Keyed s.items
    → find x s.items ≡ o
    → open_count o ≡ 0
    → births_in x es ≡ 0
    → (find x (run es s).0.items ≡ o) ⊎ (find x (run es s).0.items ≡ none)
unfolding run births_in
settled_from x [] s o w f z b = inl f
settled_from x (e ∷ es) s o w f z b =
    let (c, d) = no_births (births x e) (births_in x es) b in
    elim (step-settled x e s w (as_found x s o f z) c) [
      | inl h ↦ settled_from x es (step e s).0 o (step-Keyed e s w) (rw (h) f) z d
      | inr h ↦
          elim (settled_from x es (step e s).0 none (step-Keyed e s w) h (open_count-none) d) [
            | inl k ↦ inr k
            | inr k ↦ inr k
          ]
    ]

-- In a store that has each record under its own id, once the record of an id is decided, no calls
-- change it: while nothing is registered under the id again, it stays as it is until it is
-- removed.
pub run-settled :
    (x : Text) (r : Entry) (es : List Event) (s : Store)
    → Keyed s.items
    → find x s.items ≡ some r
    → terminal r.approval.status ≡ true
    → births_in x es ≡ 0
    → (find x (run es s).0.items ≡ some r) ⊎ (find x (run es s).0.items ≡ none)
run-settled x r es s w f t b = settled_from x es s (some r) w f (open_count-terminal r t) b
