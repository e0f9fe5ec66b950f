-- ===== src/Approval/Counts.antt =====
-- approval/store.go: how often a method reports an approval to OnResolve, against the approvals
-- that it leaves open.
use authzen.Base.{
  ℕ, ◌+◌, true, false, List, [], ◌∷◌, ◌++◌, Option, none, some, Text, text_eq, find, find-put, ◌≡◌,
  refl, inl, inr, arith, Bool-cases, if◌then◌else◌,
}
use authzen.Approval.Types.{terminal, Approval}
use authzen.Approval.Store.{Entry, Store, fire, set_entry}
use authzen.Approval.Moves.{Move, idle, same, resolves}
use authzen.Approval.Keyed.{Keyed, Keyed-find, same_key}

-- How many of the reported approvals have the id x.
unfoldable pub reports : Text → List Approval → ℕ
reports x [] = 0
reports x (a ∷ l) = if text_eq a.id x then reports x l + 1 else reports x l

-- 1 for a record whose approval is not decided, 0 otherwise.
unfoldable pub open_count : Option Entry → ℕ
open_count none = 0
open_count (some r) = if terminal r.approval.status then 0 else 1

unfoldable pub open_in : Text → Store → ℕ
open_in x s = open_count (find x s.items)

pub reports-++ : (x : Text) (k l : List Approval) → reports x (k ++ l) ≡ reports x k + reports x l
unfolding reports
reports-++ x [] l = omega arith
reports-++ x (a ∷ k) l = ground (arith, reports-++ x k l)

pub open_in-put :
    (x id : Text) (r : Entry) (s : Store)
    → open_in x (set_entry id r s) ≡ (if text_eq id x then open_count (some r) else open_in x s)
unfolding open_in
open_in-put x id r s = rw (find-put id x r s.items) (ground arith)

reports-fire :
    (x : Text) (a : Approval) → reports x (fire true (some a)) ≡ (if text_eq a.id x then 1 else 0)
unfolding reports fire
reports-fire x a = ground arith

pub open_in-found :
    (x id : Text) (r : Entry) (s : Store)
    → find id s.items ≡ some r
    → text_eq id x ≡ true
    → open_in x s ≡ open_count (some r)
unfolding open_in
open_in-found x id r s f e = rw (same_key id x e, f) refl

pub open_count-open : (r : Entry) → terminal r.approval.status ≡ false → open_count (some r) ≡ 1
unfolding open_count
open_count-open r h = rw (h) refl

pub open_count-terminal : (r : Entry) → terminal r.approval.status ≡ true → open_count (some r) ≡ 0
unfolding open_count
open_count-terminal r h = rw (h) refl

pub open_count-none : open_count none ≡ 0
unfolding open_count
open_count-none = refl

reports-nil : (x : Text) (n : ℕ) → reports x [] + n ≡ n
unfolding reports
reports-nil x n = omega arith

same-reports :
    (x id : Text) (r : Entry) (s : Store)
    → find id s.items ≡ some r
    → open_in x (set_entry id r s) ≡ open_in x s
same-reports x id r s f = rw (open_in-put x id r s) (elim (Bool-cases (text_eq id x)) [
  | inl e ↦ rw (e, open_in-found x id r s f e) refl
  | inr e ↦ rw (e) refl
])

resolved-reports :
    (x id : Text) (r : Entry) (a : Approval) (s : Store)
    → find id s.items ≡ some r
    → terminal r.approval.status ≡ false
    → terminal a.status ≡ true
    → a.id ≡ id
    → reports x (fire true (some a)) + open_in x (set_entry id (record r { approval = a }) s)
      ≡ open_in x s
unfolding open_count
resolved-reports x id r a s f o t e =
    rw (reports-fire x a, open_in-put x id (record r { approval = a }) s, e)
      (elim (Bool-cases (text_eq id x)) [
        | inl h ↦
            rw
              (
                h,
                open_in-found x id r s f h,
                open_count-terminal (record r { approval = a }) t,
                open_count-open r o,
              )
              refl
        | inr h ↦ rw (h) (omega arith)
      ])

id_of :
    (id : Text) (r : Entry) (a : Approval) (s : Store)
    → Keyed s.items
    → find id s.items ≡ some r
    → a.id ≡ r.approval.id
    → a.id ≡ id
id_of id r a s w f e = rw (e) (Keyed-find id r s.items w f)

-- With a hook, what a call reports and what it leaves open is what was open.
pub Move-reports :
    (x id : Text) (s t : Store) (l : List Approval)
    → Keyed s.items
    → Move id s t l
    → s.hooked ≡ true
    → reports x l + open_in x t ≡ open_in x s
unfolding open_in
Move-reports x id s _ _ w idle h = reports-nil x (open_in x s)
Move-reports x id s _ _ w (same r f) h = rw (same-reports x id r s f) (reports-nil x (open_in x s))
Move-reports x id s _ _ w (resolves r a f o t e) h =
    rw (h) (resolved-reports x id r a s f o t (id_of id r a s w f e))
