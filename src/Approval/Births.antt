-- ===== src/Approval/Births.antt =====
-- approval/store.go, Create: the new record, or none.
use authzen.Base.{false, List, [], Option, none, some, Text, ◌≡◌, refl, inl, inr, Bool-cases, ℤ}
use authzen.Approval.Types.{Approval, pending}
use authzen.Approval.Store.{Entry, Store, set_entry}
use authzen.Approval.Records.{create, register, fill_in, is_full, or_empty}

-- A call of Create leaves the store as it is, or adds a pending record under the new id, where
-- there is room.
pub data Birth (s : Store) : Option Text → Store → List Approval → Type 0 where
  none_born : (o : Option Text) → Birth s o s []
  born :
      (id : Text) (r : Entry)
      → r.approval.id ≡ id
      → r.approval.status ≡ pending
      → is_full s ≡ false
      → Birth s (some id) (set_entry id r s) []

register-Birth :
    (now : ℤ) (id : Text) (a : Approval) (s : Store)
    → a.id ≡ id
    → a.status ≡ pending
    → Birth s (some id) (register now id a s).store (register now id a s).fired
unfolding register
register-Birth now id a s e p = elim (Bool-cases (is_full s)) [
  | inl f ↦ rw (f) (none_born (some id))
  | inr f ↦ rw (f) (born id (record { approval = a; created_at = now }) e p f)
]

pub create-Birth :
    (o : Option Text) (now : ℤ) (req : Option Approval) (s : Store)
    → Birth s o (create o now req s).store (create o now req s).fired
unfolding create fill_in
create-Birth none now req s = none_born none
create-Birth (some id) now req s = register-Birth now id (fill_in id (or_empty req)) s refl refl
