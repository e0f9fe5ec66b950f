-- ===== src/Approval/Heap/Views.antt =====
-- approval/store.go: what the records of a store read as through their pointers.
use authzen.Base.{
  ℕ, Bool, true, false, ◌&&◌, not, ◌||◌, ◌==◌, ==_iff, List, [], ◌∷◌, Option, none, some, Text,
  text_eq, suc, find, put, drop_key, length, ◌≡◌, refl, sym, ap, inl, inr, Bool-cases, arith,
  some_injective, subst,
}
use authzen.Approval.Types.{Approval}
use authzen.Approval.Store.{Entry, Store}
use authzen.Approval.Heap.{Slot, Heap, update, entry_of}
use authzen.Approval.Heap.Events.{holds, distinct}

abbrev pub view_slots : (ℕ → Approval) → List (Text × Slot) → List (Text × Entry)
view_slots cells [] = []
view_slots cells ((id, t) ∷ m) = (id, entry_of cells t) ∷ view_slots cells m

-- The store with each approval in its record.
unfoldable pub view : Heap → Store
view h = record { items = view_slots h.cells h.slots; max_size = h.max_size; hooked = h.hooked }

abbrev pub view_found : (ℕ → Approval) → Option Slot → Option Entry
view_found cells none = none
view_found cells (some t) = some (entry_of cells t)

pub find-view_slots :
    (id : Text) (cells : ℕ → Approval) (m : List (Text × Slot))
    → find id (view_slots cells m) ≡ view_found cells (find id m)
unfolding find
find-view_slots id cells [] = refl
find-view_slots id cells ((j, t) ∷ m) = elim (Bool-cases (text_eq j id)) [
  | inl e ↦ rw (e) refl
  | inr e ↦ rw (e) (find-view_slots id cells m)
]

pub view_slots-put :
    (id : Text) (t : Slot) (cells : ℕ → Approval) (m : List (Text × Slot))
    → view_slots cells (put id t m) ≡ put id (entry_of cells t) (view_slots cells m)
unfolding put
view_slots-put id t cells [] = refl
view_slots-put id t cells ((j, u) ∷ m) = elim (Bool-cases (text_eq j id)) [
  | inl e ↦ rw (e) refl
  | inr e ↦ rw (e) (ap (λ v. (j, entry_of cells u) ∷ v) (view_slots-put id t cells m))
]

pub view_slots-drop_key :
    (id : Text) (cells : ℕ → Approval) (m : List (Text × Slot))
    → view_slots cells (drop_key id m) ≡ drop_key id (view_slots cells m)
unfolding drop_key
view_slots-drop_key id cells [] = refl
view_slots-drop_key id cells ((j, u) ∷ m) = elim (Bool-cases (text_eq j id)) [
  | inl e ↦ rw (e) (view_slots-drop_key id cells m)
  | inr e ↦ rw (e) (ap (λ v. (j, entry_of cells u) ∷ v) (view_slots-drop_key id cells m))
]

pub length-view_slots :
    (cells : ℕ → Approval) (m : List (Text × Slot)) → length (view_slots cells m) ≡ length m
length-view_slots cells [] = refl
length-view_slots cells ((j, u) ∷ m) = ap suc (length-view_slots cells m)

pub neither : (a b : Bool) → (a || b) ≡ false → (a ≡ false) × (b ≡ false)
neither a b h = ground arith

pub both_hold : (a b : Bool) → (not a && b) ≡ true → (a ≡ false) × (b ≡ true)
both_hold a b h = ground arith

pub update-same : (f : ℕ → Approval) (p : ℕ) (a : Approval) → update f p a p ≡ a
update-same f p a = rw ((==_iff p p).1 refl) refl

pub update-other :
    (f : ℕ → Approval) (p q : ℕ) (a : Approval) → (p == q) ≡ false → update f p a q ≡ f q
update-other f p q a h = rw (h) refl

==_flip : (p q : ℕ) → (p == q) ≡ false → (q == p) ≡ false
==_flip p q h = ground arith

-- A write through a pointer that no record holds changes no record.
pub view_slots-away :
    (p : ℕ) (a : Approval) (cells : ℕ → Approval) (m : List (Text × Slot))
    → holds p m ≡ false
    → view_slots (update cells p a) m ≡ view_slots cells m
unfolding holds
view_slots-away p a cells [] h = refl
view_slots-away p a cells ((j, u) ∷ m) h =
    let (one, rest) = neither (u.pointer == p) (holds p m) h in
    rw (==_flip u.pointer p one, view_slots-away p a cells m rest) refl

holds-found :
    (id : Text) (t : Slot) (m : List (Text × Slot)) → find id m ≡ some t → holds t.pointer m ≡ true
unfolding find holds
holds-found id t [] f = cc
holds-found id t ((j, u) ∷ m) f = elim (Bool-cases (text_eq j id)) [
  | inl e ↦
      let same = some_injective (rw (e, find) at f) in
      rw (sym same, (==_iff u.pointer u.pointer).1 refl) refl
  | inr e ↦ rw (holds-found id t m (rw (e, find) at f)) (ground arith)
]

apart :
    (id : Text) (t u : Slot) (m : List (Text × Slot))
    → holds u.pointer m ≡ false
    → find id m ≡ some t
    → (t.pointer == u.pointer) ≡ false
apart id t u m h f = elim (Bool-cases (t.pointer == u.pointer)) [
  | inr e ↦ e
  | inl e ↦
      let there : holds u.pointer m ≡ true =
        subst (λ q. holds q m ≡ true) ((==_iff t.pointer u.pointer).0 e) (holds-found id t m f) in
      cc
]

write-head :
    (j : Text) (u : Slot) (a : Approval) (cells : ℕ → Approval) (m : List (Text × Slot))
    → holds u.pointer m ≡ false
    → view_slots (update cells u.pointer a) ((j, u) ∷ m)
      ≡ (j, record { approval = a; created_at = u.created_at }) ∷ view_slots cells m
write-head j u a cells m h =
    rw ((==_iff u.pointer u.pointer).1 refl, view_slots-away u.pointer a cells m h) refl

-- A write through the pointer of a record, where no two share one, changes that record alone.
pub view_slots-write :
    (id : Text) (t : Slot) (a : Approval) (cells : ℕ → Approval) (m : List (Text × Slot))
    → distinct m ≡ true
    → find id m ≡ some t
    → view_slots (update cells t.pointer a) m
      ≡ put id (record { approval = a; created_at = t.created_at }) (view_slots cells m)
unfolding distinct find put
view_slots-write id t a cells [] d f = cc
view_slots-write id t a cells ((j, u) ∷ m) d f =
    let (away, rest) = both_hold (holds u.pointer m) (distinct m) d in
    elim (Bool-cases (text_eq j id)) [
      | inl e ↦
          let same = some_injective (rw (e, find) at f) in
          rw (e) (
            subst
              (λ w.
                view_slots (update cells w.pointer a) ((j, u) ∷ m)
                ≡ (j, record { approval = a; created_at = w.created_at }) ∷ view_slots cells m)
              same (write-head j u a cells m away))
      | inr e ↦
          let found : find id m ≡ some t = rw (e, find) at f in
          rw (e, apart id t u m away found, view_slots-write id t a cells m rest found) refl
    ]

pub holds-put :
    (q : ℕ) (id : Text) (t : Slot) (m : List (Text × Slot))
    → holds q m ≡ false
    → (t.pointer == q) ≡ false
    → holds q (put id t m) ≡ false
unfolding holds put
holds-put q id t [] h e = rw (e) refl
holds-put q id t ((j, u) ∷ m) h e =
    let (one, rest) = neither (u.pointer == q) (holds q m) h in
    elim (Bool-cases (text_eq j id)) [
      | inl k ↦ rw (k, e, rest) refl
      | inr k ↦ rw (k, one, holds-put q id t m rest e) refl
    ]

pub distinct-put :
    (id : Text) (t : Slot) (m : List (Text × Slot))
    → distinct m ≡ true
    → holds t.pointer m ≡ false
    → distinct (put id t m) ≡ true
unfolding holds put distinct
distinct-put id t [] d h = refl
distinct-put id t ((j, u) ∷ m) d h =
    let (one, rest) = neither (u.pointer == t.pointer) (holds t.pointer m) h in
    let (away, more) = both_hold (holds u.pointer m) (distinct m) d in
    elim (Bool-cases (text_eq j id)) [
      | inl k ↦ rw (k, rest, more) refl
      | inr k ↦
          rw
            (
              k,
              holds-put u.pointer id t m away (==_flip u.pointer t.pointer one),
              distinct-put id t m more rest,
            )
            refl
    ]

holds-drop_key :
    (q : ℕ) (id : Text) (m : List (Text × Slot))
    → holds q m ≡ false
    → holds q (drop_key id m) ≡ false
unfolding holds drop_key
holds-drop_key q id [] h = refl
holds-drop_key q id ((j, u) ∷ m) h =
    let (one, rest) = neither (u.pointer == q) (holds q m) h in
    elim (Bool-cases (text_eq j id)) [
      | inl k ↦ rw (k, holds-drop_key q id m rest) refl
      | inr k ↦ rw (k, one, holds-drop_key q id m rest) refl
    ]

pub distinct-drop_key :
    (id : Text) (m : List (Text × Slot)) → distinct m ≡ true → distinct (drop_key id m) ≡ true
unfolding distinct drop_key
distinct-drop_key id [] d = refl
distinct-drop_key id ((j, u) ∷ m) d =
    let (away, more) = both_hold (holds u.pointer m) (distinct m) d in
    elim (Bool-cases (text_eq j id)) [
      | inl k ↦ rw (k, distinct-drop_key id m more) refl
      | inr k ↦ rw (k, holds-drop_key u.pointer id m away, distinct-drop_key id m more) refl
    ]
