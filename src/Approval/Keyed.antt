-- ===== src/Approval/Keyed.antt =====
-- approval/store.go: the shape that every method keeps of the map of records: each key once, and
-- each record under the id of its approval.
use authzen.Base.{
  true, false, List, [], ◌∷◌, none, some, Text, text_eq, text_eq_iff, find, put, drop_key, find-put,
  find-drop_key, ◌≡◌, refl, inl, inr, arith, Bool-cases,
}
use authzen.Approval.Types.{Approval}
use authzen.Approval.Store.{Entry, Store}
use authzen.Approval.Moves.{Move, idle, same, resolves}

pub data Keyed : List (Text × Entry) → Type 0 where
  keyed_[] : Keyed []
  keyed_∷ :
      (k : Text) (r : Entry) (m : List (Text × Entry))
      → r.approval.id ≡ k
      → find k m ≡ none
      → Keyed m
      → Keyed ((k, r) ∷ m)

pub Keyed-find :
    (k : Text) (r : Entry) (m : List (Text × Entry))
    → Keyed m
    → find k m ≡ some r
    → r.approval.id ≡ k
unfolding find
Keyed-find k r _ keyed_[] h = cc
Keyed-find k r _ (keyed_∷ j u m e f w) h = ground (arith, text_eq_iff j k, Keyed-find k r m w)

find_[] : (k : Text) → find {V = Entry} k [] ≡ none
unfolding find
find_[] k = refl

pub same_key : (j k : Text) → text_eq j k ≡ true → k ≡ j
same_key j k h = ground (arith, text_eq_iff j k)

other_key : (j k : Text) → text_eq j k ≡ false → text_eq k j ≡ false
other_key j k h = ground (arith, text_eq_iff j k, text_eq_iff k j)

find-put_other :
    (k j : Text) (r : Entry) (m : List (Text × Entry))
    → text_eq k j ≡ false
    → find j m ≡ none
    → find j (put k r m) ≡ none
find-put_other k j r m e h = rw (find-put k j r m, e) h

pub put-Keyed :
    (k : Text) (r : Entry) (m : List (Text × Entry))
    → r.approval.id ≡ k
    → Keyed m
    → Keyed (put k r m)
unfolding put
put-Keyed k r _ e keyed_[] = keyed_∷ k r [] e (find_[] k) keyed_[]
put-Keyed k r _ e (keyed_∷ j u m f g w) = elim (Bool-cases (text_eq j k)) [
  | inl h ↦ rw (h) (keyed_∷ j r m (rw (e) (same_key j k h)) g w)
  | inr h ↦
      rw (h) (
        keyed_∷ j u (put k r m) f (find-put_other k j r m (other_key j k h) g)
          (put-Keyed k r m e w))
]

find_drop_other :
    (k j : Text) (m : List (Text × Entry)) → find j m ≡ none → find j (drop_key k m) ≡ none
find_drop_other k j m h = rw (find-drop_key k j m) (ground arith)

pub drop_key-Keyed : (k : Text) (m : List (Text × Entry)) → Keyed m → Keyed (drop_key k m)
unfolding drop_key
drop_key-Keyed k _ keyed_[] = keyed_[]
drop_key-Keyed k _ (keyed_∷ j u m f g w) = elim (Bool-cases (text_eq j k)) [
  | inl h ↦ rw (h) (drop_key-Keyed k m w)
  | inr h ↦ rw (h) (keyed_∷ j u (drop_key k m) f (find_drop_other k j m g) (drop_key-Keyed k m w))
]

pub Move-Keyed :
    (id : Text) (s t : Store) (l : List Approval) → Keyed s.items → Move id s t l → Keyed t.items
Move-Keyed id s _ _ w idle = w
Move-Keyed id s _ _ w (same r f) = put-Keyed id r s.items (Keyed-find id r s.items w f) w
Move-Keyed id s _ _ w (resolves r a f o t e) =
    put-Keyed id (record r { approval = a }) s.items (rw (e) (Keyed-find id r s.items w f)) w
