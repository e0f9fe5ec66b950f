-- ===== src/Approval/Sweeping.antt =====
-- approval/store.go: what Sweep removes, keeps and reports.
use authzen.Base.{
  suc, ℕ, ◌+◌, Bool, true, false, List, [], ◌∷◌, Option, none, Text, text_eq, find, ◌≡◌, refl, ◌⊎◌,
  inl, inr, arith, Bool-cases, length, ℤ,
}
use authzen.Approval.Clone.{clone_lem}
use authzen.Approval.Types.{terminal, Approval}
use authzen.Approval.Store.{Entry, expire, is_pending}
use authzen.Approval.Records.{Swept, sweep_items, expire_pending, sweep_entry}
use authzen.Approval.Expiry.{did_expire, fires}
use authzen.Approval.Moves.{lapse, expire-cases, not_terminal-is_pending}
use authzen.Approval.Keyed.{Keyed, keyed_[], keyed_∷, same_key}
use authzen.Approval.Counts.{reports, open_count}

-- What Sweep finds in one record: nothing to do, a decided one, or a pending one that lapses.
pub data Found (now : ℤ) (r : Entry) : Entry × Bool → Type 0 where
  stays :
      terminal r.approval.status ≡ false
      → did_expire (expire now r) ≡ false
      → Found now r (r, false)
  decided : terminal r.approval.status ≡ true → Found now r (r, false)
  lapses :
      terminal r.approval.status ≡ false
      → did_expire (expire now r) ≡ true
      → Found now r (lapse r, true)

expire-idle :
    (now : ℤ) (r : Entry) → is_pending r.approval.status ≡ false → did_expire (expire now r) ≡ false
expire-idle now r h = rw (fires now r, h) refl

pub expire_pending-Found : (now : ℤ) (r : Entry) → Found now r (expire_pending now r)
unfolding expire_pending
expire_pending-Found now r = elim (Bool-cases (is_pending r.approval.status)) [
  | inr p ↦ rw (p) (elim (Bool-cases (terminal r.approval.status)) [
    | inl t ↦ decided t
    | inr t ↦ stays t (expire-idle now r p)
  ])
  | inl p ↦ rw (p) (elim (expire-cases now r) [
    | inl e ↦ rw (e) (stays (not_terminal-is_pending r.approval.status p) (rw (e) refl))
    | inr (q, e) ↦ rw (e) (lapses (not_terminal-is_pending r.approval.status p) (rw (e) refl))
  ])
]

kept_none :
    (now : ℤ) (x k : Text) (r : Entry) (f : Entry × Bool) (rest : Swept)
    → Found now r f
    → text_eq k x ≡ false
    → find x rest.kept ≡ none
    → find x (sweep_entry k f rest).kept ≡ none
unfolding sweep_entry find terminal
kept_none now x k r _ rest (stays t e) h n = rw (t, h) n
kept_none now x k r _ rest (decided t) h n = rw (t) n
kept_none now x k r _ rest (lapses t e) h n = n

fresh_tail :
    (x k : Text) (r : Entry) (m : List (Text × Entry))
    → find x ((k, r) ∷ m) ≡ none
    → (text_eq k x ≡ false) × (find x m ≡ none)
unfolding find
fresh_tail x k r m h = ground arith

pub sweep_items-none :
    (clock : Text → ℤ) (x : Text) (m : List (Text × Entry))
    → find x m ≡ none
    → find x (sweep_items clock m).kept ≡ none
unfolding sweep_items
sweep_items-none clock x [] h = h
sweep_items-none clock x ((k, r) ∷ m) h =
    let (e, n) = fresh_tail x k r m h in
    kept_none (clock k) x k r (expire_pending (clock k) r) (sweep_items clock m)
      (expire_pending-Found (clock k) r) e (sweep_items-none clock x m n)

kept-Keyed :
    (now : ℤ) (k : Text) (r : Entry) (f : Entry × Bool) (rest : Swept)
    → Found now r f
    → r.approval.id ≡ k
    → find k rest.kept ≡ none
    → Keyed rest.kept
    → Keyed (sweep_entry k f rest).kept
unfolding sweep_entry terminal
kept-Keyed now k r _ rest (stays t e) h n w = rw (t) (keyed_∷ k r rest.kept h n w)
kept-Keyed now k r _ rest (decided t) h n w = rw (t) w
kept-Keyed now k r _ rest (lapses t e) h n w = w

pub sweep_items-Keyed :
    (clock : Text → ℤ) (m : List (Text × Entry)) → Keyed m → Keyed (sweep_items clock m).kept
unfolding sweep_items
sweep_items-Keyed clock _ keyed_[] = keyed_[]
sweep_items-Keyed clock _ (keyed_∷ k r m h n w) =
    kept-Keyed (clock k) k r (expire_pending (clock k) r) (sweep_items clock m)
      (expire_pending-Found (clock k) r) h (sweep_items-none clock k m n)
      (sweep_items-Keyed clock m w)

kept-length :
    (now : ℤ) (k : Text) (r : Entry) (f : Entry × Bool) (rest : Swept) (n : ℕ)
    → Found now r f
    → length rest.kept + rest.removed ≡ n
    → length (sweep_entry k f rest).kept + (sweep_entry k f rest).removed ≡ suc n
unfolding sweep_entry terminal
kept-length now k r _ rest n (stays t e) h = rw (t) (omega arith)
kept-length now k r _ rest n (decided t) h = rw (t) (omega arith)
kept-length now k r _ rest n (lapses t e) h = omega arith

pub sweep_items-length :
    (clock : Text → ℤ) (m : List (Text × Entry))
    → length (sweep_items clock m).kept + (sweep_items clock m).removed ≡ length m
unfolding sweep_items
sweep_items-length clock [] = refl
sweep_items-length clock ((k, r) ∷ m) =
    kept-length (clock k) k r (expire_pending (clock k) r) (sweep_items clock m) (length m)
      (expire_pending-Found (clock k) r) (sweep_items-length clock m)

drop_zero : (n : ℕ) → n + 0 ≡ 0 → n ≡ 0
drop_zero n h = omega arith

-- The tail of a map without x, before and after the sweep.
no_reports :
    (x : Text) (l : List Approval) (o p : Option Entry)
    → o ≡ none
    → p ≡ none
    → reports x l + open_count o ≡ open_count p
    → reports x l ≡ 0
unfolding open_count
no_reports x l o p e f h = drop_zero (reports x l) (rw (e, f) at h)

swept-reports :
    (now : ℤ) (x k : Text) (r : Entry) (f : Entry × Bool) (rest : Swept) (m : List (Text × Entry))
    → Found now r f
    → r.approval.id ≡ k
    → (text_eq k x ≡ true → find x m ≡ none)
    → (text_eq k x ≡ true → find x rest.kept ≡ none)
    → reports x rest.resolved + open_count (find x rest.kept) ≡ open_count (find x m)
    → (text_eq k x ≡ true) ⊎ (text_eq k x ≡ false)
    → reports x (sweep_entry k f rest).resolved + open_count (find x (sweep_entry k f rest).kept)
      ≡ open_count (find x ((k, r) ∷ m))
unfolding sweep_entry terminal reports open_count find
swept-reports now x k r _ rest m (stays t e) h p q j (inr c) = rw (t, c) j
swept-reports now x k r _ rest m (stays t e) h p q j (inl c) =
    rw (t, c, no_reports x rest.resolved _ _ (q c) (p c) j) (rw (t) refl)
swept-reports now x k r _ rest m (decided t) h p q j (inr c) = rw (t, c) j
swept-reports now x k r _ rest m (decided t) h p q j (inl c) =
    rw (t, c, no_reports x rest.resolved _ _ (q c) (p c) j, q c) (rw (t) refl)
swept-reports now x k r _ rest m (lapses t e) h p q j (inr c) =
    rw (clone_lem (lapse r).approval, h, c) j
swept-reports now x k r _ rest m (lapses t e) h p q j (inl c) =
    rw (clone_lem (lapse r).approval, h, c, no_reports x rest.resolved _ _ (q c) (p c) j, q c, t)
      refl

pub at_key :
    {A : Type 0} (x k : Text) (g : Text → Option A) → g k ≡ none → text_eq k x ≡ true → g x ≡ none
at_key x k g n c = rw (same_key k x c) n

pub sweep_items-reports :
    (clock : Text → ℤ) (x : Text) (m : List (Text × Entry))
    → Keyed m
    → reports x (sweep_items clock m).resolved + open_count (find x (sweep_items clock m).kept)
      ≡ open_count (find x m)
unfolding sweep_items open_count reports find
sweep_items-reports clock x _ keyed_[] = refl
sweep_items-reports clock x _ (keyed_∷ k r m h n w) =
    swept-reports (clock k) x k r (expire_pending (clock k) r) (sweep_items clock m) m
      (expire_pending-Found (clock k) r) h (at_key x k (λ y. find y m) n)
      (at_key x k (λ y. find y (sweep_items clock m).kept) (sweep_items-none clock k m n))
      (sweep_items-reports clock x m w) (Bool-cases (text_eq k x))
