-- ===== src/Approval/Remains.antt =====
-- approval/store.go: the records that Sweep leaves.
use authzen.Base.{
  ◌+◌, Bool, true, false, List, [], ◌∷◌, Option, none, some, Text, text_eq, find, ◌≡◌, refl,
  if◌then◌else◌, ℤ, ◌||◌, ◌↔◌,
}
use authzen.Approval.Types.{terminal, Approval}
use authzen.Approval.Store.{Entry, Store, fire, expire}
use authzen.Approval.Records.{
  len, Swept, sweep_items, sweep, expire_pending, sweep_entry, fire_each,
}
use authzen.Approval.Expiry.{did_expire}
use authzen.Approval.Keyed.{Keyed, keyed_[], keyed_∷, same_key}
use authzen.Approval.Counts.{reports, open_in}
use authzen.Approval.Sweeping.{
  Found, stays, decided, lapses, expire_pending-Found, sweep_items-none, at_key, sweep_items-length,
  sweep_items-reports, sweep_items-Keyed,
}

-- The record that a sweep at `now` leaves of one.
abbrev pub keep : ℤ → Option Entry → Option Entry
keep now none = none
keep now (some r) = if terminal r.approval.status || did_expire (expire now r) then none else some r

gone : (c : Bool) (u o : Option Entry) → (c ≡ true → u ≡ none) → u ≡ o → u ≡ (if c then none else o)
gone true u o q j = q refl
gone false u o q j = j

find-sweep_entry :
    (now : ℤ) (x k : Text) (r : Entry) (f : Entry × Bool) (rest : Swept) (o : Option Entry)
    → Found now r f
    → (text_eq k x ≡ true → find x rest.kept ≡ none)
    → find x rest.kept ≡ o
    → find x (sweep_entry k f rest).kept ≡ (if text_eq k x then keep now (some r) else o)
unfolding sweep_entry terminal find
find-sweep_entry now x k r _ rest o (stays t e) q j = rw (t, e, j) refl
find-sweep_entry now x k r _ rest o (decided t) q j =
    rw (t) (gone (text_eq k x) (find x rest.kept) o q j)
find-sweep_entry now x k r _ rest o (lapses t e) q j =
    rw (t, e) (gone (text_eq k x) (find x rest.kept) o q j)

at_own_time :
    (clock : Text → ℤ) (c : Bool) (x k : Text) (r : Entry) (o : Option Entry)
    → (c ≡ true → x ≡ k)
    → (if c then keep (clock k) (some r) else o) ≡ (if c then keep (clock x) (some r) else o)
at_own_time clock true x k r o e = rw (e refl) refl
at_own_time clock false x k r o e = refl

spread :
    (c : Bool) (now : ℤ) (r : Entry) (o : Option Entry)
    → (if c then keep now (some r) else keep now o) ≡ keep now (if c then some r else o)
spread true now r o = refl
spread false now r o = refl

pub sweep_items-find :
    (clock : Text → ℤ) (x : Text) (m : List (Text × Entry))
    → Keyed m
    → find x (sweep_items clock m).kept ≡ keep (clock x) (find x m)
unfolding sweep_items find
sweep_items-find clock x _ keyed_[] = refl
sweep_items-find clock x _ (keyed_∷ k r m h n w) =
    rw (← spread (text_eq k x) (clock x) r (find x m)) (
      rw (← at_own_time clock (text_eq k x) x k r (keep (clock x) (find x m)) (same_key k x)) (
        find-sweep_entry (clock k) x k r (expire_pending (clock k) r) (sweep_items clock m)
          (keep (clock x) (find x m)) (expire_pending-Found (clock k) r)
          (at_key x k (λ y. find y (sweep_items clock m).kept) (sweep_items-none clock k m n))
          (sweep_items-find clock x m w)))

passed :
    (a b : Bool) (u r : Entry)
    → (if a || b then none else some u) ≡ some r
    → (a ≡ false) × (b ≡ false) × (some u ≡ some r)
passed true b u r h = cc
passed false true u r h = cc
passed false false u r h = (refl, refl, h)

moved : (u r : Entry) (p : Entry → Bool) → some u ≡ some r → p u ≡ false → p r ≡ false
moved u r p e h = cc

keep_iff :
    (now : ℤ) (o : Option Entry) (r : Entry)
    → (keep now o ≡ some r)
      ↔ ((o ≡ some r) × (terminal r.approval.status ≡ false) × (did_expire (expire now r) ≡ false))
keep_iff now none r = (λ h. cc, λ h. cc h.0)
keep_iff now (some u) r = (
  λ h.
      let (a, b, e) = passed (terminal u.approval.status) (did_expire (expire now u)) u r h in
      (
        e,
        moved u r (λ v. terminal v.approval.status) e a,
        moved u r (λ v. did_expire (expire now v)) e b,
      ),
  λ (e, a, b).
      rw
        (
          moved r u (λ v. terminal v.approval.status) (rw (e) refl) a,
          moved r u (λ v. did_expire (expire now v)) (rw (e) refl) b,
        )
        e,
)

pub sweep-Keyed : (clock : Text → ℤ) (s : Store) → Keyed s.items → Keyed (sweep clock s).store.items
unfolding sweep
sweep-Keyed clock s w = sweep_items-Keyed clock s.items w

-- In a store that has each record under its own id, a sweep leaves the record of an id exactly when
-- it was there, is not decided, and has not lapsed when the sweep reads the clock.
pub sweep_iff :
    (clock : Text → ℤ) (x : Text) (r : Entry) (s : Store)
    → Keyed s.items
    → (find x (sweep clock s).store.items ≡ some r) ↔ (
        (find x s.items ≡ some r)
        × (terminal r.approval.status ≡ false)
        × (did_expire (expire (clock x) r) ≡ false))
unfolding sweep
sweep_iff clock x r s w =
    rw (sweep_items-find clock x s.items w) (keep_iff (clock x) (find x s.items) r)

-- The number that a sweep returns is the number of records that it has taken out of the store.
pub len-sweep :
    (clock : Text → ℤ) (s : Store) → len (sweep clock s).store + (sweep clock s).result ≡ len s
unfolding sweep len
len-sweep clock s = sweep_items-length clock s.items

fire_each-hooked : (l : List Approval) → fire_each true l ≡ l
unfolding fire_each fire
fire_each-hooked [] = refl
fire_each-hooked (a ∷ l) = rw (fire_each-hooked l) refl

-- With a hook, what a sweep reports and what it leaves open is what was open.
pub sweep-reports :
    (clock : Text → ℤ) (x : Text) (s : Store)
    → Keyed s.items
    → s.hooked ≡ true
    → reports x (sweep clock s).fired + open_in x (sweep clock s).store ≡ open_in x s
unfolding sweep open_in
sweep-reports clock x s w h =
    rw (h, fire_each-hooked (sweep_items clock s.items).resolved)
      (sweep_items-reports clock x s.items w)
