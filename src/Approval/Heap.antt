-- ===== src/Approval/Heap.antt =====
-- approval/store.go over the memory its records point into. A record holds a pointer, and Create
-- keeps the caller's pointer, so two records can share one approval, and the caller can write it.
pub mod Events
pub mod Views
pub mod Sweeping
pub mod Refines
pub mod Once
pub mod Reopens
pub mod Capacity
use authzen.Base.{
  ℕ, ◌+◌, Bool, true, false, ◌&&◌, not, ◌||◌, ◌==◌, List, [], ◌∷◌, ◌++◌, Option, none, some, Text,
  text_eq, is_some, find, put, drop_key, length, ltb, leb, ℤ, Result, ok, err, if◌then◌else◌,
}
use authzen.Approval.Types.{terminal, Grant, Reasons, Approval, zero_approval}
use authzen.Approval.Clone.{clone}
use authzen.Approval.Store.{
  StoreError, not_found, store_full, entropy_failure, Entry, Store, expire, fire, when, Mutable,
  missing, refused, changeable, check_mutable, set_approved, set_denied, set_canceled,
}
use authzen.Approval.Records.{fill_in, expire_pending, fire_each}

-- The struct `record`: a pointer to an approval and the instant of its creation.
pub record Slot : Type 0 where
  pub pointer : ℕ
  pub created_at : ℤ

-- The store, and the approvals that pointers name.
pub record Heap : Type 0 where
  pub cells : ℕ → Approval
  pub slots : List (Text × Slot)
  pub max_size : ℕ
  pub hooked : Bool

pub record Made (A : Type 0) : Type 0 where
  pub heap : Heap
  pub result : A
  pub fired : List Approval

abbrev pub update : (ℕ → Approval) → ℕ → Approval → ℕ → Approval
update f p a q = if p == q then a else f q

abbrev pub write : ℕ → Approval → Heap → Heap
write p a h = record h { cells = update h.cells p a }

-- A record with what its pointer names.
abbrev pub entry_of : (ℕ → Approval) → Slot → Entry
entry_of cells t = record { approval = cells t.pointer; created_at = t.created_at }

unfoldable pub is_full_at : Heap → Bool
is_full_at h = ltb 0 h.max_size && leb h.max_size (length h.slots)

unfoldable pub register_at : ℤ → Text → ℕ → Heap → Made (Result StoreError Approval)
register_at now id p h =
    if is_full_at h then record { heap = h; result = err store_full; fired = [] } else record {
      heap = record h { slots = put id (record { pointer = p; created_at = now }) h.slots };
      result = ok (clone (h.cells p));
      fired = [];
    }

-- Create on the pointer p: what p names is filled in before the store is asked for room.
unfoldable pub create_at : Option Text → ℤ → ℕ → Heap → Made (Result StoreError Approval)
create_at none now p h = record { heap = h; result = err entropy_failure; fired = [] }
create_at (some id) now p h = register_at now id p (write p (fill_in id (h.cells p)) h)

-- Create on nil: p is the pointer of `&Approval{}`.
unfoldable pub create_nil_at : Option Text → ℤ → ℕ → Heap → Made (Result StoreError Approval)
create_nil_at id now p h = create_at id now p (write p zero_approval h)

-- The writes of a decision through the pointer of a record.
unfoldable pub settle_slot :
    Slot → (Approval → Approval) → Heap → Mutable → Made (Result StoreError Approval)
settle_slot t change h missing = record { heap = h; result = err not_found; fired = [] }
settle_slot t change h (refused r just_expired e) = record {
  heap = write t.pointer r.approval h;
  result = err e;
  fired = fire h.hooked (when just_expired (clone r.approval));
}
settle_slot t change h (changeable r) = record {
  heap = write t.pointer (change r.approval) h;
  result = ok (clone (change r.approval));
  fired = fire h.hooked (some (clone (change r.approval)));
}

unfoldable pub settle_found :
    ℤ → (Approval → Approval) → Heap → Option Slot → Made (Result StoreError Approval)
settle_found now change h none = record { heap = h; result = err not_found; fired = [] }
settle_found now change h (some t) =
    settle_slot t change h (check_mutable (expire now (entry_of h.cells t)))

unfoldable pub approve_at :
    ℤ → ℤ → Text → Text → Option Grant → Heap → Made (Result StoreError Approval)
approve_at now decided id by grant h =
    settle_found now (set_approved by grant decided) h (find id h.slots)

unfoldable pub deny_at : ℤ → ℤ → Text → Text → Reasons → Heap → Made (Result StoreError Approval)
deny_at now decided id by reason h =
    settle_found now (set_denied by reason decided) h (find id h.slots)

unfoldable pub cancel_at : ℤ → ℤ → Text → Heap → Made (Result StoreError Approval)
cancel_at now decided id h = settle_found now (set_canceled decided) h (find id h.slots)

unfoldable pub read_slot : Slot → Heap → Entry × Bool → Made (Result StoreError Approval)
read_slot t h (r, just_expired) = record {
  heap = write t.pointer r.approval h;
  result = ok (clone r.approval);
  fired = fire h.hooked (when just_expired (clone r.approval));
}

unfoldable pub get_slot : ℤ → Heap → Option Slot → Made (Result StoreError Approval)
get_slot now h none = record { heap = h; result = err not_found; fired = [] }
get_slot now h (some t) = read_slot t h (expire now (entry_of h.cells t))

unfoldable pub get_at : ℤ → Text → Heap → Made (Result StoreError Approval)
get_at now id h = get_slot now h (find id h.slots)

unfoldable pub delete_at : Text → Heap → Made Bool
delete_at id h =
    if is_some (find id h.slots)
    then record { heap = record h { slots = drop_key id h.slots }; result = true; fired = [] }
    else record { heap = h; result = false; fired = [] }

pub record SweptAt : Type 0 where
  pub cells : ℕ → Approval
  pub kept : List (Text × Slot)
  pub removed : ℕ
  pub resolved : List Approval

unfoldable pub sweep_slot : Text → Slot → Entry × Bool → SweptAt → SweptAt
sweep_slot id t (r, just_expired) rest = record {
  cells = rest.cells;
  kept = if terminal r.approval.status then rest.kept else (id, t) ∷ rest.kept;
  removed = if terminal r.approval.status then rest.removed + 1 else rest.removed;
  resolved = if just_expired then clone r.approval ∷ rest.resolved else rest.resolved;
}

-- The loop of Sweep: the records from one on see what it wrote before.
unfoldable pub sweep_slots : (Text → ℤ) → List (Text × Slot) → (ℕ → Approval) → SweptAt
sweep_slots clock [] cells = record { cells = cells; kept = []; removed = 0; resolved = [] }
sweep_slots clock ((id, t) ∷ m) cells =
    let seen = expire_pending (clock id) (entry_of cells t) in
    sweep_slot id t seen (sweep_slots clock m (update cells t.pointer seen.0.approval))

unfoldable pub sweep_at : (Text → ℤ) → Heap → Made ℕ
sweep_at clock h =
    let found = sweep_slots clock h.slots h.cells in
    record {
      heap = record h { cells = found.cells; slots = found.kept };
      result = found.removed;
      fired = fire_each h.hooked found.resolved;
    }
