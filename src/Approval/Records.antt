-- ===== src/Approval/Records.antt =====
-- approval/store.go: the registration of approvals and the removal of records. The id that newID
-- reads from the random source, or its failure, is an argument.
use authzen.Base.{
  ℕ, ◌+◌, Bool, true, false, ◌&&◌, List, [], ◌∷◌, ◌++◌, Option, none, some, Text, is_some, find,
  drop_key, length, ltb, leb, is_pos, ℤ, Result, ok, err, if◌then◌else◌,
}
use authzen.Approval.Types.{
  pending, terminal, Approval, default_expires_in, default_interval, zero_approval,
}
use authzen.Approval.Clone.{clone}
use authzen.Approval.Store.{
  StoreError, Entry, Store, is_pending, expire, fire, set_entry, Done, entropy_failure, store_full,
}

abbrev pub or_empty : Option Approval → Approval
or_empty none = zero_approval
or_empty (some a) = a

abbrev or_positive : ℤ → ℤ → ℤ
or_positive fallback n = if is_pos n then n else fallback

-- The request as Create fills it in.
unfoldable pub fill_in : Text → Approval → Approval
fill_in id a = record a {
  id = id;
  status = pending;
  expires_in = or_positive default_expires_in a.expires_in;
  interval = or_positive default_interval a.interval;
  decided_by = [];
  decided_at = none;
}

unfoldable pub is_full : Store → Bool
is_full s = ltb 0 s.max_size && leb s.max_size (length s.items)

unfoldable pub register : ℤ → Text → Approval → Store → Done (Result StoreError Approval)
register now id a s =
    if is_full s then record { store = s; result = err store_full; fired = [] } else record {
      store = set_entry id (record { approval = a; created_at = now }) s;
      result = ok (clone a);
      fired = [];
    }

-- Create on an approval that no record holds; Approval/Heap has it on a pointer.
unfoldable pub create :
    Option Text → ℤ → Option Approval → Store → Done (Result StoreError Approval)
unfolding register
create none now req s = record { store = s; result = err entropy_failure; fired = [] }
create (some id) now req s = register now id (fill_in id (or_empty req)) s

unfoldable pub delete : Text → Store → Done Bool
delete id s =
    if is_some (find id s.items)
    then record { store = record s { items = drop_key id s.items }; result = true; fired = [] }
    else record { store = s; result = false; fired = [] }

-- What the loop of Sweep has found in the records from one on: the records that stay, the number
-- of those removed, and the approvals newly expired.
pub record Swept : Type 0 where
  pub kept : List (Text × Entry)
  pub removed : ℕ
  pub resolved : List Approval

-- expireLocked under the test that the record is pending.
unfoldable pub expire_pending : ℤ → Entry → Entry × Bool
expire_pending now r = if is_pending r.approval.status then expire now r else (r, false)

unfoldable pub sweep_entry : Text → Entry × Bool → Swept → Swept
sweep_entry id (r, just_expired) rest = record {
  kept = if terminal r.approval.status then rest.kept else (id, r) ∷ rest.kept;
  removed = if terminal r.approval.status then rest.removed + 1 else rest.removed;
  resolved = if just_expired then clone r.approval ∷ rest.resolved else rest.resolved;
}

unfoldable pub sweep_items : (Text → ℤ) → List (Text × Entry) → Swept
unfolding expire_pending sweep_entry
sweep_items clock [] = record { kept = []; removed = 0; resolved = [] }
sweep_items clock ((id, r) ∷ m) = sweep_entry id (expire_pending (clock id) r) (sweep_items clock m)

unfoldable pub fire_each : Bool → List Approval → List Approval
fire_each hooked [] = []
fire_each hooked (a ∷ more) = fire hooked (some a) ++ fire_each hooked more

-- `clock id` is the time that the expiry of `id` reads.
unfoldable pub sweep : (Text → ℤ) → Store → Done ℕ
sweep clock s =
    let found = sweep_items clock s.items in
    record {
      store = record s { items = found.kept };
      result = found.removed;
      fired = fire_each s.hooked found.resolved;
    }

unfoldable pub len : Store → ℕ
len s = length s.items
