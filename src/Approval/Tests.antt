-- ===== src/Approval/Tests.antt =====
-- Runs of the approval store, and the store's theorems at concrete stores.
use authzen.Base.{
  true, false, [], ◌∷◌, none, some, Text, find, ◌≡◌, refl, pos, ok, arith, text_eq, ◌↔◌,
}
use authzen.Approval.Types.{Approval, pending, approved, terminal, zero_approval}
use authzen.Approval.Store.{Entry, Store, approve, deny, cancel, expire, set_approved}
use authzen.Approval.Records.{sweep}
use authzen.Approval.Expiry.{did_expire, expire-overflow}
use authzen.Approval.Keyed.{Keyed, keyed_[], keyed_∷}
use authzen.Approval.Outcomes.{decisions_iff, Decided, as_approved, as_denied, as_canceled}
use authzen.Approval.Remains.{sweep_iff}

abbrev pub id1 : Text
id1 = 49 ∷ []

abbrev pub id2 : Text
id2 = 50 ∷ []

abbrev pub bob : Text
bob = 98 ∷ 111 ∷ 98 ∷ []

abbrev pub open_entry : Entry
open_entry = record {
  approval = record zero_approval {
    status = pending;
    id = id1;
    expires_in = pos 300;
    interval = pos 5;
  };
  created_at = pos 1000;
}

abbrev pub closed_entry : Entry
closed_entry = record {
  approval = record zero_approval {
    status = approved;
    id = id2;
    interval = pos 5;
    decided_by = bob;
  };
  created_at = pos 500;
}

abbrev pub two_items : Store
two_items = record {
  items = (id1, open_entry) ∷ (id2, closed_entry) ∷ [];
  max_size = 2;
  hooked = true;
}

pub two_items-Keyed : Keyed two_items.items
unfolding find text_eq
two_items-Keyed =
    keyed_∷ id1 open_entry _ refl refl (keyed_∷ id2 closed_entry [] refl refl keyed_[])

abbrev long_lived : Entry
long_lived = record open_entry {
  approval = record (open_entry.approval) { expires_in = pos 9300000000 };
}

expire-overflow_example : did_expire (expire (pos 1000) long_lived) ≡ true
expire-overflow_example =
    expire-overflow long_lived 9300000000 refl refl (omega arith) (omega arith)

abbrev approved_by_bob : Approval
approved_by_bob = set_approved bob none (pos 2001) open_entry.approval

decisions_iff_example :
    (((approve (pos 2000) (pos 2001) id1 bob none two_items).result ≡ ok approved_by_bob)
      ↔ Decided (pos 2000) id1 (as_approved bob none (pos 2001)) two_items approved_by_bob)
    × (((deny (pos 2000) (pos 2001) id1 bob [] two_items).result ≡ ok approved_by_bob)
        ↔ Decided (pos 2000) id1 (as_denied bob [] (pos 2001)) two_items approved_by_bob)
    × (((cancel (pos 2000) (pos 2001) id1 two_items).result ≡ ok approved_by_bob)
        ↔ Decided (pos 2000) id1 (as_canceled (pos 2001)) two_items approved_by_bob)
decisions_iff_example =
    decisions_iff (pos 2000) (pos 2001) id1 bob none [] two_items approved_by_bob

sweep_iff_example : (find id1 (sweep (λ id. pos 4000) two_items).store.items ≡ some open_entry) ↔ (
    (find id1 two_items.items ≡ some open_entry)
    × (terminal open_entry.approval.status ≡ false)
    × (did_expire (expire (pos 4000) open_entry) ≡ false))
sweep_iff_example = sweep_iff (λ id. pos 4000) id1 open_entry two_items two_items-Keyed
