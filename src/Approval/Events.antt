-- ===== src/Approval/Events.antt =====
-- approval/store.go: the calls that a Store takes, in the order in which its lock admits them.
use authzen.Base.{ℕ, ◌+◌, List, [], ◌∷◌, ◌++◌, Option, some, Text, text_eq, if◌then◌else◌, ℤ}
use authzen.Approval.Types.{Grant, Reasons, Approval}
use authzen.Approval.Store.{Store, Done, approve, deny, cancel, get}
use authzen.Approval.Records.{create, delete, sweep}

pub data Event : Type 0 where
  creates : Option Text → ℤ → Option Approval → Event
  gets : ℤ → Text → Event
  approves : ℤ → ℤ → Text → Text → Option Grant → Event
  denies : ℤ → ℤ → Text → Text → Reasons → Event
  cancels : ℤ → ℤ → Text → Event
  deletes : Text → Event
  sweeps : (Text → ℤ) → Event

abbrev pub left : {A : Type 0} → Done A → Store × List Approval
left d = (d.store, d.fired)

-- The store after a call, and the approvals that OnResolve gets.
unfoldable pub step : Event → Store → Store × List Approval
step (creates id now req) s = left (create id now req s)
step (gets now id) s = left (get now id s)
step (approves now decided id by grant) s = left (approve now decided id by grant s)
step (denies now decided id by reason) s = left (deny now decided id by reason s)
step (cancels now decided id) s = left (cancel now decided id s)
step (deletes id) s = left (delete id s)
step (sweeps clock) s = left (sweep clock s)

unfoldable pub run : List Event → Store → Store × List Approval
run [] s = (s, [])
run (e ∷ es) s = ((run es (step e s).0).0, (step e s).1 ++ (run es (step e s).0).1)

-- How many approvals with the id x an event may register.
unfoldable pub births : Text → Event → ℕ
births x (creates (some id) now req) = if text_eq id x then 1 else 0
births x _ = 0

unfoldable pub births_in : Text → List Event → ℕ
births_in x [] = 0
births_in x (e ∷ es) = births x e + births_in x es
