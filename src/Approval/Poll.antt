-- ===== src/Approval/Poll.antt =====
-- approval/handler.go and the responses of approval.go: the poll of one approval. The context member
-- that carries the approval is kept as the approval, not as its JSON.
use authzen.Base.{
  Bool, true, false, [], Option, none, some, Text, text, is_empty, find, ◌≡◌, refl, ◌≢◌, ◌↔◌, inl,
  inr, ℤ, pos, is_pos, ◌&&◌, Result, ok, err, if◌then◌else◌, ◌∷◌, Bool-cases,
}
use authzen.Approval.Clone.{clone, clone_lem}
use authzen.Approval.Types.{Approval, Status, pending, approved, expired, other}
use authzen.Approval.Store.{
  StoreError, not_found, Entry, Store, Done, expire, is_pending, get, get_found, read_entry,
}
use authzen.Approval.Moves.{expire-cases}

pub data PollBody : Type 0 where
  failure : ℤ → Text → PollBody
  verdict : Bool → Option Approval → PollBody

-- `retry_after` is the header Retry-After, where it is set.
pub record PollResponse : Type 0 where
  pub status : ℤ
  pub retry_after : Option ℤ
  pub body : PollBody

abbrev is_approved : Status → Bool
is_approved approved = true
is_approved _ = false

-- Response: a permit for an approved approval, a deny for any other and for nil.
unfoldable pub response : Option Approval → PollBody
response none = verdict false none
response (some a) = if is_approved a.status then verdict true (some a) else verdict false (some a)

unfoldable pub poll_failure : ℤ → Text → PollResponse
poll_failure status why = record { status = status; retry_after = none; body = failure status why }

unfoldable pub reply : Result StoreError Approval → PollResponse
reply (err not_found) = poll_failure (pos 404) (text "approval not found")
reply (err _) = poll_failure (pos 500) (text "internal error")
reply (ok a) = record {
  status = pos 200;
  retry_after = if is_pending a.status && is_pos a.interval then some a.interval else none;
  body = response (some a);
}

abbrev with_reply : Done (Result StoreError Approval) → Done PollResponse
with_reply d = record { store = d.store; result = reply d.result; fired = d.fired }

-- `id` is the path value, `now` the time that Get reads.
unfoldable pub serve_poll : ℤ → Text → Store → Done PollResponse
serve_poll now id s =
    if is_empty id
    then record {
      store = s;
      result = poll_failure (pos 404) (text "approval not found");
      fired = [];
    }
    else with_reply (get now id s)

abbrev pub permits : PollResponse → Bool
permits r = elim r.body [ failure status why ↦ false | verdict decision a ↦ decision ]

is_approved_iff : (s : Status) → (is_approved s ≡ true) ↔ (s ≡ approved)
is_approved_iff pending = (λ h. cc, λ h. cc)
is_approved_iff approved = (λ h. refl, λ h. refl)
is_approved_iff Status.denied = (λ h. cc, λ h. cc)
is_approved_iff expired = (λ h. cc, λ h. cc)
is_approved_iff Status.canceled = (λ h. cc, λ h. cc)
is_approved_iff (other t) = (λ h. cc, λ h. cc)

permits_reply_lem : (a : Approval) → permits (reply (ok a)) ≡ is_approved a.status
unfolding reply response
permits_reply_lem a = elim (Bool-cases (is_approved a.status)) [
  | inl e ↦ rw (e) refl
  | inr e ↦ rw (e) refl
]

pending_only : (s : Status) → is_pending s ≡ true → is_approved s ≡ false
pending_only pending h = refl
pending_only approved h = cc
pending_only Status.denied h = cc
pending_only expired h = cc
pending_only Status.canceled h = cc
pending_only (other t) h = cc

expire-approved :
    (now : ℤ) (r : Entry)
    → is_approved (expire now r).0.approval.status ≡ is_approved r.approval.status
expire-approved now r = elim (expire-cases now r) [
  | inl e ↦ rw (e) refl
  | inr (p, e) ↦ rw (e, pending_only r.approval.status p) refl
]

body_permits :
    (now : ℤ) (r : Entry)
    → permits (reply (ok (clone (expire now r).0.approval))) ≡ is_approved r.approval.status
body_permits now r =
    rw (clone_lem (expire now r).0.approval, permits_reply_lem (expire now r).0.approval)
      (expire-approved now r)

same_status :
    (r u : Entry) → some r ≡ some u → u.approval.status ≡ approved → r.approval.status ≡ approved
same_status r u g e = cc

read_permits :
    (now : ℤ) (id : Text) (s : Store) (r : Entry)
    → find id s.items ≡ some r
    → (permits (reply (ok (clone (expire now r).0.approval))) ≡ true)
      ↔ ((r : Entry) × (find id s.items ≡ some r) × (r.approval.status ≡ approved))
read_permits now id s r f = rw (body_permits now r) (
  λ h. (r, f, (is_approved_iff r.approval.status).0 h),
  λ (u, g, e). (is_approved_iff r.approval.status).1 (same_status r u (rw (f) at g) e),
)

found_permits :
    (now : ℤ) (id : Text) (s : Store) (o : Option Entry)
    → find id s.items ≡ o
    → (permits (reply (get_found now id s o).result) ≡ true)
      ↔ ((r : Entry) × (find id s.items ≡ some r) × (r.approval.status ≡ approved))
unfolding get_found read_entry reply poll_failure
found_permits now id s none f = (λ h. cc, λ (r, g, e). cc (rw (f) at g))
found_permits now id s (some r) f = read_permits now id s r f

-- A poll whose path names an id is answered by a permit exactly when the id names a record that is
-- approved.
pub poll_permits_iff :
    (now : ℤ) (id : Text) (s : Store)
    → id ≢ []
    → (permits (serve_poll now id s).result ≡ true)
      ↔ ((r : Entry) × (find id s.items ≡ some r) × (r.approval.status ≡ approved))
unfolding serve_poll get
poll_permits_iff now [] s n = absurd (n refl)
poll_permits_iff now (c ∷ id) s n = found_permits now (c ∷ id) s (find (c ∷ id) s.items) refl
