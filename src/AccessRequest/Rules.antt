-- ===== src/AccessRequest/Rules.antt =====
-- The rules of Section 10.1 of the profile for a submission, and that Validate decides them.
use authzen.Base.{
  Bool, true, false, not, ◌&&◌, ◌||◌, List, [], ◌∷◌, Option, none, some, is_some, text, Result, ok,
  >>-eq-ok, if◌then◌else◌, ◌≡◌, refl, ◌≢◌, ◌↔◌, ◌⊎◌, inl, inr, arith, All,
}
use authzen.Core.Types.{Resource, Action}
use authzen.Core.Evaluation.Complete.{IsSubject, IsResource, IsAction, validate_subject_iff}
use authzen.AccessRequest.Types.{Item, Callback, Client, Actor, Submission}
use authzen.AccessRequest.Errors.{Fault, conflicting_targets, missing_target, reject, pass_on-eq-ok}
use authzen.AccessRequest.Denial.{IsBinding, validate_denial_iff}
use authzen.AccessRequest.Submit.{
  optional, validate_callback, validate_actor, validate_items, has_single, is_cons, validate_single,
  validate_target, validate_client, validate_submission,
}
use authzen.AccessRequest.ItemRules.{IsItem, resource_iff, action_iff, each_iff, top_valid_iff}

-- The resource and the action of a submission for one target, bound to a denial.
pub record IsSingle (s : Submission) : Type 0 where
  pub no_items : s.items ≡ []
  pub resource_ok : IsResource s.resource
  pub action_ok : IsAction s.action
  pub bound : IsBinding s.denial

-- A bundle: no resource and action of its own, and one item or more.
pub record IsBundle (s : Submission) : Type 0 where
  pub no_resource : s.resource ≡ none
  pub no_action : s.action ≡ none
  pub has_items : s.items ≢ []
  pub items_ok : All (IsItem s.denial) s.items

single_iff :
    (s : Submission)
    → (validate_single s ≡ ok tt) ↔ (IsResource s.resource × IsAction s.action × IsBinding s.denial)
unfolding validate_single
single_iff s = (
  λ u.
      let (r, more) = (>>-eq-ok _ _).0 u in
      let (a, d) = (>>-eq-ok _ _).0 more in
      (
        (resource_iff s.resource).0 r,
        (action_iff s.action).0 a,
        (validate_denial_iff (text "denial") s.denial).0 d,
      ),
  λ (r, a, d). (>>-eq-ok _ _).1 (
    (resource_iff s.resource).1 r,
    (>>-eq-ok _ _).1
        ((action_iff s.action).1 a, (validate_denial_iff (text "denial") s.denial).1 d),
  ),
)

items_iff : (s : Submission) → (validate_items s ≡ ok tt) ↔ All (IsItem s.denial) s.items
unfolding validate_items
items_iff s = each_iff s.denial _ s.items (top_valid_iff s.denial)

choice :
    (h i : Bool) (m n : Result Fault (Unit {0}))
    → ((if h && i
          then reject (text "items") conflicting_targets
          else if not h && not i
          then reject (text "items") missing_target
          else if h
          then m
          else n)
        ≡ ok tt)
      ↔ (((h ≡ true) × (i ≡ false) × (m ≡ ok tt)) ⊎ ((h ≡ false) × (i ≡ true) × (n ≡ ok tt)))
unfolding reject
choice true true m n = (λ u. cc, λ u. elim u [ inl (a, b, c) ↦ cc | inr (a, b, c) ↦ cc ])
choice true false m n =
    (λ u. inl (refl, refl, u), λ u. elim u [ inl (a, b, c) ↦ c | inr (a, b, c) ↦ cc ])
choice false true m n =
    (λ u. inr (refl, refl, u), λ u. elim u [ inl (a, b, c) ↦ cc | inr (a, b, c) ↦ c ])
choice false false m n = (λ u. cc, λ u. elim u [ inl (a, b, c) ↦ cc | inr (a, b, c) ↦ cc ])

is_cons_iff : (l : List Item) → ((is_cons l ≡ true) ↔ (l ≢ [])) × ((is_cons l ≡ false) ↔ (l ≡ []))
is_cons_iff [] = ((λ u. cc, λ u. absurd (u refl)), (λ u. refl, λ u. refl))
is_cons_iff (x ∷ l) = ((λ u. λ w. cc, λ u. refl), (λ u. cc, λ u. cc))

neither_iff :
    (r : Option Resource) (a : Option Action)
    → ((is_some r || is_some a) ≡ false) ↔ ((r ≡ none) × (a ≡ none))
neither_iff none none = (λ u. (refl, refl), λ u. refl)
neither_iff none (some a) = (λ u. cc, λ u. cc (u.1))
neither_iff (some r) a = (λ u. cc, λ u. cc (u.0))

some_resource :
    (o : Option Resource) (a : Option Action) → IsResource o → (is_some o || is_some a) ≡ true
some_resource o a (r, e, x, y) = rw (e) refl

target_iff : (s : Submission) → (validate_target s ≡ ok tt) ↔ (IsSingle s ⊎ IsBundle s)
unfolding validate_target has_single
target_iff s =
    let (to, from) =
      choice (has_single s) (is_cons s.items) (validate_single s) (validate_items s) in
    let (full, nil) = is_cons_iff s.items in
    (
      λ u. elim (to u) [
        | inl (h, i, m) ↦
            let (r, a, d) = (single_iff s).0 m in
            inl (record { no_items = nil.0 i; resource_ok = r; action_ok = a; bound = d })
        | inr (h, i, m) ↦
            let (x, y) = (neither_iff s.resource s.action).0 h in
            inr (record {
              no_resource = x;
              no_action = y;
              has_items = full.0 i;
              items_ok = (items_iff s).0 m;
            })
      ],
      λ u. elim u [
        | inl g ↦ from (
            inl (
              some_resource s.resource s.action g.resource_ok,
              nil.1 g.no_items,
              (single_iff s).1 (g.resource_ok, g.action_ok, g.bound),
            ))
        | inr g ↦ from (
            inr (
              (neither_iff s.resource s.action).1 (g.no_resource, g.no_action),
              full.1 g.has_items,
              (items_iff s).1 g.items_ok,
            ))
      ],
    )

-- A part that may be left out, with what it must be where it is there.
abbrev pub Present : {A : Type 0} → (A → Type 0) → Option A → Type 0
Present P none = Unit
Present P (some a) = P a

abbrev pub IsActor : Client → Type 0
IsActor c = Present (λ a. a.id ≢ []) c.actor

pub record IsSubmission (s : Submission) : Type 0 where
  pub subject_ok : IsSubject s.subject
  pub target_ok : IsSingle s ⊎ IsBundle s
  pub callback_ok : Present (λ c. c.endpoint ≢ []) s.callback
  pub actor_ok : Present IsActor s.client

callback_iff :
    (o : Option Callback)
    → (optional validate_callback o ≡ ok tt) ↔ Present (λ c. c.endpoint ≢ []) o
unfolding validate_callback reject
callback_iff none = (λ u. tt, λ u. refl)
callback_iff (some c) = (λ u. ground arith, λ u. ground arith)

actor_iff : (o : Option Actor) → (optional validate_actor o ≡ ok tt) ↔ Present (λ a. a.id ≢ []) o
unfolding validate_actor reject
actor_iff none = (λ u. tt, λ u. refl)
actor_iff (some a) = (λ u. ground arith, λ u. ground arith)

client_iff : (o : Option Client) → (validate_client o ≡ ok tt) ↔ Present IsActor o
unfolding validate_client
client_iff none = (λ u. tt, λ u. refl)
client_iff (some c) = actor_iff c.actor

-- A submission is accepted exactly when it has a valid subject; either a resource, an action and a
-- binding and no items, or one item or more and no resource or action of its own, where each item
-- has a resource, an action and a binding, its own or else the submission's; and a callback has an
-- endpoint and an actor an id, where there is one.
pub validate_submission_iff :
    (s : Submission) → (validate_submission (some s) ≡ ok tt) ↔ IsSubmission s
unfolding validate_submission
validate_submission_iff s = (
  λ u.
      let (a, u1) = (>>-eq-ok _ _).0 u in
      let (b, u2) = (>>-eq-ok _ _).0 u1 in
      let (c, d) = (>>-eq-ok _ _).0 u2 in
      record {
        subject_ok = (validate_subject_iff s.subject).0 ((pass_on-eq-ok _ _).0 a);
        target_ok = (target_iff s).0 b;
        callback_ok = (callback_iff s.callback).0 c;
        actor_ok = (client_iff s.client).0 d;
      },
  λ g.
      let d =
        (>>-eq-ok _ _).1
          ((callback_iff s.callback).1 g.callback_ok, (client_iff s.client).1 g.actor_ok) in
      let c = (>>-eq-ok _ _).1 ((target_iff s).1 g.target_ok, d) in
      (>>-eq-ok _ _).1 ((pass_on-eq-ok _ _).1 ((validate_subject_iff s.subject).1 g.subject_ok), c),
)
