-- ===== src/AccessRequest/ItemRules.antt =====
-- The rules of Section 10.1 of the profile for the items of a submission and their bindings.
use authzen.Base.{
  Bool, true, false, ◌&&◌, List, [], ◌∷◌, ◌++◌, Option, none, some, is_some, Text, text, Result, ok,
  err, ◌>>◌, >>-eq-ok, ◌≡◌, refl, ◌≢◌, ◌↔◌, ◌⊎◌, inl, inr, All,
}
use authzen.Core.Types.{Resource, Action}
use authzen.Core.Evaluation.{validate_resource, validate_action}
use authzen.Core.Evaluation.Complete.{
  IsResource, IsAction, validate_resource_iff, validate_action_iff,
}
use authzen.AccessRequest.Types.{DenialBinding, Item}
use authzen.AccessRequest.Errors.{Fault, Reason, missing_denial, reject, pass_on, pass_on-eq-ok}
use authzen.AccessRequest.Denial.{validate_denial, IsBinding, validate_denial_iff}
use authzen.AccessRequest.Submit.{optional, validate_item, is_ok, cover_item, validate_each}

-- An item has a resource, an action, and a binding: its own, or the one of the whole submission.
pub record IsItem (top : Option DenialBinding) (it : Item) : Type 0 where
  pub resource_ok : IsResource it.resource
  pub action_ok : IsAction it.action
  pub bound : IsBinding it.denial ⊎ ((it.denial ≡ none) × IsBinding top)

is_ok_iff : (m : Result Fault (Unit {0})) → (is_ok m ≡ true) ↔ (m ≡ ok tt)
unfolding is_ok
is_ok_iff (ok tt) = (λ h. refl, λ h. refl)
is_ok_iff (err e) = (λ h. cc, λ h. cc)

pub top_valid_iff :
    (top : Option DenialBinding)
    → ((is_some top && is_ok (validate_denial (text "denial") top)) ≡ true) ↔ IsBinding top
top_valid_iff none = (λ h. cc, λ h. cc (h.1))
top_valid_iff (some d) = (
  λ h. (validate_denial_iff (text "denial") (some d)).0 ((is_ok_iff _).0 h),
  λ b. (is_ok_iff _).1 ((validate_denial_iff (text "denial") (some d)).1 b),
)

never : (m : Result Fault (Unit {0})) (f : Text) (r : Reason) → (m >> reject f r) ≢ ok tt
unfolding reject
never (ok tt) f r = λ h. cc
never (err e) f r = λ h. cc

-- The checks of an item's own binding and of the one that stands in for it.
bound_iff :
    (top : Option DenialBinding) (v : Bool) (field : Text) (o : Option DenialBinding)
    → ((v ≡ true) ↔ IsBinding top)
    → ((optional (validate_denial field) o ≡ ok tt) × (cover_item top v o ≡ ok tt))
      ↔ (IsBinding o ⊎ ((o ≡ none) × IsBinding top))
unfolding cover_item
bound_iff top true field none h = (λ u. inr (refl, h.0 refl), λ u. (refl, refl))
bound_iff top false field none h = (
  λ (u, w).
      absurd
        (never (optional (validate_denial (text "denial")) top) (text "denial") missing_denial w),
  λ u. elim u [ inl b ↦ cc (b.1) | inr (e, b) ↦ cc (h.1 b) ],
)
bound_iff top v field (some d) h = (
  λ (u, w). inl ((validate_denial_iff field (some d)).0 u),
  λ u. elim u [ inl b ↦ ((validate_denial_iff field (some d)).1 b, refl) | inr (e, b) ↦ cc ],
)

pub resource_iff : (o : Option Resource) → (pass_on (validate_resource o) ≡ ok tt) ↔ IsResource o
resource_iff o = (
  λ h. (validate_resource_iff o).0 ((pass_on-eq-ok _ _).0 h),
  λ h. (pass_on-eq-ok _ _).1 ((validate_resource_iff o).1 h),
)

pub action_iff : (o : Option Action) → (pass_on (validate_action o) ≡ ok tt) ↔ IsAction o
action_iff o = (
  λ h. (validate_action_iff o).0 ((pass_on-eq-ok _ _).0 h),
  λ h. (pass_on-eq-ok _ _).1 ((validate_action_iff o).1 h),
)

item_iff :
    (top : Option DenialBinding) (v : Bool) (it : Item) (rest : Result Fault (Unit {0}))
    → ((v ≡ true) ↔ IsBinding top)
    → ((validate_item (text "items") it >> (cover_item top v it.denial >> rest)) ≡ ok tt)
      ↔ (IsItem top it × (rest ≡ ok tt))
unfolding validate_item
item_iff top v it rest h = (
  λ u.
      let (checks, w0) = (>>-eq-ok _ _).0 u in
      let (c, w) = (>>-eq-ok _ _).0 w0 in
      let (r, more) = (>>-eq-ok _ _).0 checks in
      let (a, d) = (>>-eq-ok _ _).0 more in
      (
        record {
          resource_ok = (resource_iff it.resource).0 r;
          action_ok = (action_iff it.action).0 a;
          bound = (bound_iff top v (text "items" ++ text ".denial") it.denial h).0 (d, c);
        },
        w,
      ),
  λ (i, w).
      let (d, c) = (bound_iff top v (text "items" ++ text ".denial") it.denial h).1 i.bound in
      let a = (>>-eq-ok _ _).1 ((action_iff it.action).1 i.action_ok, d) in
      (>>-eq-ok _ _).1
        ((>>-eq-ok _ _).1 ((resource_iff it.resource).1 i.resource_ok, a), (>>-eq-ok _ _).1 (c, w)),
)

pub each_iff :
    (top : Option DenialBinding) (v : Bool) (items : List Item)
    → ((v ≡ true) ↔ IsBinding top)
    → (validate_each top v items ≡ ok tt) ↔ All (IsItem top) items
unfolding validate_each
each_iff top v [] h = (λ u. tt, λ u. refl)
each_iff top v (it ∷ items) h =
    let (to, from) = item_iff top v it (validate_each top v items) h in
    (
      λ u. let (i, w) = to u in (i, (each_iff top v items h).0 w),
      λ (i, w). from (i, (each_iff top v items h).1 w),
    )
