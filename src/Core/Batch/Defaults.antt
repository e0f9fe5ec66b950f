-- ===== src/Core/Batch/Defaults.antt =====
-- The defaulting rules of Resolved.
use authzen.Base.{
  ◌≡◌, refl, ap, List, [], ◌∷◌, map, Option, none, some, or_default, length, length-map, arith, ◌≢◌,
  is_empty_ne,
}
use authzen.Json.{Fields}
use authzen.Core.Types.{Subject, Action, Resource, EvaluationRequest, EvaluationsRequest}
use authzen.Core.Batch.{
  clone_any_map, clone_context, clone_subject, clone_action, clone_resource, resolve, top_level,
  resolved,
}

clone_any_map_lem : (m : Option Fields) → clone_any_map m ≡ m
unfolding clone_any_map
clone_any_map_lem none = refl
clone_any_map_lem (some m) = refl

clone_context_lem : (m : Option Fields) → clone_context m ≡ m
unfolding clone_context
clone_context_lem none = refl
clone_context_lem (some m) = refl

clone_subject_lem : (o : Option Subject) → clone_subject o ≡ o
unfolding clone_subject
clone_subject_lem none = refl
clone_subject_lem (some s) = rw clone_any_map_lem

clone_action_lem : (o : Option Action) → clone_action o ≡ o
unfolding clone_action
clone_action_lem none = refl
clone_action_lem (some a) = rw clone_any_map_lem

clone_resource_lem : (o : Option Resource) → clone_resource o ≡ o
unfolding clone_resource
clone_resource_lem none = refl
clone_resource_lem (some r) = rw clone_any_map_lem

or_default-none {ℓ} : {A : Type ℓ} (o : Option A) → or_default o none ≡ o
or_default-none none = refl
or_default-none (some a) = refl

ruleset clones = (clone_subject_lem, clone_action_lem, clone_resource_lem, clone_context_lem)

-- A member that omits every field.
abbrev pub no_fields : EvaluationRequest
no_fields = record { subject = none; action = none; resource = none; context = none }

-- The batch with the same options whose members are given in full, with no defaults.
abbrev pub in_full : EvaluationsRequest → List EvaluationRequest → EvaluationsRequest
in_full r es = record r {
  subject = none;
  action = none;
  resource = none;
  context = none;
  evaluations = es;
}

-- A resolved member, as a value: each field is the member's own or the default.
pub resolve_value :
    (r : EvaluationsRequest) (e : EvaluationRequest)
    → resolve r e ≡ record {
      subject = or_default e.subject r.subject;
      action = or_default e.action r.action;
      resource = or_default e.resource r.resource;
      context = or_default e.context r.context;
    }
unfolding resolve
resolve_value r e = simp clones refl

pub top_level_value :
    (r : EvaluationsRequest)
    → top_level r ≡ record {
      subject = r.subject;
      action = r.action;
      resource = r.resource;
      context = r.context;
    }
unfolding top_level
top_level_value r = simp clones refl

resolve-in_full :
    (r : EvaluationsRequest) (ms es : List EvaluationRequest) → map (resolve (in_full r ms)) es ≡ es
unfolding resolve
resolve-in_full r ms [] = refl
resolve-in_full r ms (e ∷ es) =
    simp (clones, or_default-none) (ap (◌∷◌ e) (resolve-in_full r ms es))

resolved-in_full :
    (r : EvaluationsRequest) (es : List EvaluationRequest) → es ≢ [] → resolved (in_full r es) ≡ es
unfolding resolved
resolved-in_full r es n = rw (is_empty_ne es n) (resolve-in_full r es es)

resolved-ne-nil : (r : EvaluationsRequest) → resolved r ≢ []
unfolding resolved
resolved-ne-nil r = ground arith

-- Resolving is idempotent: a batch that states every member in full, with no top-level defaults
-- left, resolves to the same members as the batch it came from.
pub resolved_idem : (r : EvaluationsRequest) → resolved (in_full r (resolved r)) ≡ resolved r
resolved_idem r = resolved-in_full r (resolved r) (resolved-ne-nil r)

-- A request with no evaluations resolves as the batch of one member that omits every field, and
-- any other batch to as many members as it has.
pub resolved_members :
    (r : EvaluationsRequest)
    → (r.evaluations ≡ [] → resolved r ≡ resolved (record r { evaluations = no_fields ∷ [] }))
      × (r.evaluations ≢ [] → length (resolved r) ≡ length r.evaluations)
unfolding resolved
resolved_members r = (
  λ e. ground (arith),
  λ n. rw (is_empty_ne r.evaluations n) (length-map (resolve r) r.evaluations),
)
