-- ===== src/Grpc/Carried.antt =====
-- A valid request is still valid as the wire carries it.
use mathlib.Core.Option
use authzen.Base.{
  List, [], ◌∷◌, map, Option, none, some, ◌≡◌, refl, false, Bool, ℕ, ◌+◌, is_empty, or_default,
  if◌then◌else◌, ◌==◌, Bool-cases, inl, inr,
}
use authzen.Json.{Fields, len}
use authzen.Core.Types.{Subject, Resource, Action, EvaluationRequest, EvaluationsRequest, Options}
use authzen.Core.Evaluation.{validate_subject, validate_resource, validate_action, validate_request}
use authzen.Core.Batch.{
  resolve, top_level, resolved, validate_options, validate_members, validate_batch,
}
use authzen.Core.Batch.Defaults.{resolve_value, top_level_value}
use authzen.Core.Codec.RoundTrip.{carried, carried_options}
use authzen.Core.Search.{
  SubjectSearchRequest, ResourceSearchRequest, ActionSearchRequest, subject_type_only,
  resource_type_only, validate_subject_search, validate_resource_search, validate_action_search,
}
use authzen.Grpc.Entities.{carried_subject, carried_resource, carried_action}
use authzen.Grpc.Evaluation.{carried_request}
use authzen.Grpc.Batch.{carried_batch}
use authzen.Grpc.Search.{carried_subject_search, carried_resource_search, carried_action_search}

subject_carried :
    (o : Option Subject) → validate_subject (Option.map carried_subject o) ≡ validate_subject o
unfolding validate_subject
subject_carried none = refl
subject_carried (some s) = refl

resource_carried :
    (o : Option Resource) → validate_resource (Option.map carried_resource o) ≡ validate_resource o
unfolding validate_resource
resource_carried none = refl
resource_carried (some r) = refl

action_carried :
    (o : Option Action) → validate_action (Option.map carried_action o) ≡ validate_action o
unfolding validate_action
action_carried none = refl
action_carried (some a) = refl

pub validate_request-carried_request :
    (r : EvaluationRequest) → validate_request (carried_request r) ≡ validate_request r
unfolding validate_request
validate_request-carried_request r =
    rw (subject_carried r.subject, action_carried r.action, resource_carried r.resource) refl

-- A default that is carried is the default of what is carried.
or_default-map :
    {A : Type 0} (c : A → A) (o d : Option A)
    → or_default (Option.map c o) (Option.map c d) ≡ Option.map c (or_default o d)
or_default-map c none d = refl
or_default-map c (some a) d = refl

validate_members_carried :
    (single : Bool) (i : ℕ) (es : List EvaluationRequest)
    → validate_members single i (map carried_request es) ≡ validate_members single i es
unfolding validate_members
validate_members_carried single i [] = refl
validate_members_carried single i (e ∷ es) =
    rw (validate_request-carried_request e, validate_members_carried single (i + 1) es) refl

resolved_valid :
    (r : EvaluationsRequest) (e : EvaluationRequest)
    → validate_request (resolve (carried_batch r) (carried_request e))
      ≡ validate_request (resolve r e)
unfolding validate_request
resolved_valid r e =
    rw
      (
        resolve_value (carried_batch r) (carried_request e),
        resolve_value r e,
        or_default-map carried_subject e.subject r.subject,
        or_default-map carried_action e.action r.action,
        or_default-map carried_resource e.resource r.resource,
        subject_carried (or_default e.subject r.subject),
        action_carried (or_default e.action r.action),
        resource_carried (or_default e.resource r.resource),
      )
      refl

top_level_valid :
    (r : EvaluationsRequest)
    → validate_request (top_level (carried_batch r)) ≡ validate_request (top_level r)
unfolding validate_request
top_level_valid r =
    rw
      (
        top_level_value (carried_batch r),
        top_level_value r,
        subject_carried r.subject,
        action_carried r.action,
        resource_carried r.resource,
      )
      refl

members_valid :
    (r : EvaluationsRequest) (single : Bool) (i : ℕ) (es : List EvaluationRequest)
    → validate_members single i (map (resolve (carried_batch r)) (map carried_request es))
      ≡ validate_members single i (map (resolve r) es)
unfolding validate_members
members_valid r single i [] = refl
members_valid r single i (e ∷ es) = rw (resolved_valid r e, members_valid r single (i + 1) es) refl

options_valid :
    (o : Option Options) → validate_options (Option.map carried_options o) ≡ validate_options o
unfolding validate_options
options_valid none = refl
options_valid (some o) = refl

shape_valid :
    (r : EvaluationsRequest) (es : List EvaluationRequest)
    → validate_members (is_empty (map carried_request es)) 0 (
        if is_empty (map carried_request es)
        then top_level (carried_batch r) ∷ []
        else map (resolve (carried_batch r)) (map carried_request es))
      ≡ validate_members
          (is_empty es)
          0
          (if is_empty es then top_level r ∷ [] else map (resolve r) es)
unfolding validate_members
shape_valid r [] = rw (top_level_valid r) refl
shape_valid r (e ∷ es) = rw (resolved_valid r e, members_valid r false 1 es) refl

pub validate_batch-carried_batch :
    (r : EvaluationsRequest) → validate_batch (carried_batch r) ≡ validate_batch r
unfolding validate_batch resolved
validate_batch-carried_batch r = rw (options_valid r.options, shape_valid r r.evaluations) refl

subject_type_carried :
    (o : Option Subject) → subject_type_only (Option.map carried_subject o) ≡ subject_type_only o
unfolding subject_type_only
subject_type_carried none = refl
subject_type_carried (some s) = refl

resource_type_carried :
    (o : Option Resource)
    → resource_type_only (Option.map carried_resource o) ≡ resource_type_only o
unfolding resource_type_only
resource_type_carried none = refl
resource_type_carried (some r) = refl

pub validate_subject_search-carried_subject_search :
    (r : SubjectSearchRequest)
    → validate_subject_search (carried_subject_search r) ≡ validate_subject_search r
unfolding validate_subject_search
validate_subject_search-carried_subject_search r =
    rw (subject_type_carried r.subject, action_carried r.action, resource_carried r.resource) refl

pub validate_resource_search-carried_resource_search :
    (r : ResourceSearchRequest)
    → validate_resource_search (carried_resource_search r) ≡ validate_resource_search r
unfolding validate_resource_search
validate_resource_search-carried_resource_search r =
    rw (subject_carried r.subject, action_carried r.action, resource_type_carried r.resource) refl

pub validate_action_search-carried_action_search :
    (r : ActionSearchRequest)
    → validate_action_search (carried_action_search r) ≡ validate_action_search r
unfolding validate_action_search
validate_action_search-carried_action_search r =
    rw (subject_carried r.subject, resource_carried r.resource) refl

-- A context that is there and empty, which no field of a message carries.
abbrev pub is_empty_map : Option Fields → Bool
is_empty_map none = false
is_empty_map (some m) = len m == 0

context_carried :
    (c d : Option Fields)
    → or_default (carried c) (carried d)
      ≡ (if is_empty_map c then carried d else carried (or_default c d))
context_carried none d = refl
context_carried (some m) d = elim (Bool-cases (len m == 0)) [
  | inl h ↦ rw h refl
  | inr h ↦ rw h refl
]

-- A member of a batch resolves after the wire to what it resolved to before, as the wire carries
-- it, but for a member whose own context is empty and not nil: that context, which is to stand in
-- place of the default, is lost, and the member takes the default context of the batch.
pub resolve-carried_batch :
    (r : EvaluationsRequest) (e : EvaluationRequest)
    → resolve (carried_batch r) (carried_request e) ≡ record (carried_request (resolve r e)) {
      context = if is_empty_map e.context then carried r.context else carried (resolve r e).context;
    }
resolve-carried_batch r e =
    rw
      (
        resolve_value (carried_batch r) (carried_request e),
        resolve_value r e,
        or_default-map carried_subject e.subject r.subject,
        or_default-map carried_action e.action r.action,
        or_default-map carried_resource e.resource r.resource,
        context_carried e.context r.context,
      )
      refl
