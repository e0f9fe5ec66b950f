-- ===== src/Core/Search/Complete.antt =====
-- Each Validate method decides what its search requires.
use authzen.Base.{◌≡◌, refl, ◌≢◌, ◌↔◌, [], Option, none, some, ok, >>-eq-ok, arith}
use authzen.Core.Evaluation.Complete.{
  IsSubject, IsResource, IsAction, validate_subject_iff, validate_resource_iff, validate_action_iff,
}
use authzen.Core.Search.{
  SubjectSearchRequest, ResourceSearchRequest, ActionSearchRequest, subject_type_only,
  resource_type_only, validate_subject_search, validate_resource_search, validate_action_search,
  validate_action, validate_resource,
}
use authzen.Core.Types.{Subject, Resource}

abbrev pub HasSubjectType : Option Subject → Type 0
HasSubjectType o = (s : Subject) × (o ≡ some s) × (s.type ≢ [])

abbrev pub HasResourceType : Option Resource → Type 0
HasResourceType o = (r : Resource) × (o ≡ some r) × (r.type ≢ [])

subject_type_only_iff : (o : Option Subject) → (subject_type_only o ≡ ok tt) ↔ HasSubjectType o
unfolding subject_type_only
subject_type_only_iff none = (λ h. cc, λ h. cc (h.1))
subject_type_only_iff (some s) = (λ h. (s, refl, ground arith), λ h. ground arith)

resource_type_only_iff : (o : Option Resource) → (resource_type_only o ≡ ok tt) ↔ HasResourceType o
unfolding resource_type_only
resource_type_only_iff none = (λ h. cc, λ h. cc (h.1))
resource_type_only_iff (some r) = (λ h. (r, refl, ground arith), λ h. ground arith)

-- A subject search is accepted exactly when it carries a subject with a non-empty type, a valid
-- action and a valid resource: the subject's id is not asked for.
pub validate_subject_search_iff :
    (r : SubjectSearchRequest)
    → (validate_subject_search r ≡ ok tt)
      ↔ (HasSubjectType r.subject × IsAction r.action × IsResource r.resource)
unfolding validate_subject_search
validate_subject_search_iff r = (
  λ h.
      let (s, rest) = (>>-eq-ok _ _).0 h in
      let (a, o) = (>>-eq-ok _ _).0 rest in
      (
        (subject_type_only_iff r.subject).0 s,
        (validate_action_iff r.action).0 a,
        (validate_resource_iff r.resource).0 o,
      ),
  λ c.
      let a = (validate_action_iff r.action).1 c.1 in
      let o = (validate_resource_iff r.resource).1 c.2 in
      (>>-eq-ok _ _).1 (
        (subject_type_only_iff r.subject).1 c.0,
        (>>-eq-ok (validate_action r.action) (validate_resource r.resource)).1 (a, o),
      ),
)

-- A resource search is accepted exactly when it carries a valid subject, a valid action and a
-- resource with a non-empty type: the resource's id is not asked for.
pub validate_resource_search_iff :
    (r : ResourceSearchRequest)
    → (validate_resource_search r ≡ ok tt)
      ↔ (IsSubject r.subject × IsAction r.action × HasResourceType r.resource)
unfolding validate_resource_search
validate_resource_search_iff r = (
  λ h.
      let (s, rest) = (>>-eq-ok _ _).0 h in
      let (a, o) = (>>-eq-ok _ _).0 rest in
      (
        (validate_subject_iff r.subject).0 s,
        (validate_action_iff r.action).0 a,
        (resource_type_only_iff r.resource).0 o,
      ),
  λ c.
      let a = (validate_action_iff r.action).1 c.1 in
      let o = (resource_type_only_iff r.resource).1 c.2 in
      (>>-eq-ok _ _).1 (
        (validate_subject_iff r.subject).1 c.0,
        (>>-eq-ok (validate_action r.action) (resource_type_only r.resource)).1 (a, o),
      ),
)

-- An action search is accepted exactly when it carries a valid subject and a valid resource.
pub validate_action_search_iff :
    (r : ActionSearchRequest)
    → (validate_action_search r ≡ ok tt) ↔ (IsSubject r.subject × IsResource r.resource)
unfolding validate_action_search
validate_action_search_iff r = (
  λ h.
      let (s, o) = (>>-eq-ok _ _).0 h in
      ((validate_subject_iff r.subject).0 s, (validate_resource_iff r.resource).0 o),
  λ c.
      (>>-eq-ok _ _).1
        ((validate_subject_iff r.subject).1 c.0, (validate_resource_iff r.resource).1 c.1),
)

-- A subject search is accepted exactly when it carries a subject with a non-empty type, whose id
-- is not asked for, a valid action and a valid resource; a resource search exactly when it carries
-- a valid subject, a valid action and a resource with a non-empty type, whose id is not asked for;
-- and an action search exactly when it carries a valid subject and a valid resource.
pub validate_searches_iff :
    (s : SubjectSearchRequest) (r : ResourceSearchRequest) (a : ActionSearchRequest)
    → ((validate_subject_search s ≡ ok tt)
        ↔ (HasSubjectType s.subject × IsAction s.action × IsResource s.resource))
      × ((validate_resource_search r ≡ ok tt)
          ↔ (IsSubject r.subject × IsAction r.action × HasResourceType r.resource))
      × ((validate_action_search a ≡ ok tt) ↔ (IsSubject a.subject × IsResource a.resource))
validate_searches_iff s r a =
    (validate_subject_search_iff s, validate_resource_search_iff r, validate_action_search_iff a)
