-- ===== src/Core/Batch/Valid.antt =====
-- What a batch must hold, that Validate decides it, and which member an error names.
use authzen.Base.{
  ℕ, ◌+◌, Bool, true, false, ◌≡◌, refl, ◌↔◌, ◌⊎◌, inl, inr, List, [], ◌∷◌, Option, none, some, Text,
  text_eq_iff, Result, ok, err, >>-eq-ok, Result-cases, All, get_elem?, arith, ◌≢◌, suc, take, ◌∙◌,
  ap, is_empty_ne,
}
use authzen.Core.Errors.{Error, in_member}
use authzen.Core.Evaluation.{validate_request}
use authzen.Core.Evaluation.Complete.{IsComplete, validate_request_iff}
use authzen.Core.Types.{EvaluationRequest, Options, EvaluationsRequest}
use authzen.Core.Batch.{
  semantic_execute_all, semantic_deny_on_first_deny, semantic_permit_on_first_permit, resolved,
  is_known_semantic, validate_options, wrap_member, validate_members, validate_batch,
}

-- The evaluations_semantic values of the specification, absence (the empty string) included.
abbrev pub IsSemantic : Text → Type 0
IsSemantic s =
    (s ≡ [])
    ⊎ (s ≡ semantic_execute_all)
    ⊎ (s ≡ semantic_deny_on_first_deny)
    ⊎ (s ≡ semantic_permit_on_first_permit)

abbrev pub HasSemantic : Option Options → Type 0
HasSemantic none = Unit
HasSemantic (some o) = IsSemantic o.evaluations_semantic

is_known_semantic-IsSemantic : (s : Text) → (is_known_semantic s ≡ true) ↔ IsSemantic s
unfolding is_known_semantic
is_known_semantic-IsSemantic [] = (λ h. inl refl, λ h. refl)
is_known_semantic-IsSemantic (c ∷ s) = (
  λ h. ground (
    arith,
    text_eq_iff (c ∷ s) semantic_execute_all,
    text_eq_iff (c ∷ s) semantic_deny_on_first_deny,
    text_eq_iff (c ∷ s) semantic_permit_on_first_permit,
  ),
  λ h. ground (
    arith,
    text_eq_iff (c ∷ s) semantic_execute_all,
    text_eq_iff (c ∷ s) semantic_deny_on_first_deny,
    text_eq_iff (c ∷ s) semantic_permit_on_first_permit,
  ),
)

validate_options_iff : (o : Option Options) → (validate_options o ≡ ok tt) ↔ HasSemantic o
unfolding validate_options
validate_options_iff none = (λ _. tt, λ _. refl)
validate_options_iff (some o) = (
  λ h. (is_known_semantic-IsSemantic o.evaluations_semantic).0 (ground arith),
  λ h. rw ((is_known_semantic-IsSemantic o.evaluations_semantic).1 h),
)

wrap_member_iff :
    (single : Bool) (i : ℕ) (m : Result Error (Unit {0}))
    → (wrap_member single i m ≡ ok tt) ↔ (m ≡ ok tt)
unfolding wrap_member
wrap_member_iff single i (ok tt) = (λ h. h, λ h. h)
wrap_member_iff true i (err e) = (λ h. h, λ h. h)
wrap_member_iff false i (err e) = (λ h. cc, λ h. cc)

validate_members_iff :
    (single : Bool) (i : ℕ) (es : List EvaluationRequest)
    → (validate_members single i es ≡ ok tt) ↔ All IsComplete es
unfolding validate_members
validate_members_iff single i [] = (λ _. tt, λ _. refl)
validate_members_iff single i (e ∷ es) = (
  λ h.
      let (w, rest) = (>>-eq-ok _ _).0 h in
      (
        (validate_request_iff e).0 ((wrap_member_iff single i _).0 w),
        (validate_members_iff single (i + 1) es).0 rest,
      ),
  λ (c, cs). (>>-eq-ok _ _).1 (
    (wrap_member_iff single i _).1 ((validate_request_iff e).1 c),
    (validate_members_iff single (i + 1) es).1 cs,
  ),
)

-- A batch is accepted exactly when its semantic is absent or one of the three that the
-- specification defines, and each member is complete once the top-level defaults are applied.
pub validate_batch_iff :
    (r : EvaluationsRequest)
    → (validate_batch r ≡ ok tt) ↔ (HasSemantic r.options × All IsComplete (resolved r))
unfolding validate_batch
validate_batch_iff r = (
  λ h.
      let (o, m) = (>>-eq-ok _ _).0 h in
      ((validate_options_iff r.options).0 o, (validate_members_iff _ 0 (resolved r)).0 m),
  λ (o, m).
      (>>-eq-ok _ _).1
        ((validate_options_iff r.options).1 o, (validate_members_iff _ 0 (resolved r)).1 m),
)

-- Where member `at` of a list is the first that fails, with error `why`.
pub record FirstFailure (es : List EvaluationRequest) (at : ℕ) (why : Error) : Type 0 where
  pub member : EvaluationRequest
  pub stands : get_elem? es at ≡ some member
  pub fails : validate_request member ≡ err why
  pub before : All IsComplete (take at es)

FirstFailure-cons :
    (e : EvaluationRequest) (es : List EvaluationRequest) (at : ℕ) (why : Error)
    → validate_request e ≡ ok tt
    → FirstFailure es at why
    → FirstFailure (e ∷ es) (suc at) why
FirstFailure-cons e es at why h f = record {
  member = f.member;
  stands = f.stands;
  fails = f.fails;
  before = ((validate_request_iff e).0 h, f.before);
}

validate_members-FirstFailure :
    (i : ℕ) (es : List EvaluationRequest) {e : Error}
    → validate_members false i es ≡ err e
    → (at : ℕ) × (why : Error) × (e ≡ in_member (i + at) why) × FirstFailure es at why
unfolding validate_members wrap_member
validate_members-FirstFailure i [] h = absurd (cc)
validate_members-FirstFailure i (m ∷ es) {e} h = elim (Result-cases (validate_request m)) [
  | inl (u, good) ↦
      let (at, why, named, f) = validate_members-FirstFailure (i + 1) es (rw good at h) in
      (
        suc at,
        why,
        named ∙ ap (λ n. in_member n why) (omega arith),
        FirstFailure-cons m es at why good f,
      )
  | inr (why, bad) ↦
      (0, why, ground arith, record { member = m; stands = refl; fails = bad; before = tt })
]

-- The error of a batch of one member or more whose semantic is fine names the first member that
-- is not complete by its index, and wraps the error of that member alone.
pub validate_batch-FirstFailure :
    (r : EvaluationsRequest) {e : Error}
    → HasSemantic r.options
    → r.evaluations ≢ []
    → validate_batch r ≡ err e
    → (at : ℕ) × (why : Error) × (e ≡ in_member at why) × FirstFailure (resolved r) at why
unfolding validate_batch
validate_batch-FirstFailure r h n f =
    let checked = rw (is_empty_ne r.evaluations n, (validate_options_iff r.options).1 h) at f in
    let (at, why, named, first) = validate_members-FirstFailure 0 (resolved r) checked in
    (at, why, named ∙ ap (λ n. in_member n why) (omega arith), first)
