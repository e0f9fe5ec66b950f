-- ===== src/Mcp/Profile/Complete.antt =====
-- mcp/mcp.go: which evaluation requests an MCP call makes.
use authzen.Base.{
  false, [], ◌∷◌, Option, some, Text, text, text_eq, is_empty, ◌≡◌, refl, ◌≢◌, ◌⊎◌, inl, inr,
  Result, ok, err, >>=-eq-ok, ok-injective, some_injective, Option-cases, Bool-cases, find, List,
  All, arith, ap, subst,
}
use authzen.Json.{Fields}
use authzen.Core.Types.{Resource, EvaluationRequest}
use authzen.Core.Errors.{invalid, missing_id, new_validation_error}
use authzen.Core.Evaluation.{validate_request, validate_resource}
use authzen.Core.Evaluation.Complete.{
  IsComplete, IsSubject, IsAction, validate_subject_iff, validate_action_iff,
}
use authzen.Mcp.Token.{TokenClaims, token_identity, subject_from_token}
use authzen.Mcp.Profile.{
  ProfileError, Request, method_to_action, action_for, resource_type_tool, resource_type_resource,
  resource_type_prompt, resource_type_server, tool_resource, resource_resource, prompt_resource,
  server_resource, named_resource, target_resource, call_action, assemble, evaluation_context,
  evaluation_request,
}

err-ok :
    {A : Type 0} {e : ProfileError} {a : A} → ◌≡◌ {A = Result ProfileError A} (err e) (ok a) → ⊥
err-ok h = cc

is_empty-ne : (s : Text) → is_empty s ≡ false → s ≢ []
is_empty-ne [] h = cc
is_empty-ne (c ∷ s) h = λ e. cc

find-All :
    (P : Text → Type 0) (k : Text) (m : List (Text × Text)) {v : Text}
    → All (λ p. P p.1) m
    → find k m ≡ some v
    → P v
unfolding find
find-All P k [] all h = cc
find-All P k ((j, w) ∷ m) all h = elim (Bool-cases (text_eq j k)) [
  | inl e ↦ subst P (some_injective (rw e at h)) all.0
  | inr e ↦ find-All P k m all.1 (rw e at h)
]

action_for_ne : (method : Text) {name : Text} → action_for method ≡ some name → name ≢ []
unfolding action_for method_to_action text
action_for_ne method h =
    find-All (λ v. v ≢ []) method method_to_action
      ((λ e. cc), ((λ e. cc), ((λ e. cc), ((λ e. cc), ((λ e. cc), ((λ e. cc), tt)))))) h

token_identity_ne : (c : TokenClaims) → (token_identity c).0 ≢ []
unfolding token_identity text
token_identity_ne c h = ground arith

-- The target of a call has a type, and an id unless it is a server that the call does not name.
pub record IsTarget (r : Request) (target : Resource) : Type 0 where
  pub typed : target.type ≢ []
  pub identified : (target.id ≢ []) ⊎ ((r.server_uri ≡ []) × (target ≡ server_resource [] []))

named_resource-IsTarget :
    (r : Request) (missing : ProfileError) (name : Text) (x : Resource) {target : Resource}
    → x.type ≢ []
    → x.id ≡ name
    → named_resource missing name x ≡ ok target
    → IsTarget r target
unfolding named_resource
named_resource-IsTarget r missing [] x n e h = cc
named_resource-IsTarget r missing (c ∷ s) x n e h =
    subst (IsTarget r) (ok-injective h) (record { typed = n; identified = inl (λ z. cc) })

server-IsTarget :
    (r : Request) (uri : Text) → r.server_uri ≡ uri → IsTarget r (server_resource uri [])
unfolding server_resource resource_type_server text
server-IsTarget r [] e = record { typed = λ z. cc; identified = inr (e, refl) }
server-IsTarget r (c ∷ s) e = record { typed = λ z. cc; identified = inl (λ z. cc) }

target_resource-IsTarget :
    (r : Request) {target : Resource} → target_resource r ≡ ok target → IsTarget r target
unfolding target_resource tool_resource resource_resource prompt_resource server_resource
    resource_type_tool resource_type_resource resource_type_prompt resource_type_server text
target_resource-IsTarget r {target} h = elim (Bool-cases (text_eq r.method (text "tools/call"))) [
  | inl b ↦ named_resource-IsTarget r _ r.tool_name _ (λ e. cc) refl (rw b at h)
  | inr b ↦ elim (Bool-cases (text_eq r.method (text "resources/read"))) [
    | inl c ↦ named_resource-IsTarget r _ r.resource_uri _ (λ e. cc) refl (rw (b, c) at h)
    | inr c ↦ elim (Bool-cases (text_eq r.method (text "prompts/get"))) [
      | inl d ↦ named_resource-IsTarget r _ r.prompt_name _ (λ e. cc) refl (rw (b, c, d) at h)
      | inr d ↦
          subst (IsTarget r) (ok-injective (rw (b, c, d) at h))
            (server-IsTarget r r.server_uri refl)
    ]
  ]
]

-- The request for a call that names no server: all but the id of its resource is there.
pub record IsUnnamedServer (r : Request) (q : EvaluationRequest) : Type 0 where
  pub no_uri : r.server_uri ≡ []
  pub target : q.resource ≡ some (server_resource [] [])
  pub refused : validate_request q ≡ err (invalid (text "resource.id") missing_id)

abbrev made : Request → Text → Resource → EvaluationRequest
made r name target = record {
  subject = some (subject_from_token r.token);
  action = some (call_action name r.arguments);
  resource = some target;
  context = some (evaluation_context r);
}

IsSubject-made :
    (c : TokenClaims) → (subject_from_token c).id ≢ [] → IsSubject (some (subject_from_token c))
unfolding subject_from_token
IsSubject-made c n = (subject_from_token c, refl, token_identity_ne c, n)

IsAction-made : (name : Text) (o : Option Fields) → name ≢ [] → IsAction (some (call_action name o))
unfolding call_action
IsAction-made name o n = (call_action name o, refl, n)

no_id :
    validate_resource (some (server_resource [] [])) ≡ err (invalid (text "resource.id") missing_id)
unfolding validate_resource server_resource resource_type_server text new_validation_error
no_id = refl

made-cases :
    (r : Request) (name : Text) (target : Resource)
    → (subject_from_token r.token).id ≢ []
    → name ≢ []
    → IsTarget r target
    → IsComplete (made r name target) ⊎ IsUnnamedServer r (made r name target)
unfolding validate_request
made-cases r name target s n t =
    let subject = IsSubject-made r.token s in
    let action = IsAction-made name r.arguments n in
    elim t.identified [
      | inl i ↦ inl (record {
        subject_ok = subject;
        action_ok = action;
        resource_ok = (target, refl, t.typed, i);
      })
      | inr (no_uri, e) ↦ inr (record {
        no_uri = no_uri;
        target = ap some e;
        refused =
            rw (e, (validate_subject_iff _).1 subject, (validate_action_iff _).1 action) no_id;
      })
    ]

assemble-cases :
    (r : Request) (name : Text) (target : Resource) {q : EvaluationRequest}
    → name ≢ []
    → IsTarget r target
    → assemble r name target ≡ ok q
    → IsComplete q ⊎ IsUnnamedServer r q
unfolding assemble
assemble-cases r name target {q} n t h =
    elim (Bool-cases (is_empty (subject_from_token r.token).id)) [
      | inl b ↦ absurd (err-ok (rw b at h))
      | inr b ↦
          let same : made r name target ≡ q = ok-injective (rw b at h) in
          subst (λ x. IsComplete x ⊎ IsUnnamedServer r x) same
            (made-cases r name target (is_empty-ne _ b) n t)
    ]

-- An evaluation request that is made for a call is complete, but for the id of its resource when
-- the call lists what a server has and does not say which: then Validate refuses it for that.
pub evaluation_request-cases :
    (r : Request) {q : EvaluationRequest}
    → evaluation_request r ≡ ok q
    → IsComplete q ⊎ IsUnnamedServer r q
unfolding evaluation_request
evaluation_request-cases r {q} h = elim (Option-cases (action_for r.method)) [
  | inl e ↦ absurd (err-ok (rw (e, evaluation_request) at h))
  | inr (name, e) ↦
      let (target, found, made) =
        >>=-eq-ok (assemble r name) (target_resource r) (rw (e, evaluation_request) at h) in
      assemble-cases r name target (action_for_ne r.method e) (target_resource-IsTarget r found)
        made
]
