-- ===== src/Cli/Gate.antt =====
-- cmd/authzen/evaluate.go as a gate in a script: what an exit code of 0 says.
use authzen.Base.{
  Bool, true, false, ◌&&◌, not, List, [], ◌∷◌, ◌++◌, some, Text, text, text_eq, ℤ, pos, All,
  if◌then◌else◌, Result, ok, err, ◌>>=◌, ◌≡◌, refl, sym, ◌∙◌, subst, ◌⊎◌, inl, inr, Bool-cases,
  Result-cases, err-injective, is_empty, reject_if, is_pos,
}
use authzen.Core.Types.{EvaluationRequest, EvaluationResponse}
use authzen.Client.Config.{Net}
use authzen.Client.Calls.{Json}
use authzen.Client.Calls
use authzen.Cli.Options.{
  GlobalOpts, Parsed, parsed, flag_help, flag_error, usage, start, new_client_of, help_requested,
  parse_flags, validate_global, is_cleartext,
}
use authzen.Cli.Evaluate.{
  Host, EvaluateFlags, build_evaluation_request, optional_object, request_from_flags, printed,
  decision_code, report, report_reply, ask, run_evaluate, documents, or_code, read_request,
}

err_not_ok : {E A : Type 0} {e : E} {a : A} → ◌≡◌ {A = Result E A} (err e) (ok a) → ⊥
err_not_ok h = cc

one_not_zero : ◌≡◌ {A = ℤ} (pos 1) (pos 0) → ⊥
one_not_zero h = cc

two_not_zero : ◌≡◌ {A = ℤ} (pos 2) (pos 0) → ⊥
two_not_zero h = cc

-- The codes of an API error and of a usage error.
unfoldable pub IsFailure : ℤ → Type 0
IsFailure n = (n ≡ pos 1) ⊎ (n ≡ pos 2)

IsFailure-pos : {n : ℤ} → IsFailure n → n ≡ pos 0 → ⊥
unfolding IsFailure
IsFailure-pos (inl e) h = one_not_zero (sym e ∙ h)
IsFailure-pos (inr e) h = two_not_zero (sym e ∙ h)

unfoldable pub Fails : {A : Type 0} → Result ℤ A → Type 0
Fails (ok a) = Unit {0}
Fails (err n) = IsFailure n

pub bind-Fails :
    {A B : Type 0} (m : Result ℤ A) (k : A → Result ℤ B)
    → Fails m
    → ((a : A) → Fails (k a))
    → Fails (m >>= k)
unfolding Fails
bind-Fails (ok a) k h g = g a
bind-Fails (err n) k h g = h

pub Fails-err : {A : Type 0} (m : Result ℤ A) {n : ℤ} → Fails m → m ≡ err n → IsFailure n
unfolding Fails
Fails-err (ok a) f h = absurd (err_not_ok (sym h))
Fails-err (err n) f h = subst IsFailure (err-injective h) f

pub or_code-Fails : {A : Type 0} (n : ℤ) (m : Result Text A) → IsFailure n → Fails (or_code n m)
unfolding Fails
or_code-Fails n (ok a) h = tt
or_code-Fails n (err e) h = h

reject_if-Fails : (b : Bool) → Fails (reject_if b (pos 2))
unfolding Fails IsFailure
reject_if-Fails true = inr refl
reject_if-Fails false = tt

pub validate_global-Fails :
    {W : Type 0} (net : Net W) (g : GlobalOpts) → Fails (validate_global net g)
unfolding validate_global
validate_global-Fails net g =
    bind-Fails _ _
      (bind-Fails _ _ (reject_if-Fails (is_empty g.url))
        (λ u. reject_if-Fails (not (is_pos g.timeout))))
      (λ u. reject_if-Fails (
        not (is_empty g.token)
        && not g.insecure_allow_http
        && is_cleartext net (net.parse_url g.url)))

pub Parsed-cases :
    {F : Type 0} (p : Parsed F) → ((f : F) × (p ≡ parsed f)) ⊎ ((p ≡ flag_help) ⊎ (p ≡ flag_error))
Parsed-cases (parsed f) = inl (f, refl)
Parsed-cases flag_help = inr (inl refl)
Parsed-cases flag_error = inr (inr refl)

last_wins :
    (b c d : Bool) → (if b then true else if c then true else if d then true else true) ≡ true
last_wins true c d = refl
last_wins false true d = refl
last_wins false false true = refl
last_wins false false false = refl

help_first : (after : List Text) → help_requested (text "help" ∷ after) ≡ true
unfolding help_requested text text_eq
help_first after = refl

help_requested-help :
    (before after : List Text)
    → All (λ a. text_eq a (text "--") ≡ false) before
    → help_requested (before ++ text "help" ∷ after) ≡ true
unfolding help_requested
help_requested-help [] after h = help_first after
help_requested-help (a ∷ before) after (h, hs) =
    rw (h, help_requested-help before after hs)
      (last_wins (text_eq a (text "-h")) (text_eq a (text "--help")) (text_eq a (text "help")))

pub documents-Fails : (m : Result Text Text) → Fails (documents m)
unfolding documents Fails IsFailure
documents-Fails (ok d) = tt
documents-Fails (err e) = inl refl

module _ (host : Host) where
  pub optional_object-Fails : (t : Text) → Fails (optional_object host t)
  unfolding optional_object IsFailure Fails
  optional_object-Fails t = elim (Bool-cases (is_empty t)) [
    | inl e ↦ rw (e) tt
    | inr e ↦ rw (e) (or_code-Fails (pos 2) (host.parse_object t) (inr refl))
  ]

  pub build_evaluation_request-Fails : (f : EvaluateFlags) → Fails (build_evaluation_request host f)
  unfolding build_evaluation_request request_from_flags IsFailure Fails
  build_evaluation_request-Fails f = elim (Bool-cases (is_empty f.request_path)) [
    | inl e ↦ rw (e) (
        bind-Fails _ _ (optional_object-Fails f.context_json) (λ c.
          bind-Fails _ _ (optional_object-Fails f.subject_props) (λ s.
            bind-Fails _ _ (optional_object-Fails f.resource_props)
              (λ r. bind-Fails _ _ (optional_object-Fails f.action_props) (λ a. tt)))))
    | inr e ↦ rw (e) (
        bind-Fails _ _ (or_code-Fails (pos 1) (read_request host f.request_path) (inl refl))
          (λ b. or_code-Fails (pos 1) (host.parse_evaluation b) (inl refl)))
  ]

  pub printed-Fails : (f : EvaluateFlags) (r : EvaluationResponse) → Fails (printed host f r)
  unfolding printed Fails
  printed-Fails f r = elim (Bool-cases f.global.json) [
    | inl e ↦ rw (e) (documents-Fails (host.print_response r))
    | inr e ↦ rw (e) tt
  ]

  decision_code_zero :
      (deny : ℤ) (b : Bool) → decision_code host deny b ≡ pos 0 → (deny ≡ pos 0) ⊎ (b ≡ true)
  unfolding decision_code
  decision_code_zero deny true h = inr refl
  decision_code_zero deny false h = inl h

  report_zero :
      (f : EvaluateFlags) (r : EvaluationResponse)
      → (report host f r).code ≡ pos 0
      → (f.deny_exit_code ≡ pos 0) ⊎ (r.decision ≡ true)
  unfolding report
  report_zero f r h = elim (Result-cases (printed host f r)) [
    | inl (out, e) ↦ decision_code_zero f.deny_exit_code r.decision (rw (e, report) at h)
    | inr (n, e) ↦ absurd (IsFailure-pos (Fails-err _ (printed-Fails f r) e) (rw (e, report) at h))
  ]

  module _ {W : Type 0} (net : Net W) (json : Json) (parse : List Text → Parsed EvaluateFlags)
      (w : W) where
    -- The gate is off, or the decision point permitted the request that the flags describe.
    pub IsPermitted : EvaluateFlags → Type 0
    IsPermitted f =
        (f.deny_exit_code ≡ pos 0)
        ⊎ ((r : EvaluationRequest) × (reply : EvaluationResponse) × (build_evaluation_request host f
              ≡ ok r)
            × ((authzen.Client.Calls.evaluate net json (new_client_of f.global) w (some r)).1
                ≡ ok reply)
            × (reply.decision ≡ true))

    ask_zero :
        (f : EvaluateFlags)
        → (ask host net json w f (build_evaluation_request host f)).1.code ≡ pos 0
        → IsPermitted f
    unfolding ask IsPermitted report_reply
    ask_zero f h = elim (Result-cases (build_evaluation_request host f)) [
      | inr (n, e) ↦
          absurd
            (IsFailure-pos (Fails-err _ (build_evaluation_request-Fails f) e) (rw (e, ask) at h))
      | inl (r, e) ↦
          elim (Result-cases
            (authzen.Client.Calls.evaluate net json (new_client_of f.global) w (some r)).1) [
              | inr (why, d) ↦ absurd (one_not_zero (rw (e, ask, d, report_reply) at h))
              | inl (reply, d) ↦ elim (report_zero f reply (rw (e, ask, d, report_reply) at h)) [
                | inl off ↦ inl off
                | inr yes' ↦ inr (r, reply, e, d, yes')
              ]
            ]
    ]

    -- When evaluate exits with 0, help was asked for, or the flags were read and the decision
    -- point permitted the request they describe, unless the code for a deny is 0.
    pub run_evaluate-IsPermitted :
        (args : List Text)
        → (run_evaluate host net json parse w args).1.code ≡ pos 0
        → (help_requested args ≡ true)
          ⊎ ((parse args ≡ flag_help)
              ⊎ ((f : EvaluateFlags) × (parse args ≡ parsed f) × IsPermitted f))
    unfolding run_evaluate start parse_flags
    run_evaluate-IsPermitted args h = elim (Bool-cases (help_requested args)) [
      | inl e ↦ inl e
      | inr e ↦ elim (Parsed-cases (parse args)) [
        | inl (f, d) ↦ elim (Result-cases (validate_global net f.global)) [
          | inl (u, v) ↦
              inr (inr (f, d, ask_zero f (rw (e, d, v, run_evaluate, start, parse_flags) at h)))
          | inr (n, v) ↦ absurd (
              IsFailure-pos (Fails-err _ (validate_global-Fails net f.global) v)
                (rw (e, d, v, run_evaluate, start, parse_flags) at h))
        ]
        | inr (inl d) ↦ inr (inl d)
        | inr (inr d) ↦ absurd (two_not_zero (rw (e, d, run_evaluate, start, parse_flags) at h))
      ]
    ]

    -- A word help among the arguments of evaluate with no -- before it, be it the value of a flag,
    -- prints the usage and exits with 0, and nothing is asked.
    pub run_evaluate-help :
        (before after : List Text)
        → All (λ a. text_eq a (text "--") ≡ false) before
        → run_evaluate host net json parse w (before ++ text "help" ∷ after)
          ≡ (w, record { code = pos 0; stdout = usage ∷ [] })
    unfolding run_evaluate start
    run_evaluate-help before after h = rw (help_requested-help before after h)
