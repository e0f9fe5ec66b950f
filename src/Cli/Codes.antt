-- ===== src/Cli/Codes.antt =====
-- cmd/authzen: the exit codes of the commands.
use authzen.Base.{
  Bool, true, false, List, [], ◌∷◌, Option, Text, text, text_eq, ℤ, pos, Result, ok, err, ◌>>=◌,
  ◌≡◌, refl, ◌⊎◌, inl, inr, Bool-cases, Result-cases, text_eq_iff, is_empty, ap,
}
use authzen.Client.Config.{Net}
use authzen.Client.Transport.{ClientError}
use authzen.Client.Calls.{Json}
use authzen.Core.Types.{EvaluationResponse, EvaluationRequest}
use authzen.Json.{Fields}
use authzen.Cli.Options.{
  GlobalOpts, Parsed, parsed, flag_help, flag_error, Output, Exit, start, parse_flags,
  validate_global, help_requested,
}
use authzen.Cli.Evaluate.{
  or_code, Host, EvaluateFlags, documents, read_request, run_evaluate, ask, report, report_reply,
  printed, decision_code,
}
use authzen.Cli.Gate.{
  Fails-err, IsFailure, Fails, bind-Fails, or_code-Fails, validate_global-Fails,
  optional_object-Fails, documents-Fails, printed-Fails, build_evaluation_request-Fails,
}
use authzen.Cli.Commands.{
  Formats, EvaluationsFlags, SearchFlags, SearchKind, subject_kind, resource_kind, action_kind,
  Parsers, finish, show, request_or_flags, evaluations_request, call_with,
}
use authzen.Cli.Run.{
  run_evaluations, search_with, search_in_context, run_search_kind, run_discover, is_help,
  run_search, run,
}

-- 0, 1 or 2.
pub IsCode : ℤ → Type 0
IsCode n = (n ≡ pos 0) ⊎ IsFailure n

finish-IsCode : (r : Result ℤ (List Output)) → Fails r → IsCode (finish r).code
unfolding finish IsCode Fails
finish-IsCode (ok out) h = inl refl
finish-IsCode (err n) h = inr h

show-IsCode :
    {A : Type 0} (as_json : Bool) (print : A → Result Text Text) (lines : A → List Output)
    (r : Result ClientError A)
    → IsCode (show as_json print lines r).code
unfolding show IsCode IsFailure Fails
show-IsCode as_json print lines (err e) = inr (inl refl)
show-IsCode true print lines (ok a) =
    finish-IsCode (documents (print a)) (documents-Fails (print a))
show-IsCode false print lines (ok a) = finish-IsCode (ok (lines a)) tt

module _ {W : Type 0} (w : W) where
  call_with-IsCode :
      {R A : Type 0} (request : Result ℤ R) (send : R → W × Result ClientError A)
      (shown : Result ClientError A → Exit)
      → Fails request
      → ((r : Result ClientError A) → IsCode (shown r).code)
      → IsCode (call_with w request send shown).1.code
  unfolding call_with IsCode Fails
  call_with-IsCode (err n) send shown h k = inr h
  call_with-IsCode (ok r) send shown h k = k (send r).1

  -- What holds of the codes of failures, of 0 and of the command itself holds of its run.
  start-code :
      {F : Type 0} (net : Net W) (args : List Text) (flags : Parsed F) (global : F → GlobalOpts)
      (body : F → W × Exit) (P : ℤ → Type 0)
      → ((n : ℤ) → IsCode n → P n)
      → ((f : F) → flags ≡ parsed f → P (body f).1.code)
      → P (start net w args flags global body).1.code
  unfolding start parse_flags IsCode IsFailure
  start-code net args flag_help global body P codes k = elim (Bool-cases (help_requested args)) [
    | inl e ↦ rw (e) (codes (pos 0) (inl refl))
    | inr e ↦ rw (e) (codes (pos 0) (inl refl))
  ]
  start-code net args flag_error global body P codes k = elim (Bool-cases (help_requested args)) [
    | inl e ↦ rw (e) (codes (pos 0) (inl refl))
    | inr e ↦ rw (e) (codes (pos 2) (inr (inr refl)))
  ]
  start-code net args (parsed f) global body P codes k = elim (Bool-cases (help_requested args)) [
    | inl e ↦ rw (e) (codes (pos 0) (inl refl))
    | inr e ↦ elim (Result-cases (validate_global net (global f))) [
      | inl (u, v) ↦ rw (e, v) (k f refl)
      | inr (n, v) ↦
          rw (e, v) (codes n (inr (Fails-err _ (validate_global-Fails net (global f)) v)))
    ]
  ]

module _ (host : Host) where
  read_and_decode-Fails :
      {R : Type 0} (path : Text) (decode : Text → Result Text R)
      → Fails (or_code (pos 1) (read_request host path) >>= λ bytes. or_code (pos 1) (decode bytes))
  unfolding IsFailure
  read_and_decode-Fails path decode =
      bind-Fails _ _ (or_code-Fails (pos 1) (read_request host path) (inl refl))
        (λ bytes. or_code-Fails (pos 1) (decode bytes) (inl refl))

  request_or_flags-Fails :
      {R : Type 0} (path : Text) (decode : Text → Result Text R) (r : R)
      → Fails (request_or_flags host path decode r)
  unfolding request_or_flags Fails
  request_or_flags-Fails path decode r = elim (Bool-cases (is_empty path)) [
    | inl e ↦ rw (e) tt
    | inr e ↦ rw (e) (read_and_decode-Fails path decode)
  ]

  evaluations_request-Fails :
      (formats : Formats) (f : EvaluationsFlags) → Fails (evaluations_request host formats f)
  unfolding evaluations_request Fails IsFailure
  evaluations_request-Fails formats f = elim (Bool-cases (is_empty f.request_path)) [
    | inl e ↦ rw (e) (inr refl)
    | inr e ↦ rw (e) (read_and_decode-Fails f.request_path formats.parse_evaluations)
  ]

  module _ {W : Type 0} (formats : Formats) (net : Net W) (json : Json) (parsers : Parsers)
      (w : W) where
    run_evaluations-IsCode :
        (args : List Text)
        → IsCode
            (run_evaluations host formats net json parsers.parse_evaluations_flags w args).1.code
    unfolding run_evaluations
    run_evaluations-IsCode args =
        start-code w net args _ _ _ IsCode (λ n c. c)
          (λ f e.
            call_with-IsCode w _ _ _ (evaluations_request-Fails formats f)
              (λ r. show-IsCode f.global.json formats.print_evaluations _ r))

    run_discover-IsCode :
        (args : List Text)
        → IsCode (run_discover host formats net json parsers.parse_discover w args).1.code
    unfolding run_discover Fails
    run_discover-IsCode args =
        start-code w net args _ _ _ IsCode (λ n c. c)
          (λ g e.
            call_with-IsCode w (ok g) _ _ tt (λ r. show-IsCode g.json formats.print_metadata _ r))

    search_with-IsCode :
        (kind : SearchKind) (f : SearchFlags) (context : Option Fields)
        → IsCode (search_with host formats net json kind w f context).1.code
    unfolding search_with
    search_with-IsCode subject_kind f context =
        call_with-IsCode w _ _ _ (request_or_flags-Fails f.request_path _ _)
          (λ r. show-IsCode f.global.json formats.print_subjects _ r)
    search_with-IsCode resource_kind f context =
        call_with-IsCode w _ _ _ (request_or_flags-Fails f.request_path _ _)
          (λ r. show-IsCode f.global.json formats.print_resources _ r)
    search_with-IsCode action_kind f context =
        call_with-IsCode w _ _ _ (request_or_flags-Fails f.request_path _ _)
          (λ r. show-IsCode f.global.json formats.print_actions _ r)

    search_in_context-IsCode :
        (kind : SearchKind) (f : SearchFlags) (context : Result ℤ (Option Fields))
        → Fails context
        → IsCode (search_in_context host formats net json kind w f context).1.code
    unfolding search_in_context Fails IsCode
    search_in_context-IsCode kind f (err n) h = inr h
    search_in_context-IsCode kind f (ok context) h = search_with-IsCode kind f context

    run_search_kind-IsCode :
        (kind : SearchKind) (args : List Text)
        → IsCode
            (run_search_kind host formats net json kind (parsers.parse_search kind) w args).1.code
    unfolding run_search_kind
    run_search_kind-IsCode kind args =
        start-code w net args _ _ _ IsCode (λ n c. c)
          (λ f e. search_in_context-IsCode kind f _ (optional_object-Fails host f.context_json))

    run_search-IsCode :
        (args : List Text) → IsCode (run_search host formats net json parsers w args).1.code
    unfolding run_search IsCode IsFailure
    run_search-IsCode [] = inr (inr refl)
    run_search-IsCode (a ∷ rest) = elim (Bool-cases (is_help a)) [
      | inl e ↦ rw (e) (inl refl)
      | inr e ↦ elim (Bool-cases (text_eq a (text "subject"))) [
        | inl s ↦ rw (e, s) (run_search_kind-IsCode subject_kind rest)
        | inr s ↦ elim (Bool-cases (text_eq a (text "resource"))) [
          | inl r ↦ rw (e, s, r) (run_search_kind-IsCode resource_kind rest)
          | inr r ↦ elim (Bool-cases (text_eq a (text "action"))) [
            | inl c ↦ rw (e, s, r, c) (run_search_kind-IsCode action_kind rest)
            | inr c ↦ rw (e, s, r, c) (inr (inr refl))
          ]
        ]
      ]
    ]

    -- The code that a flag of evaluate asks for.
    pub IsDenyCode : List Text → ℤ → Type 0
    IsDenyCode args n =
        (f : EvaluateFlags) × (parsers.parse_evaluate args ≡ parsed f) × (n ≡ f.deny_exit_code)

    decision_code-cases :
        (f : EvaluateFlags) (b : Bool)
        → IsCode (decision_code host f.deny_exit_code b)
          ⊎ (decision_code host f.deny_exit_code b ≡ f.deny_exit_code)
    unfolding decision_code IsCode
    decision_code-cases f true = inl (inl refl)
    decision_code-cases f false = inr refl

    report_reply-cases :
        (f : EvaluateFlags) (r : Result ClientError EvaluationResponse)
        → IsCode (report_reply host f r).code ⊎ ((report_reply host f r).code ≡ f.deny_exit_code)
    unfolding report_reply report IsCode IsFailure
    report_reply-cases f (err e) = inl (inr (inl refl))
    report_reply-cases f (ok r) = elim (Result-cases (printed host f r)) [
      | inl (out, e) ↦ rw (e, report) (decision_code-cases f r.decision)
      | inr (n, e) ↦ rw (e, report) (inl (inr (Fails-err _ (printed-Fails host f r) e)))
    ]

    ask-cases :
        (f : EvaluateFlags) (request : Result ℤ EvaluationRequest)
        → Fails request
        → IsCode (ask host net json w f request).1.code
          ⊎ ((ask host net json w f request).1.code ≡ f.deny_exit_code)
    unfolding ask Fails IsCode
    ask-cases f (err n) h = inl (inr h)
    ask-cases f (ok r) h = report_reply-cases f _

    run_evaluate-cases :
        (args : List Text)
        → IsCode (run_evaluate host net json parsers.parse_evaluate w args).1.code
          ⊎ IsDenyCode args (run_evaluate host net json parsers.parse_evaluate w args).1.code
    unfolding run_evaluate IsDenyCode
    run_evaluate-cases args =
        start-code w net args _ _ _ (λ n. IsCode n ⊎ IsDenyCode args n) (λ n c. inl c)
          (λ f e. elim (ask-cases f _ (build_evaluation_request-Fails host f)) [
            | inl c ↦ inl c
            | inr d ↦ inr (f, e, d)
          ])

    -- Every command line ends with 0, 1 or 2, or is one of evaluate whose flags were read and that
    -- ends with the code they ask for a deny.
    pub run-IsCode :
        (args : List Text)
        → IsCode (run host formats net json parsers w args).1.code
          ⊎ ((rest : List Text) × (args ≡ text "evaluate" ∷ rest)
              × IsDenyCode rest (run host formats net json parsers w args).1.code)
    unfolding run IsCode IsFailure
    run-IsCode [] = inl (inr (inr refl))
    run-IsCode (a ∷ rest) = elim (Bool-cases (is_help a)) [
      | inl e ↦ rw (e) (inl (inl refl))
      | inr e ↦ elim (Bool-cases (text_eq a (text "evaluate"))) [
        | inl s ↦ elim (run_evaluate-cases rest) [
          | inl c ↦ rw (e, s) (inl c)
          | inr d ↦
              rw (e, s) (inr (rest, ap (λ x. x ∷ rest) ((text_eq_iff a (text "evaluate")).0 s), d))
        ]
        | inr s ↦ elim (Bool-cases (text_eq a (text "evaluations"))) [
          | inl r ↦ rw (e, s, r) (inl (run_evaluations-IsCode rest))
          | inr r ↦ elim (Bool-cases (text_eq a (text "search"))) [
            | inl c ↦ rw (e, s, r, c) (inl (run_search-IsCode rest))
            | inr c ↦ elim (Bool-cases (text_eq a (text "discover"))) [
              | inl d ↦ rw (e, s, r, c, d) (inl (run_discover-IsCode rest))
              | inr d ↦ rw (e, s, r, c, d) (inl (inr (inr refl)))
            ]
          ]
        ]
      ]
    ]
