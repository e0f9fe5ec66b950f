-- ===== src/Server/Batch.antt =====
-- EvaluateBatch: the members one after another, the short circuits, and members that fail.
pub mod Semantics
pub mod Errors
pub mod Logic
use authzen.Base.{
  ℕ, ◌+◌, ◌≡◌, refl, ◌⊎◌, inl, inr, Bool, true, false, not, ◌&&◌, ◌||◌, List, [], ◌∷◌, ◌++◌, Option,
  none, some, Text, text, text_eq, is_empty, ℤ, pos, if◌then◌else◌, ◌≡◌, ◌⊎◌, inl, inr,
}
use authzen.Json.{Any, Fields, field, end, evaluation_error}
use authzen.Core.Types.{
  EvaluationRequest, EvaluationResponse, EvaluationsRequest, EvaluationsResponse, Options,
}
use authzen.Core.Batch.{
  resolved, semantic_execute_all, semantic_deny_on_first_deny, semantic_permit_on_first_permit,
}
use authzen.Server.Pdp.{Panic, message, Reply, answered, failed, panicked, Pdp}

-- batchConfig. Correlation ids come from a random source: `correlation_id i` is the one that is
-- drawn for member i.
pub record BatchConfig : Type 0 where
  pub verbose_errors : Bool
  pub correlation_id : ℕ → Text

-- How a run ends for its caller: with a value, with the context's error, or in a panic.
pub data Outcome (A : Type 0) : Type 0 where
  value : A → Outcome A
  aborted : Text → Outcome A
  panics : Panic → Outcome A

pub Outcome-cases :
    {A : Type 0} (o : Outcome A)
    → ((a : A) × (o ≡ value a)) ⊎ ((e : Text) × (o ≡ aborted e)) ⊎ ((p : Panic) × (o ≡ panics p))
Outcome-cases (value a) = inl (a, refl)
Outcome-cases (aborted e) = inr (inl (e, refl))
Outcome-cases (panics p) = inr (inr (p, refl))

-- `options` may be nil, and its semantic empty.
unfoldable pub semantic_of : Option Options → Text
semantic_of none = semantic_execute_all
semantic_of (some o) =
    if is_empty o.evaluations_semantic then semantic_execute_all else o.evaluations_semantic

generic_member_error_message : Text
generic_member_error_message = text "internal error evaluating this request"

unfoldable pub status_internal_server_error : ℤ
status_internal_server_error = pos 500

unfoldable pub member_error : BatchConfig → ℕ → Text → Any
unfolding generic_member_error_message
member_error c index e =
    let said = if c.verbose_errors then e else generic_member_error_message in
    evaluation_error status_internal_server_error
      (said ++ text " (correlation id: " ++ c.correlation_id index ++ text ")")

-- A member that fails is a deny that carries the error.
unfoldable pub denied_by_error : BatchConfig → ℕ → Text → EvaluationResponse
denied_by_error c i e = record {
  decision = false;
  context = some (field (text "error") (member_error c i e) end);
}

abbrev pub or_context_error : {A : Type 0} → Option Text → A → Outcome A
or_context_error (some ctx_err) r = aborted ctx_err
or_context_error none r = value r

-- The response of member i from the decision point's reply, in the state after the call. A nil
-- response with a nil error is dereferenced.
unfoldable pub settle :
    {S : Type 0}
    → Pdp S
    → BatchConfig
    → ℕ
    → S
    → Reply EvaluationResponse
    → Outcome EvaluationResponse
settle pdp c i s (answered none) = panics (message (text "nil pointer dereference"))
settle pdp c i s (answered (some r)) = value r
settle pdp c i s (failed e) = or_context_error (pdp.ctx_err s) (denied_by_error c i e)
settle pdp c i s (panicked p) = panics p

-- `switch semantic` after a member: whether the loop returns.
unfoldable pub stops : Text → Bool → Bool
stops semantic decision =
    if text_eq semantic semantic_deny_on_first_deny
    then not decision
    else text_eq semantic semantic_permit_on_first_permit && decision

-- The loop, from member i, with the responses so far.
unfoldable pub evaluate_members :
    {S : Type 0}
    → Pdp S
    → BatchConfig
    → Text
    → ℕ
    → List EvaluationResponse
    → S
    → List EvaluationRequest
    → S × Outcome (List EvaluationResponse)
evaluate_members pdp c semantic i out s [] = (s, value out)
evaluate_members pdp c semantic i out s (q ∷ qs) =
    let (s', reply) = pdp.evaluate s q in
    elim (settle pdp c i s' reply) [
      | value r ↦
          let out' = out ++ (r ∷ []) in
          elim (stops semantic r.decision) [
            | true ↦ (s', value out')
            | false ↦ evaluate_members pdp c semantic (i + 1) out' s' qs
          ]
      | aborted e ↦ (s', aborted e)
      | panics p ↦ (s', panics p)
    ]

abbrev pub as_evaluations : Outcome (List EvaluationResponse) → Outcome EvaluationsResponse
as_evaluations (value rs) =
    value (record { decision = none; context = none; evaluations = some rs })
as_evaluations (aborted e) = aborted e
as_evaluations (panics p) = panics p

unfoldable pub evaluate_batch :
    {S : Type 0} → Pdp S → BatchConfig → S → EvaluationsRequest → S × Outcome EvaluationsResponse
evaluate_batch pdp c s r =
    let (s', o) = evaluate_members pdp c (semantic_of r.options) 0 [] s (resolved r) in
    (s', as_evaluations o)
