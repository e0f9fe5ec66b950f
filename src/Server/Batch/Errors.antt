-- ===== src/Server/Batch/Errors.antt =====
-- Members that fail: what the caller is told, and when the batch still returns.
use authzen.Base.{ℕ, ◌≡◌, refl, false, none, some, Text, []}
use authzen.Core.Batch.{resolved}
use authzen.Core.Types.{
  EvaluationRequest, EvaluationResponse, EvaluationsRequest, EvaluationsResponse,
}
use authzen.Server.Pdp.{Reply, answered, failed, panicked, Pdp}
use authzen.Server.Batch.Semantics.{evaluate_members-value}
use authzen.Server.Batch.{
  BatchConfig, value, semantic_of, member_error, denied_by_error, settle, evaluate_batch,
}

-- The decision point answers with a response or an error, and the context does not end.
abbrev pub IsSettled : {A : Type 0} → Reply A → Type 0
IsSettled (answered none) = ⊥
IsSettled (answered (some r)) = Unit
IsSettled (failed e) = Unit
IsSettled (panicked p) = ⊥

settle-value :
    {S : Type 0} (pdp : Pdp S) (c : BatchConfig) (i : ℕ) (s : S) (reply : Reply EvaluationResponse)
    → pdp.ctx_err s ≡ none
    → IsSettled reply
    → (r : EvaluationResponse) × (settle pdp c i s reply ≡ value r)
unfolding settle
settle-value pdp c i s (answered none) live h = absurd h
settle-value pdp c i s (answered (some r)) live h = (r, refl)
settle-value pdp c i s (failed e) live h = (denied_by_error c i e, rw live)
settle-value pdp c i s (panicked p) live h = absurd h

-- A batch returns whatever the errors of its members, as long as the decision point neither
-- panics nor returns nothing and the context does not end.
pub evaluate_batch-value :
    {S : Type 0} (pdp : Pdp S) (c : BatchConfig) (s : S) (r : EvaluationsRequest)
    → ((s : S) → pdp.ctx_err s ≡ none)
    → ((s : S) (q : EvaluationRequest) → IsSettled (pdp.evaluate s q).1)
    → (resp : EvaluationsResponse) × ((evaluate_batch pdp c s r).1 ≡ value resp)
unfolding evaluate_batch
evaluate_batch-value pdp c s r live settled =
    let (all, h) =
      evaluate_members-value pdp c (semantic_of r.options)
        (λ i s q. settle-value pdp c i _ (pdp.evaluate s q).1 (live _) (settled s q)) 0 [] s
        (resolved r) in
    (record { decision = none; context = none; evaluations = some all }, rw h)

-- Unless verbose errors are on, the deny that stands for a failed member does not depend on what
-- the decision point's error says; a member that fails is denied in either case.
pub denied_by_error_opaque :
    (c : BatchConfig) (i : ℕ) (e e' : Text)
    → (c.verbose_errors ≡ false → denied_by_error c i e ≡ denied_by_error c i e')
      × ((denied_by_error c i e).decision ≡ false)
unfolding denied_by_error member_error
denied_by_error_opaque c i e e' = (λ h. rw h, refl)
