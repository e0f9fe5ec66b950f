-- ===== src/Server/Batch/Logic.antt =====
-- The three semantics by their names: execute all, logical AND and logical OR.
use authzen.Base.{
  ℕ, ◌≡◌, refl, ◌⊎◌, inl, inr, Bool, true, false, not, List, [], ◌∷◌, ◌++◌, some, Text, text,
  text_eq, All, length, arith, subst,
}
use authzen.Core.Batch.{
  resolved, semantic_execute_all, semantic_deny_on_first_deny, semantic_permit_on_first_permit,
}
use authzen.Core.Types.{EvaluationResponse, EvaluationsRequest, EvaluationsResponse}
use authzen.Server.Pdp.{Pdp}
use authzen.Server.Batch.Semantics.{Goes, EndsRight, evaluate_batch-Run}
use authzen.Server.Batch.{BatchConfig, value, semantic_of, stops, evaluate_batch}

stops_deny : (d : Bool) → stops semantic_deny_on_first_deny d ≡ not d
unfolding stops semantic_deny_on_first_deny text text_eq
stops_deny d = refl

stops_permit : (d : Bool) → stops semantic_permit_on_first_permit d ≡ d
unfolding stops semantic_deny_on_first_deny semantic_permit_on_first_permit text text_eq
stops_permit d = refl

stops_execute_all : (d : Bool) → stops semantic_execute_all d ≡ false
unfolding stops semantic_deny_on_first_deny semantic_permit_on_first_permit semantic_execute_all
    text text_eq
stops_execute_all d = refl

-- The n members all decide against d, or the last response is the first to decide d.
abbrev pub EndsAtFirst : Bool → ℕ → List EvaluationResponse → Type 0
EndsAtFirst d n rs =
    (All (λ r. r.decision ≡ not d) rs × (length rs ≡ n))
    ⊎ ((front : List EvaluationResponse) × (last : EvaluationResponse) × (rs ≡ front ++ (last ∷ []))
        × All (λ r. r.decision ≡ not d) front
        × (last.decision ≡ d))

All-decision :
    (semantic : Text) (d : Bool)
    → ((b : Bool) → stops semantic b ≡ false → b ≡ not d)
    → (rs : List EvaluationResponse) → All (Goes semantic) rs
    → All (λ r. r.decision ≡ not d) rs
All-decision semantic d h [] a = tt
All-decision semantic d h (r ∷ rs) a = (h r.decision a.0, All-decision semantic d h rs a.1)

EndsRight-EndsAtFirst :
    (semantic : Text) (d : Bool) (n : ℕ) (rs : List EvaluationResponse)
    → ((b : Bool) → stops semantic b ≡ false → b ≡ not d)
    → ((b : Bool) → stops semantic b ≡ true → b ≡ d)
    → EndsRight semantic n rs
    → EndsAtFirst d n rs
EndsRight-EndsAtFirst semantic d n rs go halt (inl (all, e)) =
    inl (All-decision semantic d go rs all, e)
EndsRight-EndsAtFirst semantic d n rs go halt (inr (front, last, e, all, h)) =
    inr (front, last, e, All-decision semantic d go front all, halt last.decision h)

EndsRight-execute_all :
    (n : ℕ) (rs : List EvaluationResponse) → EndsRight semantic_execute_all n rs → length rs ≡ n
EndsRight-execute_all n rs (inl (all, e)) = e
EndsRight-execute_all n rs (inr (front, last, e, all, h)) = cc (stops_execute_all last.decision)

-- For a batch that returns, execute_all answers every member, deny_on_first_deny answers up to and
-- including the first deny, and permit_on_first_permit up to and including the first permit, or
-- all members where there is none. A request without evaluations counts as one member, and its
-- answer is an evaluations array too, where the documents of the repository ask for the single
-- decision.
pub evaluate_batch_semantics :
    {S : Type 0} (pdp : Pdp S) (c : BatchConfig) (s : S) (r : EvaluationsRequest)
    {resp : EvaluationsResponse}
    → (evaluate_batch pdp c s r).1 ≡ value resp
    → (rs : List EvaluationResponse) × (resp.evaluations ≡ some rs)
      × (semantic_of r.options ≡ semantic_execute_all → length rs ≡ length (resolved r))
      × (semantic_of r.options ≡ semantic_deny_on_first_deny
          → EndsAtFirst false (length (resolved r)) rs)
      × (semantic_of r.options ≡ semantic_permit_on_first_permit
          → EndsAtFirst true (length (resolved r)) rs)
evaluate_batch_semantics pdp c s r h =
    let (rs, shape, batch, run) = evaluate_batch-Run pdp c s r h in
    let n : ℕ = length (resolved r) in
    (
      rs,
      shape,
      λ e. EndsRight-execute_all n rs (subst (λ k. EndsRight k n rs) e run.ends),
      λ e.
          EndsRight-EndsAtFirst semantic_deny_on_first_deny false n rs
            (λ b g. ground (arith, stops_deny b)) (λ b g. ground (arith, stops_deny b))
            (subst (λ k. EndsRight k n rs) e run.ends),
      λ e.
          EndsRight-EndsAtFirst semantic_permit_on_first_permit true n rs
            (λ b g. ground (arith, stops_permit b)) (λ b g. ground (arith, stops_permit b))
            (subst (λ k. EndsRight k n rs) e run.ends),
    )
