-- ===== src/Server/Batch/Semantics.antt =====
-- What the three semantics promise of EvaluateBatch.
use mathlib.Core.List.{append-nil, append_assoc}
use authzen.Base.{
  ℕ, suc, ◌+◌, ◌≡◌, refl, ap, ◌∙◌, ◌⊎◌, inl, inr, true, false, List, [], ◌∷◌, ◌++◌, map, none, some,
  Text, All, take, length, Bool-cases, arith,
}
use authzen.Core.Types.{
  EvaluationRequest, EvaluationResponse, EvaluationsRequest, EvaluationsResponse,
}
use authzen.Core.Batch.{resolved}
use authzen.Server.Pdp.{Pdp}
use authzen.Server.Batch.{
  BatchConfig, Outcome, value, semantic_of, settle, stops, evaluate_members, evaluate_batch,
  Outcome-cases, as_evaluations,
}

module _ {S : Type 0} (pdp : Pdp S) (c : BatchConfig) where
  -- The state after the decision point has answered these members.
  abbrev pub after : S → List EvaluationRequest → S
  after s [] = s
  after s (q ∷ qs) = after (pdp.evaluate s q).0 qs

  -- Every member's own outcome, were none of them skipped.
  abbrev pub answers : ℕ → S → List EvaluationRequest → List (Outcome EvaluationResponse)
  answers i s [] = []
  answers i s (q ∷ qs) =
      settle pdp c i (pdp.evaluate s q).0 (pdp.evaluate s q).1
      ∷ answers (i + 1) (pdp.evaluate s q).0 qs

abbrev pub Goes : Text → EvaluationResponse → Type 0
Goes semantic r = stops semantic r.decision ≡ false

-- All n members are answered and none stops the loop, or the last response is the first that does.
abbrev pub EndsRight : Text → ℕ → List EvaluationResponse → Type 0
EndsRight semantic n rs =
    (All (Goes semantic) rs × (length rs ≡ n))
    ⊎ ((front : List EvaluationResponse) × (last : EvaluationResponse) × (rs ≡ front ++ (last ∷ []))
        × All (Goes semantic) front
        × (stops semantic last.decision ≡ true))

module _ {S : Type 0} (pdp : Pdp S) (c : BatchConfig) (semantic : Text) where
  -- The responses are the outcomes of the first members in order, the decision point was asked for
  -- those members and for no other, and the responses end where the semantic says.
  pub record Run (i : ℕ) (s : S) (qs : List EvaluationRequest) (rs : List EvaluationResponse)
      (s' : S) : Type 0 where
    pub in_order : map value rs ≡ take (length rs) (answers pdp c i s qs)
    pub asked : s' ≡ after pdp c s (take (length rs) qs)
    pub ends : EndsRight semantic (length qs) rs

  Run-none : (i : ℕ) (s : S) → Run i s [] [] s
  Run-none i s = record { in_order = refl; asked = refl; ends = inl (tt, refl) }

  Run-stop :
      (i : ℕ) (s : S) (q : EvaluationRequest) (qs : List EvaluationRequest) (r : EvaluationResponse)
      → settle pdp c i (pdp.evaluate s q).0 (pdp.evaluate s q).1 ≡ value r
      → stops semantic r.decision ≡ true
      → Run i s (q ∷ qs) (r ∷ []) (pdp.evaluate s q).0
  Run-stop i s q qs r e h = record {
    in_order = rw e;
    asked = refl;
    ends = inr ([], r, refl, tt, h);
  }

  EndsRight-cons :
      (n : ℕ) (r : EvaluationResponse) (rs : List EvaluationResponse)
      → Goes semantic r
      → EndsRight semantic n rs
      → EndsRight semantic (suc n) (r ∷ rs)
  EndsRight-cons n r rs g (inl (gs, e)) = inl ((g, gs), ap suc e)
  EndsRight-cons n r rs g (inr (front, last, e, gs, h)) =
      inr (r ∷ front, last, ap (◌∷◌ r) e, (g, gs), h)

  Run-cons :
      (i : ℕ) (s : S) (q : EvaluationRequest) (qs : List EvaluationRequest) (r : EvaluationResponse)
      (rs : List EvaluationResponse) (s' : S)
      → settle pdp c i (pdp.evaluate s q).0 (pdp.evaluate s q).1 ≡ value r
      → Goes semantic r
      → Run (i + 1) (pdp.evaluate s q).0 qs rs s'
      → Run i s (q ∷ qs) (r ∷ rs) s'
  Run-cons i s q qs r rs s' e g run = record {
    in_order = rw e (ap (◌∷◌ (value r)) run.in_order);
    asked = run.asked;
    ends = EndsRight-cons (length qs) r rs g run.ends;
  }

  value-injective : {a b : List EvaluationResponse} → value a ≡ value b → b ≡ a
  value-injective h = cc

  evaluate_members-Run :
      (i : ℕ) (out : List EvaluationResponse) (s : S) (qs : List EvaluationRequest)
      {all : List EvaluationResponse}
      → (evaluate_members pdp c semantic i out s qs).1 ≡ value all
      → (rs : List EvaluationResponse) × (all ≡ out ++ rs)
        × Run i s qs rs (evaluate_members pdp c semantic i out s qs).0
  unfolding evaluate_members
  evaluate_members-Run i out s [] h = ([], ground (arith, append-nil out), Run-none i s)
  evaluate_members-Run i out s (q ∷ qs) {all} h =
      elim (Outcome-cases (settle pdp c i (pdp.evaluate s q).0 (pdp.evaluate s q).1)) [
        | inl (r, e) ↦ elim (Bool-cases (stops semantic r.decision)) [
          | inl st ↦
              rw (e, st, evaluate_members)
                (
                  r ∷ [],
                  value-injective (rw (e, st, evaluate_members) at h),
                  Run-stop i s q qs r e st,
                )
          | inr go ↦
              let (rs, same, run) =
                evaluate_members-Run (i + 1) (out ++ (r ∷ [])) (pdp.evaluate s q).0 qs
                  (rw (e, go, evaluate_members) at h) in
              rw (e, go, evaluate_members)
                (r ∷ rs, same ∙ append_assoc out (r ∷ []) rs, Run-cons i s q qs r rs _ e go run)
        ]
        | inr (inl (x, e)) ↦ cc (rw (e, evaluate_members) at h)
        | inr (inr (x, e)) ↦ cc (rw (e, evaluate_members) at h)
      ]

shape_of :
    {all : List EvaluationResponse} {resp : EvaluationsResponse}
    → as_evaluations (value all) ≡ value resp
    → (resp.evaluations ≡ some all) × (resp.decision ≡ none)
shape_of h = ground arith

module _ {S : Type 0} (pdp : Pdp S) (c : BatchConfig) where
  -- A batch that returns holds the outcomes of its first members in request order, each decided by
  -- itself in the state that the members before it left; the decision point was asked for those
  -- members and no other; and the responses cover all members with none that stops the loop, or
  -- end at the first that does. A request without evaluations is answered like a batch of one, in
  -- the evaluations array, where the documents of the repository ask for the single decision.
  pub evaluate_batch-Run :
      (s : S) (r : EvaluationsRequest) {resp : EvaluationsResponse}
      → (evaluate_batch pdp c s r).1 ≡ value resp
      → (rs : List EvaluationResponse) × (resp.evaluations ≡ some rs)
        × (resp.decision ≡ none)
        × Run pdp c (semantic_of r.options) 0 s (resolved r) rs (evaluate_batch pdp c s r).0
  unfolding evaluate_batch
  evaluate_batch-Run s r {resp} h =
      elim (Outcome-cases (evaluate_members pdp c (semantic_of r.options) 0 [] s (resolved r)).1) [
        | inl (all, e) ↦
            let (rs, same, run) =
              evaluate_members-Run pdp c (semantic_of r.options) 0 [] s (resolved r) e in
            let (shape, batch) = shape_of (rw e at h) in (rs, shape ∙ ap some same, batch, run)
        | inr (inl (x, e)) ↦ cc (rw e at h)
        | inr (inr (x, e)) ↦ cc (rw e at h)
      ]

  -- Where every member settles on a response, the loop returns.
  pub evaluate_members-value :
      (semantic : Text)
      → ((i : ℕ) (s : S) (q : EvaluationRequest)
          → (r : EvaluationResponse) × (settle pdp c i (pdp.evaluate s q).0 (pdp.evaluate s q).1
              ≡ value r))
      → (i : ℕ) (out : List EvaluationResponse) (s : S) (qs : List EvaluationRequest)
      → (all : List EvaluationResponse) × ((evaluate_members pdp c semantic i out s qs).1
          ≡ value all)
  unfolding evaluate_members
  evaluate_members-value semantic settles i out s [] = (out, refl)
  evaluate_members-value semantic settles i out s (q ∷ qs) =
      let (r, e) = settles i s q in
      elim (Bool-cases (stops semantic r.decision)) [
        | inl st ↦ (out ++ (r ∷ []), rw (e, st, evaluate_members))
        | inr go ↦
            let (all, h) =
              evaluate_members-value semantic settles (i + 1) (out ++ (r ∷ [])) (pdp.evaluate s q).0
                qs in
            (all, rw (e, go, evaluate_members) h)
      ]
