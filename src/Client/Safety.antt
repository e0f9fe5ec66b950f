-- ===== src/Client/Safety.antt =====
-- client/client.go: what is sent over any sequence of calls of a Client.
use authzen.Base.{
  Bool, true, false, ◌||◌, List, [], ◌∷◌, Option, none, some, Text, text, is_empty, if◌then◌else◌,
  ◌≡◌, refl, ◌⊎◌, inl, inr, Bool-cases, Option-cases, Result-cases, Result, ok, err, Returns,
  bind-Returns, Returns-weaken, subst, sym,
}
use authzen.Core.Types.{EvaluationRequest, EvaluationsRequest}
use authzen.Core.Search.{SubjectSearchRequest, ResourceSearchRequest, ActionSearchRequest}
use authzen.Core.Errors.{Error}
use authzen.Client.Config.{
  Url, HttpClient, HttpRequest, Hook, strip_sensitive, hooked, Net, Client, effective_http_client,
}
use authzen.Client.Issuer.{is_loopback}
use authzen.Client.Transport.{
  ClientError, check_transport_security, with_bearer, apply_auth, exchange, do_request, send_to,
  post_body, get,
}
use authzen.Client.Calls.{
  Json, call, evaluate, evaluate_batch, search_subjects, search_resources, search_actions, metadata,
}

-- One call of a Client's methods.
pub data Call : Type 0 where
  evaluate_call : Option EvaluationRequest → Call
  evaluate_batch_call : Option EvaluationsRequest → Call
  search_subjects_call : Option SubjectSearchRequest → Call
  search_resources_call : Option ResourceSearchRequest → Call
  search_actions_call : Option ActionSearchRequest → Call
  metadata_call : Call

module _ {W : Type 0} (net : Net W) (json : Json) (c : Client) where
  -- The state a call leaves.
  unfoldable pub after_call : W → Call → W
  after_call w (evaluate_call r) = (evaluate net json c w r).0
  after_call w (evaluate_batch_call r) = (evaluate_batch net json c w r).0
  after_call w (search_subjects_call r) = (search_subjects net json c w r).0
  after_call w (search_resources_call r) = (search_resources net json c w r).0
  after_call w (search_actions_call r) = (search_actions net json c w r).0
  after_call w metadata_call = (metadata net json c w).0

  unfoldable pub after_calls : W → List Call → W
  after_calls w [] = w
  after_calls w (k ∷ ks) = after_calls (after_call w k) ks

  -- Where a request may carry the static token.
  pub IsCovered : HttpRequest → Type 0
  IsCovered r =
      (c.allow_insecure_http ≡ true)
      ⊎ ((net.equal_fold r.url.scheme (text "https") ≡ true)
          ⊎ (is_loopback net r.url.hostname ≡ true))

  -- A request that carries no credentials where it may not carry them, sent by a client that has a
  -- hook for redirects.
  pub record IsSafe (h : HttpClient) (r : HttpRequest) : Type 0 where
    pub hook_set : (k : Hook) × (h.check_redirect ≡ some k)
    pub covered : (r.authorization ≡ none) ⊎ IsCovered r

  effective_http_client-hook :
      (o : Option HttpClient) → (k : Hook) × ((effective_http_client c o).check_redirect ≡ some k)
  unfolding effective_http_client hooked
  effective_http_client-hook none = (strip_sensitive, refl)
  effective_http_client-hook (some h) = elim (Option-cases h.check_redirect) [
    | inl e ↦ (strip_sensitive, rw (e))
    | inr (k, e) ↦ (k, rw (e))
  ]

  -- What a check that passed has found.
  guard-passes :
      (bare allow https loopback : Bool) (e : ClientError)
      → Returns
          (λ u. (bare ≡ true) ⊎ ((allow ≡ true) ⊎ ((https ≡ true) ⊎ (loopback ≡ true))))
          (if bare || allow then ok tt else if https || loopback then ok (tt {0}) else err e)
  guard-passes true allow https loopback e = inl refl
  guard-passes false true https loopback e = inr (inl refl)
  guard-passes false false true loopback e = inr (inr (inl refl))
  guard-passes false false false true e = inr (inr (inr refl))
  guard-passes false false false false e = tt

  with_bearer-bare :
      (r : HttpRequest)
      → is_empty c.bearer_token ≡ true
      → r.authorization ≡ none
      → (with_bearer c r).authorization ≡ none
  unfolding with_bearer
  with_bearer-bare r h bare = rw (h) bare

  with_bearer-url : (r : HttpRequest) → (with_bearer c r).url ≡ r.url
  unfolding with_bearer
  with_bearer-url r = elim (Bool-cases (is_empty c.bearer_token)) [
    | inl e ↦ rw (e)
    | inr e ↦ rw (e)
  ]

  check_transport_security-IsCovered :
      (r : HttpRequest)
      → r.authorization ≡ none
      → Returns
          (λ u. ((with_bearer c r).authorization ≡ none) ⊎ IsCovered (with_bearer c r))
          (check_transport_security net c r)
  unfolding check_transport_security IsCovered
  check_transport_security-IsCovered r bare =
      Returns-weaken _ _ (check_transport_security net c r)
        (guard-passes (is_empty c.bearer_token) c.allow_insecure_http
          (net.equal_fold r.url.scheme (text "https")) (is_loopback net r.url.hostname) _)
        (λ u e. elim e [
          | inl f ↦ inl (with_bearer-bare r f bare)
          | inr f ↦ inr (
              subst
                (λ v.
                  (c.allow_insecure_http ≡ true)
                  ⊎ ((net.equal_fold v.scheme (text "https") ≡ true)
                      ⊎ (is_loopback net v.hostname ≡ true)))
                (sym (with_bearer-url r)) f)
        ])

  apply_auth-none : (r : HttpRequest) → c.auth_func ≡ none → apply_auth c r ≡ ok (with_bearer c r)
  unfolding apply_auth
  apply_auth-none r h = rw (h)

  module _ (P : W → Type 0)
      (sends : (w : W) (h : HttpClient) (r : HttpRequest) → P w → IsSafe h r → P (net.send w h r).0)
      (no_hook : c.auth_func ≡ none) where
    exchange-keeps :
        {A : Type 0} (w : W) (unmarshal : Text → Result Text A) (r : Result ClientError HttpRequest)
        → P w
        → Returns (λ q. (q.authorization ≡ none) ⊎ IsCovered q) r
        → P (exchange net c w unmarshal r).0
    unfolding exchange
    exchange-keeps w unmarshal (err e) p q = p
    exchange-keeps w unmarshal (ok r) p q =
        sends w (effective_http_client c c.http_client) r p
          (record { hook_set = effective_http_client-hook c.http_client; covered = q })

    do_request-keeps :
        {A : Type 0} (w : W) (r : HttpRequest) (unmarshal : Text → Result Text A)
        → P w
        → r.authorization ≡ none
        → P (do_request net c w r unmarshal).0
    unfolding do_request
    do_request-keeps w r unmarshal p bare = exchange-keeps w unmarshal _ p (
        bind-Returns _ (λ q. (q.authorization ≡ none) ⊎ IsCovered q)
          (check_transport_security net c r) _ (check_transport_security-IsCovered r bare)
          (λ u covered.
            subst (Returns (λ q. (q.authorization ≡ none) ⊎ IsCovered q))
              (sym (apply_auth-none r no_hook)) covered))

    send_to-keeps :
        {A : Type 0} (w : W) (request : Url → HttpRequest) (unmarshal : Text → Result Text A)
        (u : Option Url)
        → P w
        → ((v : Url) → (request v).authorization ≡ none)
        → P (send_to net c w request unmarshal u).0
    unfolding send_to
    send_to-keeps w request unmarshal none p bare = p
    send_to-keeps w request unmarshal (some u) p bare =
        do_request-keeps w (request u) unmarshal p (bare u)

    post_body-keeps :
        {A : Type 0} (w : W) (url : Text) (unmarshal : Text → Result Text A)
        (body : Result Text Text)
        → P w
        → P (post_body net c w url unmarshal body).0
    unfolding post_body
    post_body-keeps w url unmarshal (err e) p = p
    post_body-keeps w url unmarshal (ok body) p =
        send_to-keeps w _ unmarshal (net.parse_url url) p (λ v. refl)

    get-keeps :
        {A : Type 0} (w : W) (url : Text) (unmarshal : Text → Result Text A)
        → P w
        → P (get net c w url unmarshal).0
    unfolding get
    get-keeps w url unmarshal p = send_to-keeps w _ unmarshal (net.parse_url url) p (λ v. refl)

    call-keeps :
        {A B : Type 0} (w : W) (validate : A → Result Error (Unit {0}))
        (send : A → W × Result ClientError B) (o : Option A)
        → P w
        → ((a : A) → P (send a).0)
        → P (call w validate send o).0
    unfolding call
    call-keeps w validate send none p k = p
    call-keeps w validate send (some a) p k = elim (Result-cases (validate a)) [
      | inr (e, eq) ↦ rw (eq, call) p
      | inl (u, eq) ↦ rw (eq, call) (k a)
    ]

    after_call-keeps : (w : W) (k : Call) → P w → P (after_call w k)
    unfolding after_call evaluate evaluate_batch search_subjects search_resources search_actions
        metadata
    after_call-keeps w (evaluate_call r) p = call-keeps w _ _ r p (λ a. post_body-keeps w _ _ _ p)
    after_call-keeps w (evaluate_batch_call r) p =
        call-keeps w _ _ r p (λ a. post_body-keeps w _ _ _ p)
    after_call-keeps w (search_subjects_call r) p =
        call-keeps w _ _ r p (λ a. post_body-keeps w _ _ _ p)
    after_call-keeps w (search_resources_call r) p =
        call-keeps w _ _ r p (λ a. post_body-keeps w _ _ _ p)
    after_call-keeps w (search_actions_call r) p =
        call-keeps w _ _ r p (λ a. post_body-keeps w _ _ _ p)
    after_call-keeps w metadata_call p = get-keeps w _ _ p

    -- Without a hook of the caller, every request that any sequence of calls of a client sends is
    -- sent with a hook for redirects, and carries the static token only over https, to the
    -- loopback interface, or when the caller allowed plain http; so the calls keep every property
    -- of the network that such requests keep.
    pub after_calls-keeps : (w : W) (ks : List Call) → P w → P (after_calls w ks)
    unfolding after_calls
    after_calls-keeps w [] p = p
    after_calls-keeps w (k ∷ ks) p = after_calls-keeps (after_call w k) ks (after_call-keeps w k p)
