-- ===== src/Server/Routes/Safety.antt =====
-- ServeHTTP as a whole: what it may ask of the decision point, and when it panics.
use authzen.Base.{Bool, true, false, ◌≡◌, Result, ok, err, if◌then◌else◌, arith}
use authzen.Server.Endpoints.Safety.{
  Keeps, handle_evaluation-Keeps, handle_evaluations-Keeps, handle_search_subject-Keeps,
  handle_search_resource-Keeps, handle_search_action-Keeps,
}
use authzen.Server.Handler.{Env, Handler}
use authzen.Server.Http.{Request, Response}
use authzen.Server.Pdp.{Panic, abort_handler, message, Pdp}
use authzen.Server.Routes.{serve_mux, recover, serve_http}

if-elim {ℓ κ} :
    {A : Type ℓ} (Q : A → Type κ) (b : Bool) {x y : A} → Q x → Q y → Q (if b then x else y)
if-elim Q true p q = p
if-elim Q false p q = q

-- Whatever arrives at the handler, the decision point is only asked with requests that passed
-- their validation (complete evaluations, batches of a known semantic whose members are complete,
-- searches with what they require and no id of what is searched for), so ServeHTTP keeps every
-- property of its state that such calls keep.
pub serve_http-Keeps :
    {S : Type 0} (pdp : Pdp S) (P : S → Type 0) (h : Handler) (env : Env) (s : S) (r : Request)
    → Keeps pdp P
    → P s
    → P (serve_http h env pdp s r).0
unfolding serve_http serve_mux
serve_http-Keeps {S} pdp P h env s r k p =
    let Q = λ (x : S × Result Panic Response). P x.0 in
    if-elim Q _ (handle_evaluation-Keeps pdp P k h env s r p) (
      if-elim Q _ (handle_evaluations-Keeps pdp P k h env s r p) (
        if-elim Q _ (handle_search_subject-Keeps pdp P k h env s r p) (
          if-elim Q _ (handle_search_resource-Keeps pdp P k h env s r p)
            (if-elim Q _ (handle_search_action-Keeps pdp P k h env s r p) (if-elim Q _ p p)))))

recover_panics :
    {S : Type 0} (h : Handler) (env : Env) (pdp : Pdp S) (s : S) (r : Request)
    (o : Result Panic Response) {p : Panic}
    → recover h env pdp s r o ≡ err p
    → (p ≡ abort_handler) × (o ≡ err abort_handler)
unfolding recover
recover_panics h env pdp s r (ok resp) e = cc
recover_panics h env pdp s r (err abort_handler) e = ground arith
recover_panics h env pdp s r (err (message m)) e = cc

-- Every request is answered, a panic of the decision point included, unless the panic is
-- http.ErrAbortHandler.
pub serve_http_panics :
    {S : Type 0} (h : Handler) (env : Env) (pdp : Pdp S) (s : S) (r : Request) {p : Panic}
    → (serve_http h env pdp s r).1 ≡ err p
    → (p ≡ abort_handler) × ((serve_mux h env pdp s r).1 ≡ err abort_handler)
unfolding serve_http
serve_http_panics h env pdp s r e = recover_panics h env pdp s r (serve_mux h env pdp s r).1 e
