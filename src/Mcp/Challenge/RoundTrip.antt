-- ===== src/Mcp/Challenge/RoundTrip.antt =====
-- mcp/challenge.go: ParseChallenge gives back what String has rendered.
use mathlib.Core.List.{append_assoc}
use authzen.Base.{
  ℕ, List, [], ◌∷◌, ◌++◌, Text, text, is_empty, if◌then◌else◌, false, Bool-cases, inl, inr, All, ok,
  ◌≡◌, refl, ◌∙◌, ap, sym, ◌==◌, arith,
}
use authzen.Mcp.Runes.{
  strip_control, sanitize_scheme, sanitize_scheme-Lacks, Lacks, is_control, is_space,
  is_control_or_space, trim_space, trim_right, trim_left_same, trim_right-append, trim_space_same,
  contains_func, contains_func-Lacks,
}
use authzen.Mcp.Quote.{quote, quote_string, escape}
use authzen.Mcp.Params.{span_until, parse_auth_params}
use authzen.Mcp.Challenge.{
  Challenge, add, params, join, rendered_scheme, to_string, after_first, challenge_of,
  parse_challenge, default_scheme,
}
use authzen.Mcp.Challenge.Render.{span_until-append, span_until_all}
use authzen.Mcp.Challenge.Keys.{carried_challenge, parse_auth_params-params, value_of-param_map}

-- A string that ends with a quote.
abbrev Closes : Text → Type 0
Closes s = (before : Text) × (s ≡ before ++ quote ∷ [])

Closes-append : (s t : Text) → Closes t → Closes (s ++ t)
Closes-append s t (before, e) =
    (s ++ before, ap (λ r. s ++ r) e ∙ sym (append_assoc s before (quote ∷ [])))

trim_right_closed : (s : Text) → Closes s → trim_right s ≡ s
unfolding trim_right is_space
trim_right_closed s (before, e) = rw e (trim_right-append before (quote ∷ []) (λ h. cc) refl)

add-Closes : (key v : Text) (later : List Text) → All Closes later → All Closes (add key v later)
unfolding add quote_string
add-Closes key v later h = elim (Bool-cases (is_empty (strip_control v))) [
  | inl e ↦ rw e h
  | inr e ↦ rw e (Closes-append key _ (b'=' ∷ quote ∷ escape (strip_control v), refl), h)
]

params-Closes : (c : Challenge) → All Closes (params c)
unfolding params
params-Closes c = add-Closes (text "realm") c.realm _ (
    add-Closes (text "error") c.error _ (
      add-Closes (text "error_description") c.error_description _ (
        add-Closes (text "scope") c.scope _
          (add-Closes (text "resource_metadata") c.resource_metadata [] tt))))

join-Closes :
    (sep s : Text) (more : List Text) → All Closes (s ∷ more) → Closes (join sep (s ∷ more))
unfolding join
join-Closes sep s [] h = h.0
join-Closes sep s (t ∷ more) h = Closes-append (s ++ sep) _ (join-Closes sep t more h.1)

-- The scheme of a header: a token with at least one rune.
pub rendered_scheme-Lacks : (s : Text) → Lacks is_control_or_space (rendered_scheme s)
unfolding rendered_scheme default_scheme text contains_func is_control is_space
rendered_scheme-Lacks s = elim (Bool-cases (is_empty (sanitize_scheme s))) [
  | inl e ↦ rw e (contains_func-Lacks is_control_or_space (text "Bearer") refl)
  | inr e ↦ rw e (sanitize_scheme-Lacks s)
]

pub rendered_scheme_ne : (s : Text) → is_empty (rendered_scheme s) ≡ false
unfolding rendered_scheme default_scheme text
rendered_scheme_ne s = elim (Bool-cases (is_empty (sanitize_scheme s))) [
  | inl e ↦ rw e refl
  | inr e ↦ rw e e
]

Lacks-space : (s : Text) → Lacks is_control_or_space s → Lacks is_space s
Lacks-space [] h = tt
Lacks-space (r ∷ s) h = (ground arith, Lacks-space s h.1)

Lacks-blank : (s : Text) → Lacks is_space s → Lacks (λ r. r == 0x20) s
unfolding is_space
Lacks-blank [] h = tt
Lacks-blank (r ∷ s) h = (ground arith, Lacks-blank s h.1)

-- A header with a scheme and parameters.
abbrev header : Text → List Text → Text
header scheme ps = if is_empty ps then scheme else scheme ++ 0x20 ∷ join (text ", ") ps

trim_space-header :
    (r : ℕ) (s : Text) (ps : List Text)
    → Lacks is_space (r ∷ s)
    → All Closes ps
    → trim_space (header (r ∷ s) ps) ≡ header (r ∷ s) ps
unfolding trim_space
trim_space-header r s [] h closed = trim_space_same (r ∷ s) h
trim_space-header r s (p ∷ ps) h closed =
    let last = Closes-append (0x20 ∷ []) _ (join-Closes (text ", ") p ps closed) in
    ap trim_right (trim_left_same r (s ++ 0x20 ∷ join (text ", ") (p ∷ ps)) h.0)
    ∙ trim_right_closed (header (r ∷ s) (p ∷ ps)) (Closes-append (r ∷ s) _ last)

span_until-header :
    (s : Text) (ps : List Text)
    → Lacks is_space s
    → ((span_until 0x20 (header s ps)).0 ≡ s)
      × (after_first (span_until 0x20 (header s ps)).1 ≡ join (text ", ") ps)
unfolding join
span_until-header s [] h = rw (span_until_all 0x20 s (Lacks-blank s h)) (refl, refl)
span_until-header s (p ∷ ps) h =
    rw (span_until-append 0x20 s (join (text ", ") (p ∷ ps)) (Lacks-blank s h)) (refl, refl)

is_empty-header : (r : ℕ) (s : Text) (ps : List Text) → is_empty (header (r ∷ s) ps) ≡ false
is_empty-header r s [] = refl
is_empty-header r s (p ∷ ps) = refl

parse_challenge-header :
    (scheme : Text) (ps : List Text)
    → is_empty scheme ≡ false
    → Lacks is_space scheme
    → All Closes ps
    → parse_challenge (header scheme ps)
      ≡ ok (challenge_of scheme (parse_auth_params (join (text ", ") ps)))
unfolding parse_challenge
parse_challenge-header [] ps n h closed = cc
parse_challenge-header (r ∷ s) ps n h closed =
    let split = span_until-header (r ∷ s) ps h in
    rw (trim_space-header r s ps h closed, is_empty-header r s ps, split.0, split.1) refl

-- Every challenge comes back from its header: the parameters without their control characters, and
-- the scheme as a bare token, the default one when nothing of it is left. The status is not carried.
pub parse_challenge-to_string :
    (c : Challenge) → parse_challenge (to_string c) ≡ ok (carried_challenge c)
unfolding to_string
parse_challenge-to_string c =
    let scheme = rendered_scheme c.scheme in
    parse_challenge-header scheme (params c) (rendered_scheme_ne c.scheme)
      (Lacks-space scheme (rendered_scheme-Lacks c.scheme)) (params-Closes c)
    ∙ ap (λ m. ok (challenge_of scheme m)) (parse_auth_params-params c)
    ∙ ap ok (value_of-param_map c scheme)
