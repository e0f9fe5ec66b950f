-- ===== src/Mcp/Challenge/Safety.antt =====
-- mcp/challenge.go: what String renders is one header line, and rendering again changes nothing.
use authzen.Base.{
  List, [], ◌∷◌, ◌++◌, Text, text, is_empty, false, Bool-cases, inl, inr, All, All-append, ◌≡◌,
  refl, arith,
}
use authzen.Mcp.Runes.{
  strip_control, strip_control-Lacks, strip_control_same, sanitize_scheme_same, Lacks, is_control,
  is_control_or_space, contains_func, contains_func-Lacks,
}
use authzen.Mcp.Quote.{quote_string, quote_string-Lacks}
use authzen.Mcp.Challenge.{Challenge, add, params, join, rendered_scheme, to_string}
use authzen.Mcp.Challenge.Keys.{carried_challenge}
use authzen.Mcp.Challenge.RoundTrip.{rendered_scheme-Lacks, rendered_scheme_ne}

add-Lacks :
    (key v : Text) (later : List Text)
    → contains_func is_control key ≡ false
    → All (Lacks is_control) later
    → All (Lacks is_control) (add key v later)
unfolding add is_control
add-Lacks key v later k h = elim (Bool-cases (is_empty (strip_control v))) [
  | inl e ↦ rw e h
  | inr e ↦
      rw e
        (All-append _ key _ (contains_func-Lacks is_control key k) (refl, quote_string-Lacks v), h)
]

params-Lacks : (c : Challenge) → All (Lacks is_control) (params c)
unfolding params text contains_func is_control
params-Lacks c = add-Lacks (text "realm") c.realm _ refl (
    add-Lacks (text "error") c.error _ refl (
      add-Lacks (text "error_description") c.error_description _ refl (
        add-Lacks (text "scope") c.scope _ refl
          (add-Lacks (text "resource_metadata") c.resource_metadata [] refl tt))))

join-Lacks :
    (sep : Text) (ps : List Text)
    → Lacks is_control sep
    → All (Lacks is_control) ps
    → Lacks is_control (join sep ps)
unfolding join
join-Lacks sep [] k h = tt
join-Lacks sep (s ∷ []) k h = h.0
join-Lacks sep (s ∷ t ∷ more) k h =
    All-append _ (s ++ sep) _ (All-append _ s sep h.0 k) (join-Lacks sep (t ∷ more) k h.1)

scheme-Lacks : (s : Text) → Lacks is_control_or_space s → Lacks is_control s
scheme-Lacks [] h = tt
scheme-Lacks (r ∷ s) h = (ground arith, scheme-Lacks s h.1)

-- No control character stands in a header that String renders, whatever the fields of the
-- challenge hold: it cannot end the line.
pub to_string-Lacks : (c : Challenge) → Lacks is_control (to_string c)
unfolding to_string text is_control
to_string-Lacks c =
    let scheme = scheme-Lacks _ (rendered_scheme-Lacks c.scheme) in
    elim (Bool-cases (is_empty (params c))) [
      | inl e ↦ rw e scheme
      | inr e ↦ rw e (
          All-append _ _ _ scheme
            (refl, join-Lacks (text ", ") (params c) (refl, (refl, tt)) (params-Lacks c)))
    ]

rendered_scheme_idem : (s : Text) → rendered_scheme (rendered_scheme s) ≡ rendered_scheme s
unfolding rendered_scheme
rendered_scheme_idem s =
    rw (sanitize_scheme_same (rendered_scheme s) (rendered_scheme-Lacks s), rendered_scheme_ne s)
      refl

add_stripped :
    (key v : Text) (later : List Text) → add key (strip_control v) later ≡ add key v later
unfolding add quote_string
add_stripped key v later = rw (strip_control_same (strip_control v) (strip_control-Lacks v)) refl

-- Rendering the challenge that a header carries gives the header again.
pub to_string-carried_challenge : (c : Challenge) → to_string (carried_challenge c) ≡ to_string c
unfolding to_string params
to_string-carried_challenge c = simp (rendered_scheme_idem, add_stripped) refl
