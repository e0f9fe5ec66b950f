-- ===== src/Mcp/Runes.antt =====
-- mcp/challenge.go: the classes of runes, and strings without the runes of a class. Of the packages
-- strings and unicode: Map, TrimSpace, IsSpace, and ToLower as far as ASCII can tell.
use authzen.Base.{
  ℕ, ◌+◌, Bool, false, not, ◌&&◌, ◌||◌, [], ◌∷◌, ◌++◌, Text, ltb, leb, ◌==◌, if◌then◌else◌, ◌≡◌,
  refl, ◌∙◌, All, arith, Bool-cases, inl, inr, is_empty, is_empty_ne, ◌≢◌,
}

unfoldable pub is_control : ℕ → Bool
is_control r = ltb r 0x20 || r == 0x7f

-- unicode.IsSpace
unfoldable pub is_space : ℕ → Bool
is_space r =
    (leb 0x9 r && leb r 0xd)
    || r == 0x20
    || r == 0x85
    || r == 0xa0
    || r == 0x1680
    || (leb 0x2000 r && leb r 0x200a)
    || r == 0x2028
    || r == 0x2029
    || r == 0x202f
    || r == 0x205f
    || r == 0x3000

-- The runes of a string that are not of a class.
unfoldable pub without : (ℕ → Bool) → Text → Text
without p [] = []
without p (r ∷ s) = let rest = without p s in if p r then rest else r ∷ rest

-- strings.ContainsFunc
unfoldable pub contains_func : (ℕ → Bool) → Text → Bool
contains_func p [] = false
contains_func p (r ∷ s) = p r || contains_func p s

unfoldable pub strip_control : Text → Text
strip_control s = if not (contains_func is_control s) then s else without is_control s

abbrev pub is_control_or_space : ℕ → Bool
is_control_or_space r = is_control r || is_space r

unfoldable pub sanitize_scheme : Text → Text
sanitize_scheme = without is_control_or_space

-- strings.TrimSpace
unfoldable pub trim_left : Text → Text
trim_left [] = []
trim_left (r ∷ s) = let rest = trim_left s in if is_space r then rest else r ∷ s

unfoldable pub trim_right : Text → Text
trim_right [] = []
trim_right (r ∷ s) = let rest = trim_right s in if is_space r && is_empty rest then [] else r ∷ rest

unfoldable pub trim_space : Text → Text
trim_space s = trim_right (trim_left s)

-- unicode.ToLower. Of the runes that are not ASCII, two have an ASCII lower case; the others are
-- left as they are.
unfoldable pub lower_rune : ℕ → ℕ
lower_rune r =
    if leb 0x41 r && leb r 0x5a
    then r + 0x20
    else if r == 0x130
    then 0x69
    else if r == 0x212a
    then 0x6b
    else r

-- strings.ToLower
unfoldable pub to_lower : Text → Text
to_lower [] = []
to_lower (r ∷ s) = lower_rune r ∷ to_lower s

-- No rune of a string is of a class.
abbrev pub Lacks : (ℕ → Bool) → Text → Type 0
Lacks p = All (λ r. p r ≡ false)

pub without-Lacks : (p : ℕ → Bool) (s : Text) → Lacks p (without p s)
unfolding without
without-Lacks p [] = tt
without-Lacks p (r ∷ s) = elim (Bool-cases (p r)) [
  | inl h ↦ rw h (without-Lacks p s)
  | inr h ↦ rw h (h, without-Lacks p s)
]

pub without_same : (p : ℕ → Bool) (s : Text) → Lacks p s → without p s ≡ s
unfolding without
without_same p [] h = refl
without_same p (r ∷ s) h = rw (h.0, without_same p s h.1) refl

pub contains_func-Lacks : (p : ℕ → Bool) (s : Text) → contains_func p s ≡ false → Lacks p s
unfolding contains_func
contains_func-Lacks p [] h = tt
contains_func-Lacks p (r ∷ s) h = (ground arith, contains_func-Lacks p s (ground arith))

strip_control-without : (s : Text) → strip_control s ≡ without is_control s
unfolding strip_control
strip_control-without s = elim (Bool-cases (contains_func is_control s)) [
  | inl h ↦ rw h refl
  | inr h ↦ rw (h, without_same is_control s (contains_func-Lacks is_control s h)) refl
]

pub strip_control-Lacks : (s : Text) → Lacks is_control (strip_control s)
strip_control-Lacks s = rw (strip_control-without s) (without-Lacks is_control s)

pub strip_control_same : (s : Text) → Lacks is_control s → strip_control s ≡ s
strip_control_same s h = strip_control-without s ∙ without_same is_control s h

pub sanitize_scheme-Lacks : (s : Text) → Lacks is_control_or_space (sanitize_scheme s)
unfolding sanitize_scheme
sanitize_scheme-Lacks s = without-Lacks is_control_or_space s

pub sanitize_scheme_same : (s : Text) → Lacks is_control_or_space s → sanitize_scheme s ≡ s
unfolding sanitize_scheme
sanitize_scheme_same s h = without_same is_control_or_space s h

append_ne : (s t : Text) → t ≢ [] → is_empty (s ++ t) ≡ false
append_ne [] t n = is_empty_ne t n
append_ne (r ∷ s) t n = refl

pub trim_left_same : (r : ℕ) (s : Text) → is_space r ≡ false → trim_left (r ∷ s) ≡ r ∷ s
unfolding trim_left
trim_left_same r s h = rw h refl

-- A string that ends as it should is not cut.
pub trim_right-append : (s t : Text) → t ≢ [] → trim_right t ≡ t → trim_right (s ++ t) ≡ s ++ t
unfolding trim_right
trim_right-append [] t n h = h
trim_right-append (r ∷ s) t n h = rw (trim_right-append s t n h) (ground (arith, append_ne s t n))

pub trim_right_same : (s : Text) → Lacks is_space s → trim_right s ≡ s
unfolding trim_right
trim_right_same [] h = refl
trim_right_same (r ∷ s) h = rw (h.0, trim_right_same s h.1) refl

pub trim_space_same : (s : Text) → Lacks is_space s → trim_space s ≡ s
unfolding trim_space trim_left
trim_space_same [] h = trim_right_same [] tt
trim_space_same (r ∷ s) h = rw (h.0) (trim_right_same (r ∷ s) h)
