-- ===== src/Mcp/Quote.antt =====
-- mcp/challenge.go: quoted strings, written and read.
use authzen.Base.{
  ℕ, Bool, true, false, [], ◌∷◌, ◌++◌, Text, ◌==◌, if◌then◌else◌, ◌≡◌, refl, ap, sym, arith,
  Bool-cases, inl, inr, All-append, ==_iff, ◌≤◌, length,
}
use authzen.Mcp.Runes.{strip_control, strip_control-Lacks, Lacks, is_control}

abbrev pub quote : ℕ
quote = b'"'

abbrev pub backslash : ℕ
backslash = 0x5c

-- strings.NewReplacer with the two replacements.
unfoldable pub escape : Text → Text
escape [] = []
escape (r ∷ s) =
    let rest = escape s in
    if r == backslash
    then backslash ∷ backslash ∷ rest
    else if r == quote
    then backslash ∷ quote ∷ rest
    else r ∷ rest

unfoldable pub quote_string : Text → Text
quote_string s = quote ∷ (escape (strip_control s) ++ quote ∷ [])

-- The loop that reads a quoted string after its opening quote: the value, and what follows the
-- closing quote.
unfoldable pub read_quoted : Text → Text × Text
read_quoted [] = ([], [])
read_quoted (c ∷ []) = if c == quote then ([], []) else (c ∷ [], [])
read_quoted (c ∷ d ∷ s) = elim (c == backslash) [
  | true ↦ let (v, rest) = read_quoted s in (d ∷ v, rest)
  | false ↦ elim (c == quote) [
    | true ↦ ([], d ∷ s)
    | false ↦ let (v, rest) = read_quoted (d ∷ s) in (c ∷ v, rest)
  ]
]

read_quoted_escaped :
    (c d : ℕ) (s : Text)
    → (c == backslash) ≡ true
    → read_quoted (c ∷ d ∷ s) ≡ (d ∷ (read_quoted s).0, (read_quoted s).1)
unfolding read_quoted
read_quoted_escaped c d s h = rw (h, read_quoted) refl

read_quoted_end : (s : Text) → read_quoted (quote ∷ s) ≡ ([], s)
unfolding read_quoted
read_quoted_end [] = refl
read_quoted_end (d ∷ s) = refl

read_quoted_plain :
    (c : ℕ) (s : Text)
    → (c == backslash) ≡ false
    → (c == quote) ≡ false
    → read_quoted (c ∷ s) ≡ (c ∷ (read_quoted s).0, (read_quoted s).1)
unfolding read_quoted
read_quoted_plain c [] h k = rw k refl
read_quoted_plain c (d ∷ s) h k = rw (h, k, read_quoted) refl

-- What was escaped is read back, up to the closing quote.
pub read_quoted-escape : (s rest : Text) → read_quoted (escape s ++ quote ∷ rest) ≡ (s, rest)
unfolding escape
read_quoted-escape [] rest = read_quoted_end rest
read_quoted-escape (r ∷ s) rest =
    let before : read_quoted (escape s ++ quote ∷ rest) ≡ (s, rest) = read_quoted-escape s rest in
    elim (Bool-cases (r == backslash)) [
      | inl h ↦
          rw (h, read_quoted_escaped backslash backslash (escape s ++ quote ∷ rest) refl, before)
            (ap (λ c. (c ∷ s, rest)) (sym ((==_iff r backslash).0 h)))
      | inr h ↦ elim (Bool-cases (r == quote)) [
        | inl k ↦
            rw (h, k, read_quoted_escaped backslash quote (escape s ++ quote ∷ rest) refl, before)
              (ap (λ c. (c ∷ s, rest)) (sym ((==_iff r quote).0 k)))
        | inr k ↦ rw (h, k, read_quoted_plain r (escape s ++ quote ∷ rest) h k, before) refl
      ]
    ]

-- A quoted string has no rune of a class that its content lacks, and that lacks the two that the
-- quoting writes.
pub escape-Lacks :
    (p : ℕ → Bool) (s : Text)
    → p backslash ≡ false
    → p quote ≡ false
    → Lacks p s
    → Lacks p (escape s)
unfolding escape
escape-Lacks p [] b q h = tt
escape-Lacks p (r ∷ s) b q h =
    let rest : Lacks p (escape s) = escape-Lacks p s b q h.1 in
    elim (Bool-cases (r == backslash)) [
      | inl e ↦ rw e (b, (b, rest))
      | inr e ↦ elim (Bool-cases (r == quote)) [
        | inl f ↦ rw (e, f) (b, (q, rest))
        | inr f ↦ rw (e, f) (h.0, rest)
      ]
    ]

pub quote_string-Lacks : (s : Text) → Lacks is_control (quote_string s)
unfolding quote_string is_control
quote_string-Lacks s = (
  refl,
  All-append _ _ _ (escape-Lacks is_control (strip_control s) refl refl (strip_control-Lacks s))
      (refl, tt),
)

read_quoted_short : (c : ℕ) → ((read_quoted []).1 ≡ []) × ((read_quoted (c ∷ [])).1 ≡ [])
unfolding read_quoted
read_quoted_short c = (refl, ground arith)

pub length-read_quoted : (s : Text) → length (read_quoted s).1 ≤ length s
length-read_quoted [] = rw (read_quoted_short 0).0 (omega arith)
length-read_quoted (c ∷ []) = rw (read_quoted_short c).1 (omega arith)
length-read_quoted (c ∷ d ∷ s) = elim (Bool-cases (c == backslash)) [
  | inl h ↦ rw (read_quoted_escaped c d s h) (omega (arith, length-read_quoted s))
  | inr h ↦ elim (Bool-cases (c == quote)) [
    | inl k ↦ rw ((==_iff c quote).0 k, read_quoted_end (d ∷ s)) (omega arith)
    | inr k ↦ rw (read_quoted_plain c (d ∷ s) h k) (omega (arith, length-read_quoted (d ∷ s)))
  ]
]
