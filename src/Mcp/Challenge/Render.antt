-- ===== src/Mcp/Challenge/Render.antt =====
-- mcp/challenge.go: a rendered parameter, read again.
use authzen.Base.{
  ℕ, List, [], ◌∷◌, ◌++◌, some, Text, text, text_eq, is_empty, if◌then◌else◌, put, find-put, false,
  Bool-cases, inl, inr, ◌≡◌, refl, ◌∙◌, ap, ◌==◌, ==_iff, Option-cases, sym, arith,
}
use mathlib.Core.List.{append_assoc, append-nil}
use authzen.Mcp.Runes.{strip_control, Lacks, to_lower, trim_space}
use authzen.Mcp.Quote.{quote, quote_string, escape, read_quoted-escape}
use authzen.Mcp.Params.{
  skip_separators, span_until, read_value, read_pair, read_param, store, parse_into,
  parse_into_pair, parse_into-none,
}
use authzen.Mcp.Challenge.{add, join, value_of}

pub span_until-append :
    (c : ℕ) (s t : Text) → Lacks (λ r. r == c) s → span_until c (s ++ c ∷ t) ≡ (s, c ∷ t)
unfolding span_until
span_until-append c [] t h = rw ((==_iff c c).1 refl) refl
span_until-append c (r ∷ s) t h = rw (h.0, span_until-append c s t h.1) refl

pub span_until_all : (c : ℕ) (s : Text) → Lacks (λ r. r == c) s → span_until c s ≡ (s, [])
unfolding span_until
span_until_all c [] h = refl
span_until_all c (r ∷ s) h = rw (h.0, span_until_all c s h.1) refl

-- A key that is read as it is written.
pub record IsKey (key : Text) : Type 0 where
  pub starts : (t : Text) → skip_separators (key ++ t) ≡ key ++ t
  pub ends : Lacks (λ r. r == b'=') key
  pub reads : to_lower (trim_space key) ≡ key
  pub named : is_empty key ≡ false

read_param-add :
    (key v rest : Text)
    → IsKey key
    → read_param ((key ++ b'=' ∷ quote_string v) ++ rest) ≡ some (key, strip_control v, rest)
unfolding read_param read_pair read_value quote_string
read_param-add key v rest k =
    rw
      (
        append_assoc key (b'=' ∷ quote_string v) rest,
        k.starts (b'=' ∷ quote_string v ++ rest),
        span_until-append b'=' key (quote_string v ++ rest) k.ends,
        append_assoc (escape (strip_control v)) (quote ∷ []) rest,
        read_quoted-escape (strip_control v) rest,
        k.reads,
      )
      refl

-- Each parameter with the separator before it.
abbrev pub glue : List Text → Text
glue [] = []
glue (s ∷ more) = b',' ∷ 0x20 ∷ (s ++ glue more)

-- The map with a parameter that is there.
abbrev pub with_param : Text → Text → List (Text × Text) → List (Text × Text)
with_param key v out = if is_empty (strip_control v) then out else put key (strip_control v) out

read_param_separated : (s : Text) → read_param (b',' ∷ 0x20 ∷ s) ≡ read_param s
unfolding read_param skip_separators
read_param_separated s = refl

-- Strings that read alike at their head are read alike.
parse_into_same :
    (s t : Text) (out : List (Text × Text))
    → read_param s ≡ read_param t
    → parse_into s out ≡ parse_into t out
parse_into_same s t out e = elim (Option-cases (read_param t)) [
  | inl h ↦ parse_into-none s out (e ∙ h) ∙ sym (parse_into-none t out h)
  | inr ((key, value, rest), h) ↦ parse_into_pair s out (e ∙ h) ∙ sym (parse_into_pair t out h)
]

store_key :
    (key value : Text) (out : List (Text × Text))
    → IsKey key
    → store key value out ≡ put key value out
unfolding store
store_key key value out k = rw (k.named) refl

pub parse_into-add :
    (key v : Text) (later : List Text) (out : List (Text × Text))
    → IsKey key
    → parse_into (glue (add key v later)) out ≡ parse_into (glue later) (with_param key v out)
unfolding add
parse_into-add key v later out k = elim (Bool-cases (is_empty (strip_control v))) [
  | inl h ↦ rw h refl
  | inr h ↦
      let rest = glue later in
      let reads =
        read_param_separated ((key ++ b'=' ∷ quote_string v) ++ rest)
        ∙ read_param-add key v rest k in
      rw h (
        parse_into_pair (b',' ∷ 0x20 ∷ ((key ++ b'=' ∷ quote_string v) ++ rest)) out reads
        ∙ ap (parse_into rest) (store_key key (strip_control v) out k))
]

join-glue : (s : Text) (more : List Text) → join (text ", ") (s ∷ more) ≡ s ++ glue more
unfolding join text
join-glue s [] = sym (append-nil s)
join-glue s (t ∷ more) =
    append_assoc s (text ", ") (join (text ", ") (t ∷ more))
    ∙ ap (λ r. s ++ b',' ∷ 0x20 ∷ r) (join-glue t more)

pub parse_into-join :
    (ps : List Text) (out : List (Text × Text))
    → parse_into (join (text ", ") ps) out ≡ parse_into (glue ps) out
unfolding join
parse_into-join [] out = refl
parse_into-join (s ∷ more) out = rw (join-glue s more) (
    parse_into_same (s ++ glue more) (glue (s ∷ more)) out
      (sym (read_param_separated (s ++ glue more))))

value_of-put :
    (key j v : Text) (m : List (Text × Text))
    → value_of j (put key v m) ≡ (if text_eq key j then v else value_of j m)
unfolding value_of text_eq
value_of-put key j v m = elim (Bool-cases (text_eq key j)) [
  | inl h ↦ rw (value_of, find-put key j v m, h) refl
  | inr h ↦ rw (value_of, find-put key j v m, h) refl
]

pub value_of-with_param :
    (key j v : Text) (m : List (Text × Text))
    → value_of j (with_param key v m) ≡ (
        if text_eq key j
        then (if is_empty (strip_control v) then value_of j m else strip_control v)
        else value_of j m)
value_of-with_param key j v m = elim (Bool-cases (is_empty (strip_control v))) [
  | inl h ↦ rw h (ground arith)
  | inr h ↦ rw h (value_of-put key j (strip_control v) m)
]

pub parse_into-nil : (out : List (Text × Text)) → parse_into [] out ≡ out
unfolding read_param read_pair span_until skip_separators
parse_into-nil out = parse_into-none [] out refl
