-- ===== src/Mcp/Params.antt =====
-- mcp/challenge.go: the list of auth-params, read with parseAuthParams and written with add and Join.
use authzen.Base.{
  ℕ, zero, suc, ◌≤◌, ◌<◌, Bool, ◌||◌, List, [], ◌∷◌, Option, none, some, Text, ◌==◌, if◌then◌else◌,
  is_empty, length, put, ◌≡◌, refl, sym, arith, Option-cases, Bool-cases, inl, inr,
}
use authzen.Mcp.Runes.{trim_space, to_lower}
use authzen.Mcp.Quote.{quote, read_quoted, length-read_quoted}

abbrev pub is_separator : ℕ → Bool
is_separator r = r == 0x20 || r == 0x9 || r == b','

unfoldable pub skip_separators : Text → Text
skip_separators [] = []
skip_separators (r ∷ s) = let rest = skip_separators s in if is_separator r then rest else r ∷ s

-- What stands before a rune, and what follows from it on.
unfoldable pub span_until : ℕ → Text → Text × Text
span_until c [] = ([], [])
span_until c (r ∷ s) =
    let (before, from) = span_until c s in if r == c then ([], r ∷ s) else (r ∷ before, from)

-- The value after '=': a quoted string, or a token up to a comma.
unfoldable pub read_token : Text → Text × Text
read_token s = let (token, rest) = span_until b',' s in (trim_space token, rest)

unfoldable pub read_value : Text → Text × Text
read_value [] = ([], [])
read_value (r ∷ s) = if r == quote then read_quoted s else read_token (r ∷ s)

-- One pass of the loop: a key, its value, and what follows it; none where the loop breaks off.
unfoldable pub read_pair : Text × Text → Option (Text × Text × Text)
read_pair (raw, []) = none
read_pair (raw, eq ∷ s) =
    let (value, rest) = read_value s in some (to_lower (trim_space raw), value, rest)

unfoldable pub read_param : Text → Option (Text × Text × Text)
read_param s = read_pair (span_until b'=' (skip_separators s))

unfoldable pub store : Text → Text → List (Text × Text) → List (Text × Text)
store key value out = if is_empty key then out else put key value out

-- The loop, each pass of which consumes a rune of s at least.
unfoldable pub read_params : ℕ → Text → List (Text × Text) → List (Text × Text)
read_params zero s out = out
read_params (suc n) s out = elim (read_param s) [
  | none ↦ out
  | some (key, value, rest) ↦ read_params n rest (store key value out)
]

unfoldable pub parse_auth_params : Text → List (Text × Text)
parse_auth_params s = read_params (suc (length s)) s []

length-skip_separators : (s : Text) → length (skip_separators s) ≤ length s
unfolding skip_separators
length-skip_separators [] = omega arith
length-skip_separators (r ∷ s) = ground (arith, length-skip_separators s)

length-span_until : (c : ℕ) (s : Text) → length (span_until c s).1 ≤ length s
unfolding span_until
length-span_until c [] = omega arith
length-span_until c (r ∷ s) = ground (arith, length-span_until c s)

length-read_token : (s : Text) → length (read_token s).1 ≤ length s
unfolding read_token
length-read_token s = length-span_until b',' s

length-read_value : (s : Text) → length (read_value s).1 ≤ length s
unfolding read_value
length-read_value [] = omega arith
length-read_value (r ∷ s) = elim (Bool-cases (r == quote)) [
  | inl h ↦ rw h (omega (arith, length-read_quoted s))
  | inr h ↦ rw h (length-read_token (r ∷ s))
]

length-read_pair :
    (x : Text × Text) {key value rest : Text}
    → read_pair x ≡ some (key, value, rest)
    → length rest < length x.1
unfolding read_pair
length-read_pair (raw, []) h = cc
length-read_pair (raw, eq ∷ s) {key} {value} {rest} h =
    let same : (read_value s).1 ≡ rest = cc in rw (sym same) (omega (arith, length-read_value s))

-- Each pass leaves less to read.
length-read_param :
    (s : Text) {key value rest : Text}
    → read_param s ≡ some (key, value, rest)
    → length rest < length s
unfolding read_param
length-read_param s h = omega (
  arith,
  length-read_pair (span_until b'=' (skip_separators s)) h,
  length-span_until b'=' (skip_separators s),
  length-skip_separators s,
)

-- The loop ends within as many passes as the string has runes: more fuel makes no difference.
pub read_params_enough :
    (n m : ℕ) (s : Text) (out : List (Text × Text))
    → length s < n
    → length s < m
    → read_params n s out ≡ read_params m s out
unfolding read_params
read_params_enough zero m s out h k = absurd (omega arith)
read_params_enough (suc n) zero s out h k = absurd (omega arith)
read_params_enough (suc n) (suc m) s out h k = elim (Option-cases (read_param s)) [
  | inl e ↦ rw (e, read_params) refl
  | inr ((key, value, rest), e) ↦
      let shorter = length-read_param s e in
      rw (e, read_params)
        (read_params_enough n m rest (store key value out) (omega arith) (omega arith))
]

-- The parameters of s added to a map.
abbrev pub parse_into : Text → List (Text × Text) → List (Text × Text)
parse_into s out = read_params (suc (length s)) s out

pub parse_into_pair :
    (s : Text) (out : List (Text × Text)) {key value rest : Text}
    → read_param s ≡ some (key, value, rest)
    → parse_into s out ≡ parse_into rest (store key value out)
unfolding read_params
parse_into_pair s out {key} {value} {rest} e =
    let shorter = length-read_param s e in
    rw (e, read_params)
      (read_params_enough (length s) (suc (length rest)) rest (store key value out) (omega arith)
        (omega arith))

pub parse_into-none :
    (s : Text) (out : List (Text × Text)) → read_param s ≡ none → parse_into s out ≡ out
unfolding read_params
parse_into-none s out e = rw (e, read_params) refl
