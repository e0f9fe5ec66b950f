-- ===== src/Server/Http/RequestId.antt =====
-- A request id that is sent back holds nothing that could break a header or a log line.
use authzen.Base.{
  ℕ, ◌⊎◌, ◌≤◌, ◌≡◌, refl, true, inl, inr, [], ◌∷◌, Text, All, length, length-take_le, Bool-cases,
  arith, ◌∙◌, ap,
}
use authzen.Server.Http.{
  is_id_char, keep_id_chars, max_request_id_len, sanitize_request_id, cut_request_id,
}

-- A letter, a digit, '-', '_' or '.', by their codes.
pub IsIdChar : ℕ → Type 0
IsIdChar c =
    ((97 ≤ c) × (c ≤ 122))
    ⊎ (((65 ≤ c) × (c ≤ 90)) ⊎ (((48 ≤ c) × (c ≤ 57)) ⊎ ((c ≡ 45) ⊎ ((c ≡ 95) ⊎ (c ≡ 46)))))

is_id_char-IsIdChar : (c : ℕ) → is_id_char c ≡ true → IsIdChar c
unfolding is_id_char IsIdChar
is_id_char-IsIdChar c h = ground arith

All-IsIdChar : (s : Text) → All (λ c. is_id_char c ≡ true) s → All IsIdChar s
All-IsIdChar [] h = tt
All-IsIdChar (c ∷ cs) h = (is_id_char-IsIdChar c h.0, All-IsIdChar cs h.1)

keep_id_chars-All : (s : Text) → All (λ c. is_id_char c ≡ true) (keep_id_chars s)
unfolding keep_id_chars
keep_id_chars-All [] = tt
keep_id_chars-All (c ∷ cs) = elim (Bool-cases (is_id_char c)) [
  | inl h ↦ rw h (h, keep_id_chars-All cs)
  | inr h ↦ rw h (keep_id_chars-All cs)
]

length-keep_id_chars : (s : Text) → length (keep_id_chars s) ≤ length s
unfolding keep_id_chars
length-keep_id_chars [] = omega arith
length-keep_id_chars (c ∷ cs) = ground (arith, length-keep_id_chars cs)

keep_id_chars_self : (s : Text) → All (λ c. is_id_char c ≡ true) s → keep_id_chars s ≡ s
unfolding keep_id_chars
keep_id_chars_self [] h = refl
keep_id_chars_self (c ∷ cs) h = rw (h.0, keep_id_chars_self cs h.1)

length-cut_request_id : (s : Text) → length (cut_request_id s) ≤ max_request_id_len
unfolding cut_request_id
length-cut_request_id s = ground (arith, length-take_le max_request_id_len s)

cut_request_id_self : (s : Text) → length s ≤ max_request_id_len → cut_request_id s ≡ s
unfolding cut_request_id
cut_request_id_self s h = ground arith

sanitize_request_id_lem : (s : Text) → sanitize_request_id s ≡ keep_id_chars (cut_request_id s)
unfolding sanitize_request_id keep_id_chars max_request_id_len
sanitize_request_id_lem [] = refl
sanitize_request_id_lem (c ∷ cs) = refl

-- A sanitized request id has at most 128 bytes, all of them letters, digits, '-', '_' or '.', and
-- sanitizing it again changes nothing.
pub sanitize_request_id_bounds :
    (s : Text)
    → (length (sanitize_request_id s) ≤ 128)
      × All IsIdChar (sanitize_request_id s)
      × (sanitize_request_id (sanitize_request_id s) ≡ sanitize_request_id s)
unfolding max_request_id_len
sanitize_request_id_bounds s =
    let kept = cut_request_id s in
    let short : length (keep_id_chars kept) ≤ max_request_id_len =
      omega (arith, length-keep_id_chars kept, length-cut_request_id s) in
    rw sanitize_request_id_lem (
      short,
      All-IsIdChar (keep_id_chars kept) (keep_id_chars-All kept),
      sanitize_request_id_lem (keep_id_chars kept)
          ∙ ap keep_id_chars (cut_request_id_self (keep_id_chars kept) short)
          ∙ keep_id_chars_self (keep_id_chars kept) (keep_id_chars-All kept),
    )
