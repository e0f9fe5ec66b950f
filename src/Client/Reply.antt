-- ===== src/Client/Reply.antt =====
-- client/client.go: what do makes of a response.
use authzen.Base.{
  refl, ℕ, true, false, ◌||◌, Text, pos_part, ltb, leb, length, take, Result, ok, err, ◌≡◌, ◌≤◌,
  ◌<◌, ◌⊎◌, inl, inr, arith, Bool-cases, leb-false, sym, ap, Option-cases, take-all, ◌>>=◌,
  Result-cases, some, length-take_le,
}
use authzen.Client.Config.{HttpResponse, Client}
use authzen.Client.Transport.{
  ClientError, api_error, decode, effective_limit, read_limited, check_status,
  max_api_error_body_bytes, named, read_reply, read_response,
}

-- A status outside 200 to 299.
pub IsFailure : ℕ → Type 0
IsFailure status = (status < 200) ⊎ (300 ≤ status)

status-cases :
    (status : ℕ)
    → (((ltb status 200 || leb 300 status) ≡ true) × IsFailure status)
      ⊎ (((ltb status 200 || leb 300 status) ≡ false) × (200 ≤ status) × (status < 300))
unfolding IsFailure
status-cases status = ground arith

read_limited-cases :
    (limit : ℕ) (r : HttpResponse)
    → (read_limited limit r ≡ ok (take limit r.body))
      ⊎ ((e : Text) × (read_limited limit r ≡ err (read_response e))
          × (r.read_error ≡ some e)
          × (length r.body < limit))
unfolding read_limited
read_limited-cases limit r = elim (Bool-cases (leb limit (length r.body))) [
  | inl e ↦ inl (rw (e))
  | inr e ↦
      let short = leb-false limit (length r.body) e in
      elim (Option-cases r.read_error) [
        | inl f ↦ inl (rw (e, f) (ap ok (sym (take-all limit r.body (omega (arith, short))))))
        | inr (why, f) ↦ inr (why, rw (e, f), f, short)
      ]
]

module _ {A : Type 0} (c : Client) (unmarshal : Text → Result Text A) (r : HttpResponse) where
  -- The bytes of the body that are read.
  bytes : Text
  bytes = take (pos_part (effective_limit c)) r.body

  -- What each outcome says of the response: a value has a 2xx status and decodes from the bytes
  -- that are read, an APIError has another status and the first 4096 of them, and no other error
  -- than those of reading and of decoding occurs.
  pub IsOutcome : Result ClientError A → Type 0
  IsOutcome (ok a) = (200 ≤ r.status) × (r.status < 300) × (unmarshal bytes ≡ ok a)
  IsOutcome (err (api_error s b)) =
      (s ≡ r.status) × IsFailure r.status × (b ≡ take 4096 bytes) × (length b ≤ 4096)
  IsOutcome (err (read_response e)) =
      (r.read_error ≡ some e) × (length r.body < pos_part (effective_limit c))
  IsOutcome (err (decode e)) = (200 ≤ r.status) × (r.status < 300) × (unmarshal bytes ≡ err e)
  IsOutcome (err _) = ⊥

  decode-IsOutcome :
      (200 ≤ r.status) × (r.status < 300) → IsOutcome (named decode (unmarshal bytes))
  unfolding IsOutcome
  decode-IsOutcome range = elim (Result-cases (unmarshal bytes)) [
    | inl (a, e) ↦ rw (e) (range.0, range.1, e)
    | inr (why, e) ↦ rw (e) (range.0, range.1, e)
  ]

  check-IsOutcome : IsOutcome (check_status r.status bytes >>= λ b. named decode (unmarshal b))
  unfolding check_status IsOutcome max_api_error_body_bytes
  check-IsOutcome = elim (status-cases r.status) [
    | inl (e, failed) ↦ rw (e) (refl, failed, refl, length-take_le 4096 bytes)
    | inr (e, low, high) ↦ rw (e) (decode-IsOutcome (low, high))
  ]

  -- A value comes only from a 2xx response, decoded from at most the limit of bytes that the
  -- client has; an APIError carries a status that is not 2xx and at most 4096 bytes; no other
  -- errors than those of reading and decoding occur.
  pub read_reply-IsOutcome : IsOutcome (read_reply c unmarshal r)
  unfolding read_reply bytes IsOutcome
  read_reply-IsOutcome = elim (read_limited-cases (pos_part (effective_limit c)) r) [
    | inl e ↦ rw (e) check-IsOutcome
    | inr (why, e, f, short) ↦ rw (e) (f, short)
  ]
