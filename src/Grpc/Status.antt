-- ===== src/Grpc/Status.antt =====
-- grpc/server.go: the status errors of a call.
use authzen.Base.{
  ℕ, Bool, true, false, Text, Result, ok, err, if◌then◌else◌, ◌≡◌, Bool-cases, inl, inr,
}
use authzen.Core.Errors.{Error}

-- The codes that the package names, and the others.
pub data Code : Type 0 where
  invalid_argument internal : Code
  other : ℕ → Code

-- What the message of a status says, before it is formatted into a line of text.
pub data Message : Type 0 where
  not_valid : Error → Message
  said : Text → Message

-- The packages status and codes, which are not part of the repository, over the type E of error
-- values: status.Error, the second result of status.FromError on an error that is not nil, and the
-- Error method. `plain` is an error of encoding/json or structpb, by its text.
pub record Status (E : Type 0) : Type 0 where
  pub new_status : Code → Message → E
  pub from_error : E → Bool
  pub error_text : E → Text
  pub plain : Text → E

-- What their documentation says of them.
pub record IsDocumented {E : Type 0} (st : Status E) : Type 0 where
  pub from_error-new_status : (c : Code) (m : Message) → st.from_error (st.new_status c m) ≡ true
  pub from_error-plain : (t : Text) → st.from_error (st.plain t) ≡ false
  pub error_text-plain : (t : Text) → st.error_text (st.plain t) ≡ t

module _ {E : Type 0} (st : Status E) where
  unfoldable pub invalid_argument_error : Error → E
  invalid_argument_error e = st.new_status invalid_argument (not_valid e)

  -- On an error that is not nil.
  unfoldable pub pdp_error : E → E
  pdp_error e = if st.from_error e then e else st.new_status internal (said (st.error_text e))

  -- The error of a conversion as an error value.
  abbrev pub or_plain : {A : Type 0} → Result Text A → Result E A
  or_plain (ok a) = ok a
  or_plain (err t) = err (st.plain t)

  pub from_error-pdp_error : IsDocumented st → (e : E) → st.from_error (pdp_error e) ≡ true
  unfolding pdp_error
  from_error-pdp_error doc e = elim (Bool-cases (st.from_error e)) [
    | inl h ↦ rw h h
    | inr h ↦ rw h (doc.from_error-new_status internal (said (st.error_text e)))
  ]
