-- ===== src/Core/Codec/RoundTrip.antt =====
-- Decoding gives back what was encoded, as the wire carries it.
use authzen.Base.{
  Bool, true, ◌≡◌, refl, ◌∙◌, List, [], ◌∷◌, map, Option, none, some, Text, text, is_empty, ok,
  if◌then◌else◌, ◌==◌, text_eq, Option-cases, Bool-cases, inl, inr, text_eq_refl,
}
use authzen.Json.{
  Fields, str, get, set, len, wire_fields, get-wire_fields, delete-wire_fields, len-wire_fields,
  get-set, delete-set, get_in, wire,
}
use authzen.Core.Types.{EvaluationResponse, EvaluationsResponse, Options}
use authzen.Core.Codec.{
  semantic_key, entries, marshal_options, keep_nonempty, extract, unmarshal_options, context_member,
  marshal_response, marshal_list, or_empty, marshal_shape, marshal_evaluations, unmarshal_response,
  unmarshal_list, unmarshal_evaluations,
}

-- A map as it comes back: nil when it was empty.
abbrev pub carried : Option Fields → Option Fields
carried none = none
carried (some m) = if len m == 0 then none else some (wire_fields m)

abbrev pub carried_options : Options → Options
carried_options o = record o { additional = carried o.additional }

carried-entries : (c : Option Fields) → keep_nonempty (some (wire_fields (entries c))) ≡ carried c
unfolding wire_fields len
carried-entries none = refl
carried-entries (some m) = rw len-wire_fields

get-entries : (k : Text) (c : Option Fields) → get k (entries c) ≡ get_in k c
unfolding get
get-entries k none = refl
get-entries k (some m) = refl

extract-set :
    (s : Text) (m : Fields)
    → get semantic_key m ≡ none
    → extract
        (wire_fields (set semantic_key (str s) m))
        (get semantic_key (wire_fields (set semantic_key (str s) m)))
      ≡ ok (record { evaluations_semantic = s; additional = keep_nonempty (some (wire_fields m)) })
unfolding extract wire
extract-set s m h = rw (
  get-wire_fields,
  get-set,
  text_eq_refl semantic_key,
  delete-wire_fields,
  delete-set semantic_key (str s) m h,
)

extract-unset :
    (m : Fields)
    → get semantic_key m ≡ none
    → extract (wire_fields m) (get semantic_key (wire_fields m))
      ≡ ok (record { evaluations_semantic = []; additional = keep_nonempty (some (wire_fields m)) })
unfolding extract
extract-unset m h = rw (get-wire_fields, h)

is_empty-eq {ℓ} : {A : Type ℓ} (xs : List A) → is_empty xs ≡ true → xs ≡ []
is_empty-eq [] h = refl
is_empty-eq (x ∷ xs) h = cc

-- Options come back from the wire unchanged, but for an empty map of additional keys, which comes
-- back nil, and numbers and error objects in it, which come back as JSON reads them, provided that
-- the additional keys do not hold evaluations_semantic themselves.
pub unmarshal_options-marshal_options :
    (o : Options)
    → get_in semantic_key o.additional ≡ none
    → unmarshal_options (marshal_options o) ≡ ok (carried_options o)
unfolding unmarshal_options marshal_options
unmarshal_options-marshal_options o h =
    let absent = get-entries semantic_key o.additional ∙ h in
    elim (Bool-cases (is_empty o.evaluations_semantic)) [
      | inl e ↦
          rw e (extract-unset (entries o.additional) absent ∙ rw (carried-entries, is_empty-eq _ e))
      | inr e ↦
          rw e
            (extract-set o.evaluations_semantic (entries o.additional) absent ∙ rw carried-entries)
    ]

abbrev pub carried_response : EvaluationResponse → EvaluationResponse
carried_response r = record r { context = carried r.context }

unmarshal_response-fields :
    (d : Bool) (c : Option Fields)
    → unmarshal_response (marshal_response (record { decision = d; context = c }))
      ≡ ok (record { decision = d; context = carried c })
unfolding unmarshal_response marshal_response get text_eq text
unmarshal_response-fields d none = refl
unmarshal_response-fields d (some m) = elim (Bool-cases (len m == 0)) [
  | inl e ↦ rw (e, context_member)
  | inr e ↦ rw (e, context_member)
]

unmarshal_response-marshal_response :
    (r : EvaluationResponse) → unmarshal_response (marshal_response r) ≡ ok (carried_response r)
unmarshal_response-marshal_response r = unmarshal_response-fields r.decision r.context

unmarshal_list-marshal_list :
    (rs : List EvaluationResponse) → unmarshal_list (marshal_list rs) ≡ ok (map carried_response rs)
unfolding unmarshal_list marshal_list
unmarshal_list-marshal_list [] = refl
unmarshal_list-marshal_list (r ∷ rs) =
    rw (unmarshal_response-marshal_response r, unmarshal_list-marshal_list rs)

-- What a response means on the wire: a decision selects the single shape, and hides the array.
abbrev pub carried_evaluations : EvaluationsResponse → Option Bool → EvaluationsResponse
carried_evaluations r (some d) = record {
  decision = some d;
  context = carried r.context;
  evaluations = none;
}
carried_evaluations r none = record {
  decision = none;
  context = none;
  evaluations = some (map carried_response (or_empty r.evaluations));
}

unmarshal_evaluations-shape :
    (r : EvaluationsResponse) (d : Option Bool)
    → unmarshal_evaluations (marshal_shape r d) ≡ ok (carried_evaluations r d)
unfolding unmarshal_evaluations marshal_shape get text_eq text
unmarshal_evaluations-shape r none = rw (unmarshal_list-marshal_list (or_empty r.evaluations))
unmarshal_evaluations-shape r (some d) = elim (Option-cases r.context) [
  | inl e ↦ rw (e, context_member)
  | inr (m, e) ↦ elim (Bool-cases (len m == 0)) [
    | inl z ↦ rw (e, z, context_member)
    | inr z ↦ rw (e, z, context_member)
  ]
]

-- A batch response comes back from the wire in the shape that its decision selects: the single
-- decision with its context when there is one, and otherwise the decision and context of every
-- member in order, a nil array as an empty one; a context that was empty comes back nil, and the
-- values of any other as JSON reads them.
pub unmarshal_evaluations-marshal_evaluations :
    (r : EvaluationsResponse)
    → unmarshal_evaluations (marshal_evaluations r) ≡ ok (carried_evaluations r r.decision)
unfolding marshal_evaluations
unmarshal_evaluations-marshal_evaluations r = unmarshal_evaluations-shape r r.decision
