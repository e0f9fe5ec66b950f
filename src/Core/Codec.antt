-- ===== src/Core/Codec.antt =====
-- The MarshalJSON and UnmarshalJSON methods of Options and EvaluationsResponse, on documents that
-- are trees of values. A struct's field is looked up by its exact json name.
pub mod RoundTrip
pub mod Requests
use authzen.Base.{
  ℕ, Bool, true, false, List, [], ◌∷◌, Option, none, some, Text, text, is_empty, Result, ok, err,
  ◌>>=◌, if◌then◌else◌, ◌==◌,
}
use authzen.Json.{
  Any, Items, Fields, null, bool, str, arr, obj, nil, cons, end, field, get, set, delete, len,
  wire_fields, len_of,
}
use authzen.Core.Errors.{Error, invalid, invalid_semantic}
use authzen.Core.Types.{EvaluationResponse, EvaluationsResponse, Options}

-- An error of encoding/json, or one of the package's own.
pub data DecodeError : Type 0 where
  type_mismatch : DecodeError
  rejected : Error → DecodeError

unfoldable pub semantic_key : Text
semantic_key = text "evaluations_semantic"

-- Ranging over a nil map does nothing.
abbrev pub entries : Option Fields → Fields
entries none = end
entries (some m) = m

unfoldable pub marshal_options : Options → Any
marshal_options o =
    let m = entries o.additional in
    obj (
      wire_fields (
        if is_empty o.evaluations_semantic
        then m
        else set semantic_key (str o.evaluations_semantic) m))

-- json.Unmarshal into a map: null leaves it nil, anything but an object is an error.
abbrev pub decode_map : Any → Result DecodeError (Option Fields)
decode_map (obj m) = ok (some m)
decode_map null = ok none
decode_map _ = err type_mismatch

abbrev pub keep_nonempty : Option Fields → Option Fields
keep_nonempty none = none
keep_nonempty (some m) = if len m == 0 then none else some m

-- The value under evaluations_semantic, once it is there.
extract_semantic : Fields → Any → Result DecodeError Options
extract_semantic m (str s) =
    ok (record {
      evaluations_semantic = s;
      additional = keep_nonempty (some (delete semantic_key m));
    })
extract_semantic m _ =
    err (rejected (invalid (text "options.evaluations_semantic") invalid_semantic))

extract : Fields → Option Any → Result DecodeError Options
unfolding extract_semantic
extract m none = ok (record { evaluations_semantic = []; additional = keep_nonempty (some m) })
extract m (some v) = extract_semantic m v

unmarshal_map : Option Fields → Result DecodeError Options
unfolding extract
unmarshal_map none = ok (record { evaluations_semantic = []; additional = none })
unmarshal_map (some m) = extract m (get semantic_key m)

unfoldable pub unmarshal_options : Any → Result DecodeError Options
unfolding unmarshal_map
unmarshal_options v = do m ← decode_map v; unmarshal_map m

-- `json:"context,omitempty"`: a nil or empty map is left out.
context_member : Option Fields → Fields
context_member c =
    if len_of c == 0 then end else field (text "context") (obj (wire_fields (entries c))) end

unfoldable pub marshal_response : EvaluationResponse → Any
unfolding context_member
marshal_response r = obj (field (text "decision") (bool r.decision) (context_member r.context))

marshal_list : List EvaluationResponse → Items
unfolding marshal_response
marshal_list [] = nil
marshal_list (r ∷ rs) = cons (marshal_response r) (marshal_list rs)

-- A nil slice is written as an empty array.
abbrev pub or_empty {ℓ} : {A : Type ℓ} → Option (List A) → List A
or_empty none = []
or_empty (some xs) = xs

marshal_shape : EvaluationsResponse → Option Bool → Any
unfolding marshal_list context_member
marshal_shape r (some d) = obj (field (text "decision") (bool d) (context_member r.context))
marshal_shape r none =
    obj (field (text "evaluations") (arr (marshal_list (or_empty r.evaluations))) end)

unfoldable pub marshal_evaluations : EvaluationsResponse → Any
unfolding marshal_shape
marshal_evaluations r = marshal_shape r r.decision

-- encoding/json into a `*bool`, a `bool` and a map field: a missing member or null sets nothing.
abbrev pub decode_bool_ptr : Option Any → Result DecodeError (Option Bool)
decode_bool_ptr none = ok none
decode_bool_ptr (some null) = ok none
decode_bool_ptr (some (bool b)) = ok (some b)
decode_bool_ptr (some _) = err type_mismatch

abbrev pub decode_bool : Option Any → Result DecodeError Bool
decode_bool none = ok false
decode_bool (some null) = ok false
decode_bool (some (bool b)) = ok b
decode_bool (some _) = err type_mismatch

abbrev pub decode_map_field : Option Any → Result DecodeError (Option Fields)
decode_map_field none = ok none
decode_map_field (some v) = decode_map v

-- A struct is decoded from an object, and left as it was by null.
abbrev pub decode_object : Any → Result DecodeError Fields
decode_object (obj m) = ok m
decode_object null = ok end
decode_object _ = err type_mismatch

unfoldable pub unmarshal_response : Any → Result DecodeError EvaluationResponse
unmarshal_response v = do
  m ← decode_object v
  d ← decode_bool (get (text "decision") m)
  c ← decode_map_field (get (text "context") m)
  ok (record { decision = d; context = c })

unmarshal_list : Items → Result DecodeError (List EvaluationResponse)
unfolding unmarshal_response
unmarshal_list nil = ok []
unmarshal_list (cons x xs) = do r ← unmarshal_response x; rs ← unmarshal_list xs; ok (r ∷ rs)

unmarshal_array : Option Any → Result DecodeError (Option (List EvaluationResponse))
unfolding unmarshal_list
unmarshal_array none = ok none
unmarshal_array (some null) = ok none
unmarshal_array (some (arr xs)) = unmarshal_list xs >>= λ rs. ok (some rs)
unmarshal_array (some _) = err type_mismatch

-- A batch ignores the top-level decision and context.
choose_shape : Option (List EvaluationResponse) → Option Bool → Option Fields → EvaluationsResponse
choose_shape (some rs) d c = record { decision = none; context = none; evaluations = some rs }
choose_shape none d c = record { decision = d; context = c; evaluations = none }

unfoldable pub unmarshal_evaluations : Any → Result DecodeError EvaluationsResponse
unfolding unmarshal_array choose_shape
unmarshal_evaluations v = do
  m ← decode_object v
  d ← decode_bool_ptr (get (text "decision") m)
  c ← decode_map_field (get (text "context") m)
  rs ← unmarshal_array (get (text "evaluations") m)
  ok (choose_shape rs d c)
