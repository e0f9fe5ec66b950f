-- ===== src/Core/Codec/Requests.antt =====
-- How encoding/json fills the request structs from a document, by the json tags of types.go,
-- evaluation.go, evaluations.go and search.go: a missing member or a null leaves the zero value,
-- and a value of another type is an error.
use authzen.Base.{
  zero, List, [], ◌∷◌, Option, none, some, Text, text, Result, ok, err, ◌>>=◌, ℤ, pos,
}
use authzen.Json.{Any, Items, null, str, arr, float64, nil, cons, get}
use authzen.Core.Codec.{
  DecodeError, type_mismatch, decode_map_field, decode_object, unmarshal_options,
}
use authzen.Core.Search.{Page, SubjectSearchRequest, ResourceSearchRequest, ActionSearchRequest}
use authzen.Core.Types.{Subject, Resource, Action, EvaluationRequest, EvaluationsRequest}

abbrev pub decode_text : Option Any → Result DecodeError Text
decode_text none = ok []
decode_text (some null) = ok []
decode_text (some (str s)) = ok s
decode_text (some _) = err type_mismatch

-- An int field takes a number that is written without a fraction.
abbrev pub decode_int : Option Any → Result DecodeError ℤ
decode_int none = ok (pos 0)
decode_int (some null) = ok (pos 0)
decode_int (some (float64 z zero)) = ok z
decode_int (some _) = err type_mismatch

-- A pointer to a struct.
abbrev pub decode_ptr :
    {A : Type 0} → (Any → Result DecodeError A) → Option Any → Result DecodeError (Option A)
decode_ptr f none = ok none
decode_ptr f (some null) = ok none
decode_ptr f (some v) = f v >>= λ a. ok (some a)

unmarshal_subject : Any → Result DecodeError Subject
unmarshal_subject v = do
  m ← decode_object v
  type ← decode_text (get (text "type") m)
  id ← decode_text (get (text "id") m)
  properties ← decode_map_field (get (text "properties") m)
  ok (record { type = type; id = id; properties = properties })

unmarshal_resource : Any → Result DecodeError Resource
unmarshal_resource v = do
  m ← decode_object v
  type ← decode_text (get (text "type") m)
  id ← decode_text (get (text "id") m)
  properties ← decode_map_field (get (text "properties") m)
  ok (record { type = type; id = id; properties = properties })

unmarshal_action : Any → Result DecodeError Action
unmarshal_action v = do
  m ← decode_object v
  name ← decode_text (get (text "name") m)
  properties ← decode_map_field (get (text "properties") m)
  ok (record { name = name; properties = properties })

unfoldable pub unmarshal_request : Any → Result DecodeError EvaluationRequest
unfolding unmarshal_subject unmarshal_resource unmarshal_action
unmarshal_request v = do
  m ← decode_object v
  subject ← decode_ptr unmarshal_subject (get (text "subject") m)
  action ← decode_ptr unmarshal_action (get (text "action") m)
  resource ← decode_ptr unmarshal_resource (get (text "resource") m)
  context ← decode_map_field (get (text "context") m)
  ok (record { subject = subject; action = action; resource = resource; context = context })

unmarshal_members : Items → Result DecodeError (List EvaluationRequest)
unfolding unmarshal_request
unmarshal_members nil = ok []
unmarshal_members (cons x xs) = do r ← unmarshal_request x; rs ← unmarshal_members xs; ok (r ∷ rs)

-- A nil slice and an empty one are one list here: the program only takes its length.
unmarshal_member_array : Option Any → Result DecodeError (List EvaluationRequest)
unfolding unmarshal_members
unmarshal_member_array none = ok []
unmarshal_member_array (some null) = ok []
unmarshal_member_array (some (arr xs)) = unmarshal_members xs
unmarshal_member_array (some _) = err type_mismatch

unfoldable pub unmarshal_batch : Any → Result DecodeError EvaluationsRequest
unfolding unmarshal_subject unmarshal_resource unmarshal_action unmarshal_member_array
unmarshal_batch v = do
  m ← decode_object v
  subject ← decode_ptr unmarshal_subject (get (text "subject") m)
  action ← decode_ptr unmarshal_action (get (text "action") m)
  resource ← decode_ptr unmarshal_resource (get (text "resource") m)
  context ← decode_map_field (get (text "context") m)
  evaluations ← unmarshal_member_array (get (text "evaluations") m)
  options ← decode_ptr unmarshal_options (get (text "options") m)
  ok (record {
    subject = subject;
    action = action;
    resource = resource;
    context = context;
    evaluations = evaluations;
    options = options;
  })

unmarshal_page : Any → Result DecodeError Page
unmarshal_page v = do
  m ← decode_object v
  token ← decode_text (get (text "token") m)
  limit ← decode_int (get (text "limit") m)
  properties ← decode_map_field (get (text "properties") m)
  ok (record { token = token; limit = limit; properties = properties })

unfoldable pub unmarshal_subject_search : Any → Result DecodeError SubjectSearchRequest
unfolding unmarshal_subject unmarshal_resource unmarshal_action unmarshal_page
unmarshal_subject_search v = do
  m ← decode_object v
  subject ← decode_ptr unmarshal_subject (get (text "subject") m)
  action ← decode_ptr unmarshal_action (get (text "action") m)
  resource ← decode_ptr unmarshal_resource (get (text "resource") m)
  context ← decode_map_field (get (text "context") m)
  page ← decode_ptr unmarshal_page (get (text "page") m)
  ok (record {
    subject = subject;
    action = action;
    resource = resource;
    context = context;
    page = page;
  })

unfoldable pub unmarshal_resource_search : Any → Result DecodeError ResourceSearchRequest
unfolding unmarshal_subject unmarshal_resource unmarshal_action unmarshal_page
unmarshal_resource_search v = do
  m ← decode_object v
  subject ← decode_ptr unmarshal_subject (get (text "subject") m)
  action ← decode_ptr unmarshal_action (get (text "action") m)
  resource ← decode_ptr unmarshal_resource (get (text "resource") m)
  context ← decode_map_field (get (text "context") m)
  page ← decode_ptr unmarshal_page (get (text "page") m)
  ok (record {
    subject = subject;
    action = action;
    resource = resource;
    context = context;
    page = page;
  })

unfoldable pub unmarshal_action_search : Any → Result DecodeError ActionSearchRequest
unfolding unmarshal_subject unmarshal_resource unmarshal_page
unmarshal_action_search v = do
  m ← decode_object v
  subject ← decode_ptr unmarshal_subject (get (text "subject") m)
  resource ← decode_ptr unmarshal_resource (get (text "resource") m)
  context ← decode_map_field (get (text "context") m)
  page ← decode_ptr unmarshal_page (get (text "page") m)
  ok (record { subject = subject; resource = resource; context = context; page = page })
