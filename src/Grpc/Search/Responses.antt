-- ===== src/Grpc/Search/Responses.antt =====
-- grpc/conv.go: search responses, both ways. The three differ in the conversion of a result. An
-- element of a repeated field may be nil: it reads as the zero value of a result.
use mathlib.Core.Option
use authzen.Base.{[], map, Option, none, some, Text, Result, ok, ◌>>=◌}
use authzen.Core.Types.{Subject, Resource, Action}
use authzen.Core.Codec.{or_empty}
use authzen.Core.Codec.RoundTrip.{carried}
use authzen.Core.Search.{SearchResponse}
use authzen.Grpc.Proto
use authzen.Grpc.Convert.{traverse}
use authzen.Grpc.Struct.{StructPb, struct_to_map, map_to_struct}
use authzen.Grpc.Entities.{
  subject_to_proto, subject_from_proto, resource_to_proto, resource_from_proto, action_to_proto,
  action_from_proto,
}
use authzen.Grpc.Page.{carried_page_response, page_response_to_proto, page_response_from_proto}

abbrev pub carried_search_response : {A : Type 0} → (A → A) → SearchResponse A → SearchResponse A
carried_search_response c r = record {
  page = Option.map carried_page_response r.page;
  results = some (map c (or_empty r.results));
  context = carried r.context;
}

abbrev pub empty_search_response : {A : Type 0} → SearchResponse A
empty_search_response = record { page = none; results = none; context = none }

abbrev pub empty_subject : Subject
empty_subject = record { type = []; id = []; properties = none }

abbrev pub empty_resource : Resource
empty_resource = record { type = []; id = []; properties = none }

abbrev pub empty_action : Action
empty_action = record { name = []; properties = none }

-- `if c := f(m); c != nil { results[i] = *c }`
abbrev pub or_zero : {A : Type 0} → A → Option A → A
or_zero zero none = zero
or_zero zero (some a) = a

module _ {S : Type 0} (pb : StructPb S) where
  -- A loop over the results, each taken by its address, with the page and the context.
  unfoldable pub search_response_to_proto :
      {A M : Type 0}
      → (Option A → Result Text (Option M))
      → SearchResponse A
      → Result Text (Proto.SearchResponse S M)
  search_response_to_proto convert r = do
    results ← traverse (λ a. convert (some a)) (or_empty r.results)
    page ← page_response_to_proto pb r.page
    ctx ← map_to_struct pb r.context
    ok (record { results = results; page = page; context = ctx })

  unfoldable pub search_response_of :
      {A M : Type 0} → (Option M → Option A) → A → Proto.SearchResponse S M → SearchResponse A
  search_response_of convert zero r = record {
    page = page_response_from_proto pb r.page;
    results = some (map (λ m. or_zero zero (convert m)) r.results);
    context = struct_to_map pb r.context;
  }

  unfoldable pub search_response_from_proto :
      {A M : Type 0}
      → (Option M → Option A)
      → A
      → Option (Proto.SearchResponse S M)
      → SearchResponse A
  search_response_from_proto convert zero none = empty_search_response
  search_response_from_proto convert zero (some r) = search_response_of convert zero r

  unfoldable pub subject_search_response_to_proto :
      SearchResponse Subject → Result Text (Proto.SearchResponse S (Proto.Subject S))
  subject_search_response_to_proto = search_response_to_proto (subject_to_proto pb)

  unfoldable pub subject_search_response_from_proto :
      Option (Proto.SearchResponse S (Proto.Subject S)) → SearchResponse Subject
  subject_search_response_from_proto =
      search_response_from_proto (subject_from_proto pb) empty_subject

  unfoldable pub resource_search_response_to_proto :
      SearchResponse Resource → Result Text (Proto.SearchResponse S (Proto.Resource S))
  resource_search_response_to_proto = search_response_to_proto (resource_to_proto pb)

  unfoldable pub resource_search_response_from_proto :
      Option (Proto.SearchResponse S (Proto.Resource S)) → SearchResponse Resource
  resource_search_response_from_proto =
      search_response_from_proto (resource_from_proto pb) empty_resource

  unfoldable pub action_search_response_to_proto :
      SearchResponse Action → Result Text (Proto.SearchResponse S (Proto.Action S))
  action_search_response_to_proto = search_response_to_proto (action_to_proto pb)

  unfoldable pub action_search_response_from_proto :
      Option (Proto.SearchResponse S (Proto.Action S)) → SearchResponse Action
  action_search_response_from_proto = search_response_from_proto (action_from_proto pb) empty_action
