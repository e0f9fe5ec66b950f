-- ===== src/Grpc/Search/RoundTrip.antt =====
-- grpc/conv.go: a search request or response that is converted to a message and read back.
use mathlib.Core.Option
use authzen.Base.{
  map, Option, some, Text, Result, ◌≡◌, refl, Returns, bind-Returns, Returns-weaken, ap,
}
use authzen.Core.Types.{Subject, Resource, Action}
use authzen.Core.Codec.{or_empty}
use authzen.Core.Search.{
  SubjectSearchRequest, ResourceSearchRequest, ActionSearchRequest, SearchResponse,
}
use authzen.Grpc.Convert.{traverse, traverse-Reads, Reads}
use authzen.Grpc.Struct.{StructPb, IsFaithful, map_to_struct, map_to_struct-ReadsAs, ReadsAs}
use authzen.Grpc.Entities.{
  carried_subject, carried_resource, carried_action, subject_to_proto, subject_from_proto,
  resource_to_proto, resource_from_proto, action_to_proto, action_from_proto,
  subject_to_proto-Reads, resource_to_proto-Reads, action_to_proto-Reads,
}
use authzen.Grpc.Page.{
  carried_page, carried_page_response, page_of, page_to_proto, page_to_proto-Reads,
  page_response_to_proto, page_response_from_proto, page_response_to_proto-Reads,
}
use authzen.Grpc.Search.{
  carried_subject_search, carried_resource_search, carried_action_search,
  subject_search_request_to_proto, subject_search_request_of, resource_search_request_to_proto,
  resource_search_request_of, action_search_request_to_proto, action_search_request_of,
}
use authzen.Grpc.Search.Responses.{
  carried_search_response, or_zero, empty_subject, empty_resource, empty_action,
  search_response_to_proto, search_response_of, subject_search_response_to_proto,
  subject_search_response_from_proto, resource_search_response_to_proto,
  resource_search_response_from_proto, action_search_response_to_proto,
  action_search_response_from_proto, search_response_from_proto,
}

module _ {S : Type 0} (pb : StructPb S) (faithful : IsFaithful pb) where
  pub subject_search_request_to_proto-Reads :
      (r : SubjectSearchRequest)
      → Returns
          (Reads (subject_search_request_of pb) (carried_subject_search r))
          (subject_search_request_to_proto pb r)
  unfolding subject_search_request_to_proto subject_search_request_of
  subject_search_request_to_proto-Reads r =
      bind-Returns (Reads (subject_from_proto pb) (Option.map carried_subject r.subject)) _
        (subject_to_proto pb r.subject) _ (subject_to_proto-Reads pb faithful r.subject)
        (λ s d.
          bind-Returns (Reads (action_from_proto pb) (Option.map carried_action r.action)) _
            (action_to_proto pb r.action) _ (action_to_proto-Reads pb faithful r.action)
            (λ a e.
              bind-Returns (Reads (resource_from_proto pb) (Option.map carried_resource r.resource))
                _ (resource_to_proto pb r.resource) _
                (resource_to_proto-Reads pb faithful r.resource)
                (λ x f.
                  bind-Returns (ReadsAs pb r.context) _ (map_to_struct pb r.context) _
                    (map_to_struct-ReadsAs pb faithful r.context)
                    (λ c g.
                      bind-Returns (Reads (page_of pb) (carried_page r.page)) _
                        (page_to_proto pb r.page) _ (page_to_proto-Reads pb faithful r.page)
                        (λ p h. rw (d, e, f, g, h) refl)))))

  pub resource_search_request_to_proto-Reads :
      (r : ResourceSearchRequest)
      → Returns
          (Reads (resource_search_request_of pb) (carried_resource_search r))
          (resource_search_request_to_proto pb r)
  unfolding resource_search_request_to_proto resource_search_request_of
  resource_search_request_to_proto-Reads r =
      bind-Returns (Reads (subject_from_proto pb) (Option.map carried_subject r.subject)) _
        (subject_to_proto pb r.subject) _ (subject_to_proto-Reads pb faithful r.subject)
        (λ s d.
          bind-Returns (Reads (action_from_proto pb) (Option.map carried_action r.action)) _
            (action_to_proto pb r.action) _ (action_to_proto-Reads pb faithful r.action)
            (λ a e.
              bind-Returns (Reads (resource_from_proto pb) (Option.map carried_resource r.resource))
                _ (resource_to_proto pb r.resource) _
                (resource_to_proto-Reads pb faithful r.resource)
                (λ x f.
                  bind-Returns (ReadsAs pb r.context) _ (map_to_struct pb r.context) _
                    (map_to_struct-ReadsAs pb faithful r.context)
                    (λ c g.
                      bind-Returns (Reads (page_of pb) (carried_page r.page)) _
                        (page_to_proto pb r.page) _ (page_to_proto-Reads pb faithful r.page)
                        (λ p h. rw (d, e, f, g, h) refl)))))

  pub action_search_request_to_proto-Reads :
      (r : ActionSearchRequest)
      → Returns
          (Reads (action_search_request_of pb) (carried_action_search r))
          (action_search_request_to_proto pb r)
  unfolding action_search_request_to_proto action_search_request_of
  action_search_request_to_proto-Reads r =
      bind-Returns (Reads (subject_from_proto pb) (Option.map carried_subject r.subject)) _
        (subject_to_proto pb r.subject) _ (subject_to_proto-Reads pb faithful r.subject)
        (λ s d.
          bind-Returns (Reads (resource_from_proto pb) (Option.map carried_resource r.resource)) _
            (resource_to_proto pb r.resource) _ (resource_to_proto-Reads pb faithful r.resource)
            (λ x f.
              bind-Returns (ReadsAs pb r.context) _ (map_to_struct pb r.context) _
                (map_to_struct-ReadsAs pb faithful r.context)
                (λ c g.
                  bind-Returns (Reads (page_of pb) (carried_page r.page)) _
                    (page_to_proto pb r.page) _ (page_to_proto-Reads pb faithful r.page)
                    (λ p h. rw (d, f, g, h) refl))))

  search_response_to_proto-Reads :
      {A M : Type 0} (convert : Option A → Result Text (Option M)) (read : Option M → Option A)
      (zero : A) (c : A → A)
      → ((o : Option A) → Returns (Reads read (Option.map c o)) (convert o))
      → (r : SearchResponse A)
      → Returns
          (Reads (search_response_of pb read zero) (carried_search_response c r))
          (search_response_to_proto pb convert r)
  unfolding search_response_to_proto search_response_of
  search_response_to_proto-Reads convert read zero c h r =
      bind-Returns (Reads (map (λ m. or_zero zero (read m))) (map c (or_empty r.results))) _
        (traverse (λ a. convert (some a)) (or_empty r.results)) _
        (traverse-Reads (λ a. convert (some a)) (λ m. or_zero zero (read m)) c
          (λ a. Returns-weaken _ _ (convert (some a)) (h (some a)) (λ m e. ap (or_zero zero) e))
          (or_empty r.results))
        (λ ms d.
          bind-Returns
            (Reads (page_response_from_proto pb) (Option.map carried_page_response r.page)) _
            (page_response_to_proto pb r.page) _ (page_response_to_proto-Reads pb faithful r.page)
            (λ p e.
              bind-Returns (ReadsAs pb r.context) _ (map_to_struct pb r.context) _
                (map_to_struct-ReadsAs pb faithful r.context) (λ x f. rw (d, e, f) refl)))

  pub subject_search_response_to_proto-Reads :
      (r : SearchResponse Subject)
      → Returns
          (λ m.
            subject_search_response_from_proto pb (some m)
            ≡ carried_search_response carried_subject r)
          (subject_search_response_to_proto pb r)
  unfolding subject_search_response_to_proto subject_search_response_from_proto
      search_response_from_proto
  subject_search_response_to_proto-Reads r =
      search_response_to_proto-Reads (subject_to_proto pb) (subject_from_proto pb) empty_subject
        carried_subject (subject_to_proto-Reads pb faithful) r

  pub resource_search_response_to_proto-Reads :
      (r : SearchResponse Resource)
      → Returns
          (λ m.
            resource_search_response_from_proto pb (some m)
            ≡ carried_search_response carried_resource r)
          (resource_search_response_to_proto pb r)
  unfolding resource_search_response_to_proto resource_search_response_from_proto
      search_response_from_proto
  resource_search_response_to_proto-Reads r =
      search_response_to_proto-Reads (resource_to_proto pb) (resource_from_proto pb) empty_resource
        carried_resource (resource_to_proto-Reads pb faithful) r

  pub action_search_response_to_proto-Reads :
      (r : SearchResponse Action)
      → Returns
          (λ m.
            action_search_response_from_proto pb (some m)
            ≡ carried_search_response carried_action r)
          (action_search_response_to_proto pb r)
  unfolding action_search_response_to_proto action_search_response_from_proto
      search_response_from_proto
  action_search_response_to_proto-Reads r =
      search_response_to_proto-Reads (action_to_proto pb) (action_from_proto pb) empty_action
        carried_action (action_to_proto-Reads pb faithful) r
