-- ===== src/Grpc/Search.antt =====
-- grpc/conv.go: search requests, both ways.
pub mod Responses
pub mod RoundTrip
use mathlib.Core.Option
use authzen.Base.{List, [], ◌∷◌, map, Option, none, some, Text, Result, ok, err, ◌>>=◌, ◌≡◌, refl}
use authzen.Json.{Fields}
use authzen.Core.Types.{Subject, Resource, Action}
use authzen.Core.Codec.{or_empty}
use authzen.Core.Codec.RoundTrip.{carried}
use authzen.Core.Search.{
  SubjectSearchRequest, ResourceSearchRequest, ActionSearchRequest, SearchResponse,
}
use authzen.Grpc.Proto
use authzen.Grpc.Convert.{traverse}
use authzen.Grpc.Struct.{StructPb, struct_to_map, map_to_struct}
use authzen.Grpc.Entities.{
  carried_subject, carried_resource, carried_action, subject_to_proto, subject_from_proto,
  resource_to_proto, resource_from_proto, action_to_proto, action_from_proto,
}
use authzen.Grpc.Page.{
  carried_page, carried_page_response, page_to_proto, page_from_proto, page_response_to_proto,
  page_response_from_proto,
}

abbrev pub carried_subject_search : SubjectSearchRequest → SubjectSearchRequest
carried_subject_search r = record {
  subject = Option.map carried_subject r.subject;
  action = Option.map carried_action r.action;
  resource = Option.map carried_resource r.resource;
  context = carried r.context;
  page = carried_page r.page;
}

abbrev pub carried_resource_search : ResourceSearchRequest → ResourceSearchRequest
carried_resource_search r = record {
  subject = Option.map carried_subject r.subject;
  action = Option.map carried_action r.action;
  resource = Option.map carried_resource r.resource;
  context = carried r.context;
  page = carried_page r.page;
}

abbrev pub carried_action_search : ActionSearchRequest → ActionSearchRequest
carried_action_search r = record {
  subject = Option.map carried_subject r.subject;
  resource = Option.map carried_resource r.resource;
  context = carried r.context;
  page = carried_page r.page;
}

-- The zero values of the core types.
abbrev pub empty_subject_search : SubjectSearchRequest
empty_subject_search = record {
  subject = none;
  action = none;
  resource = none;
  context = none;
  page = none;
}

abbrev pub empty_resource_search : ResourceSearchRequest
empty_resource_search = record {
  subject = none;
  action = none;
  resource = none;
  context = none;
  page = none;
}

abbrev pub empty_action_search : ActionSearchRequest
empty_action_search = record { subject = none; resource = none; context = none; page = none }

module _ {S : Type 0} (pb : StructPb S) where
  unfoldable pub subject_search_request_to_proto :
      SubjectSearchRequest → Result Text (Proto.SearchSubjectsRequest S)
  subject_search_request_to_proto r = do
    subject ← subject_to_proto pb r.subject
    action ← action_to_proto pb r.action
    resource ← resource_to_proto pb r.resource
    ctx ← map_to_struct pb r.context
    page ← page_to_proto pb r.page
    ok (record {
      subject = subject;
      action = action;
      resource = resource;
      context = ctx;
      page_size = page.0;
      page_token = page.1;
      page_properties = page.2;
    })

  unfoldable pub subject_search_request_of : Proto.SearchSubjectsRequest S → SubjectSearchRequest
  subject_search_request_of r = record {
    subject = subject_from_proto pb r.subject;
    action = action_from_proto pb r.action;
    resource = resource_from_proto pb r.resource;
    context = struct_to_map pb r.context;
    page = page_from_proto pb r.page_size r.page_token r.page_properties;
  }

  unfoldable pub subject_search_request_from_proto :
      Option (Proto.SearchSubjectsRequest S) → SubjectSearchRequest
  subject_search_request_from_proto none = empty_subject_search
  subject_search_request_from_proto (some r) = subject_search_request_of r

  unfoldable pub resource_search_request_to_proto :
      ResourceSearchRequest → Result Text (Proto.SearchResourcesRequest S)
  resource_search_request_to_proto r = do
    subject ← subject_to_proto pb r.subject
    action ← action_to_proto pb r.action
    resource ← resource_to_proto pb r.resource
    ctx ← map_to_struct pb r.context
    page ← page_to_proto pb r.page
    ok (record {
      subject = subject;
      action = action;
      resource = resource;
      context = ctx;
      page_size = page.0;
      page_token = page.1;
      page_properties = page.2;
    })

  unfoldable pub resource_search_request_of : Proto.SearchResourcesRequest S → ResourceSearchRequest
  resource_search_request_of r = record {
    subject = subject_from_proto pb r.subject;
    action = action_from_proto pb r.action;
    resource = resource_from_proto pb r.resource;
    context = struct_to_map pb r.context;
    page = page_from_proto pb r.page_size r.page_token r.page_properties;
  }

  unfoldable pub resource_search_request_from_proto :
      Option (Proto.SearchResourcesRequest S) → ResourceSearchRequest
  resource_search_request_from_proto none = empty_resource_search
  resource_search_request_from_proto (some r) = resource_search_request_of r

  unfoldable pub action_search_request_to_proto :
      ActionSearchRequest → Result Text (Proto.SearchActionsRequest S)
  action_search_request_to_proto r = do
    subject ← subject_to_proto pb r.subject
    resource ← resource_to_proto pb r.resource
    ctx ← map_to_struct pb r.context
    page ← page_to_proto pb r.page
    ok (record {
      subject = subject;
      resource = resource;
      context = ctx;
      page_size = page.0;
      page_token = page.1;
      page_properties = page.2;
    })

  unfoldable pub action_search_request_of : Proto.SearchActionsRequest S → ActionSearchRequest
  action_search_request_of r = record {
    subject = subject_from_proto pb r.subject;
    resource = resource_from_proto pb r.resource;
    context = struct_to_map pb r.context;
    page = page_from_proto pb r.page_size r.page_token r.page_properties;
  }

  unfoldable pub action_search_request_from_proto :
      Option (Proto.SearchActionsRequest S) → ActionSearchRequest
  action_search_request_from_proto none = empty_action_search
  action_search_request_from_proto (some r) = action_search_request_of r
