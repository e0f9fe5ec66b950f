-- ===== src/Grpc/Configuration.antt =====
-- grpc/conv.go: the metadata document, both ways.
use authzen.Base.{[], Option, none, some, ◌≡◌, refl}
use authzen.Server.Http.{Metadata}
use authzen.Grpc.Proto

-- `authzen.Metadata{}`
abbrev pub empty_metadata : Metadata
empty_metadata = record {
  policy_decision_point = [];
  access_evaluation_endpoint = [];
  access_evaluations_endpoint = [];
  search_subject_endpoint = [];
  search_resource_endpoint = [];
  search_action_endpoint = [];
  capabilities = [];
  signed_metadata = [];
}

unfoldable pub metadata_to_proto : Metadata → Proto.Configuration
metadata_to_proto m = record {
  policy_decision_point = m.policy_decision_point;
  access_evaluation_endpoint = m.access_evaluation_endpoint;
  access_evaluations_endpoint = m.access_evaluations_endpoint;
  search_subject_endpoint = m.search_subject_endpoint;
  search_resource_endpoint = m.search_resource_endpoint;
  search_action_endpoint = m.search_action_endpoint;
  capabilities = m.capabilities;
  signed_metadata = m.signed_metadata;
}

unfoldable pub metadata_from_proto : Option Proto.Configuration → Metadata
metadata_from_proto none = empty_metadata
metadata_from_proto (some c) = record {
  policy_decision_point = c.policy_decision_point;
  access_evaluation_endpoint = c.access_evaluation_endpoint;
  access_evaluations_endpoint = c.access_evaluations_endpoint;
  search_subject_endpoint = c.search_subject_endpoint;
  search_resource_endpoint = c.search_resource_endpoint;
  search_action_endpoint = c.search_action_endpoint;
  capabilities = c.capabilities;
  signed_metadata = c.signed_metadata;
}

pub metadata_from_proto-metadata_to_proto :
    (m : Metadata) → metadata_from_proto (some (metadata_to_proto m)) ≡ m
unfolding metadata_from_proto metadata_to_proto
metadata_from_proto-metadata_to_proto m = refl
