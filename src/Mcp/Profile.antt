-- ===== src/Mcp/Profile.antt =====
-- mcp/mcp.go: the evaluation request for an MCP call.
pub mod Complete
use authzen.Base.{
  Bool, List, [], ◌∷◌, Option, none, some, Text, text, text_eq, is_empty, if◌then◌else◌, find, ◌==◌,
  Result, ok, err, ◌>>=◌,
}
use authzen.Json.{Any, Items, Fields, str, arr, obj, nil, cons, end, field, set, len, len_of}
use authzen.Core.Codec.{entries}
use authzen.Core.Types.{Subject, Resource, Action, EvaluationRequest}
use authzen.Mcp.DenyContext.{set_text}
use authzen.Mcp.Token.{TokenClaims, token_context, subject_from_token, unless_empty}

unfoldable pub resource_type_tool : Text
resource_type_tool = text "mcp_tool"

unfoldable pub resource_type_resource : Text
resource_type_resource = text "mcp_resource"

unfoldable pub resource_type_prompt : Text
resource_type_prompt = text "mcp_prompt"

unfoldable pub resource_type_server : Text
resource_type_server = text "mcp_server"

unfoldable pub method_to_action : List (Text × Text)
method_to_action =
    (text "tools/call", text "mcp.tools.call")
    ∷ (text "tools/list", text "mcp.tools.list")
    ∷ (text "resources/read", text "mcp.resources.read")
    ∷ (text "resources/list", text "mcp.resources.list")
    ∷ (text "prompts/get", text "mcp.prompts.get")
    ∷ (text "prompts/list", text "mcp.prompts.list")
    ∷ []

-- The errors of Request.EvaluationRequest.
pub data ProfileError : Type 0 where
  unknown_method missing_tool_name missing_resource_uri missing_prompt_name missing_subject :
      ProfileError

unfoldable pub action_for : Text → Option Text
action_for method = find method method_to_action

-- `for k, v := range m { base[k] = v }`, for each of the maps.
unfoldable pub merge_map : Fields → Fields → Fields
merge_map base end = base
merge_map base (field k v m) = merge_map (set k v base) m

unfoldable pub merge_all : Fields → List (Option Fields) → Fields
merge_all base [] = base
merge_all base (m ∷ more) = merge_all (merge_map base (entries m)) more

unfoldable pub merge_props : Fields → List (Option Fields) → Option Fields
merge_props base extra = unless_empty (merge_all base extra)

unfoldable pub tool_resource : Text → Text → List (Option Fields) → Resource
tool_resource name server_uri properties = record {
  type = resource_type_tool;
  id = name;
  properties = merge_props (set_text (text "server_uri") server_uri end) properties;
}

unfoldable pub resource_resource : Text → List (Option Fields) → Resource
resource_resource uri properties = record {
  type = resource_type_resource;
  id = uri;
  properties = merge_props end properties;
}

unfoldable pub prompt_resource : Text → Text → List (Option Fields) → Resource
prompt_resource name server_uri properties = record {
  type = resource_type_prompt;
  id = name;
  properties = merge_props (set_text (text "server_uri") server_uri end) properties;
}

unfoldable pub server_resource : Text → List (Option Fields) → Resource
server_resource uri properties = record {
  type = resource_type_server;
  id = uri;
  properties = merge_props end properties;
}

pub record Request : Type 0 where
  pub method : Text
  pub tool_name : Text
  pub resource_uri : Text
  pub prompt_name : Text
  pub arguments : Option Fields
  pub token : TokenClaims
  pub server_uri : Text
  pub transport : Text
  pub resource_indicator : Text
  pub context : Option Fields

unfoldable pub mcp_context : Request → Fields
mcp_context r =
    let m =
      set_text (text "resource_indicator") r.resource_indicator
        (set_text (text "transport") r.transport (set_text (text "method") r.method end)) in
    let token = token_context r.token in
    if len token == 0 then m else set (text "token") (obj token) m

unfoldable pub evaluation_context : Request → Fields
evaluation_context r = set (text "mcp") (obj (mcp_context r)) (merge_map end (entries r.context))

-- The resource of the call, by its method.
unfoldable pub named_resource : ProfileError → Text → Resource → Result ProfileError Resource
named_resource missing name resource = if is_empty name then err missing else ok resource

unfoldable pub target_resource : Request → Result ProfileError Resource
target_resource r =
    if text_eq r.method (text "tools/call")
    then named_resource missing_tool_name r.tool_name (tool_resource r.tool_name r.server_uri [])
    else if text_eq r.method (text "resources/read")
    then named_resource missing_resource_uri r.resource_uri (resource_resource r.resource_uri [])
    else if text_eq r.method (text "prompts/get")
    then named_resource missing_prompt_name r.prompt_name
        (prompt_resource r.prompt_name r.server_uri [])
    else ok (server_resource r.server_uri [])

unfoldable pub call_action : Text → Option Fields → Action
call_action name arguments = record {
  name = name;
  properties =
      if len_of arguments == 0
      then none
      else some (field (text "arguments") (obj (entries arguments)) end);
}

unfoldable pub assemble : Request → Text → Resource → Result ProfileError EvaluationRequest
assemble r name resource =
    let subject = subject_from_token r.token in
    if is_empty subject.id
    then err missing_subject
    else ok (record {
      subject = some subject;
      action = some (call_action name r.arguments);
      resource = some resource;
      context = some (evaluation_context r);
    })

unfoldable pub evaluation_request : Request → Result ProfileError EvaluationRequest
evaluation_request r = elim (action_for r.method) [
  | none ↦ err unknown_method
  | some name ↦ target_resource r >>= assemble r name
]
