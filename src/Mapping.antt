-- ===== src/Mapping.antt =====
-- mapping.py: from a normalised tool call to the evaluation requests that must all be allowed. The
-- context variable `current_subject` is an argument, read when the mapper is called.
pub mod Dual
pub mod Keys
pub mod Scopes
use Prim.Native.String.{len}
use apparitor.Prelude.{
  ℕ, String, Bool, true, false, not, ◌&&◌, ◌||◌, Option, none, some, List, [], ◌∷◌, ◌==◌, ltb,
  if◌then◌else◌, is_empty, strip, contains, slash_join,
}
use apparitor.Adapters.{NormalizedToolCall}
use apparitor.Config.{ScannerConfig}
use apparitor.Models.{Subject, Action, Resource, EvaluationRequest}
use apparitor.Result.{Result, ok, raise, config_error, raise_if, ◌>>=◌, ◌>>◌}
use apparitor.Runtime.{Runtime}
use apparitor.Value.{Value, bool, str, obj, subject, Fields, end, field, get, is_end}
use apparitor.Value.Json.{json_safe}

-- What a mapper returns: `None`, one request, or a sequence.
pub data Mapped : Type 0 where
  abstain : Mapped
  one : EvaluationRequest → Mapped
  many : List EvaluationRequest → Mapped

abbrev pub ToolCallMapper : Type 0
ToolCallMapper = NormalizedToolCall → Fields → Result Mapped

abbrev pub mcp_server_label_key : String
mcp_server_label_key = "mcp_server_label"

-- An entry of the comprehension over `keys`.
abbrev pub copy_key : String → Option Value → Fields → Fields
copy_key k none rest = rest
copy_key k (some v) rest = field k v rest

abbrev pub unless_end : Fields → Option Fields
unless_end end = none
unless_end (field k v fs) = some (field k v fs)

unfoldable pub request_context_attrs : Runtime → Fields → Option Fields
request_context_attrs rt ctx = unless_end (
    json_safe rt (
      copy_key "conversation_id" (get "conversation_id" ctx) (
        copy_key "user_id" (get "user_id" ctx)
          (copy_key "correlation_id" (get "correlation_id" ctx) end))))

-- `isinstance(v, Subject)`
abbrev pub as_subject : Option Value → Option Subject
as_subject (some (subject t i p)) = some (record { type = t; id = i; properties = p })
as_subject _ = none

abbrev pub or_else {ℓ} : {A : Type ℓ} → Option A → Option A → Option A
or_else (some a) b = some a
or_else none b = b

-- The injected subject outranks the ambient one.
unfoldable pub request_scoped_subject : Option Subject → Fields → Option Subject
request_scoped_subject ambient ctx = or_else (as_subject (get "subject" ctx)) ambient

unfoldable pub mcp_resource_id : String → String → Result String
mcp_resource_id server tool = do
  let server = strip server
  let tool = strip tool
  raise_if (is_empty server || is_empty tool) config_error
  raise_if (contains b'/' server || contains b'/' tool) config_error
  ok (slash_join server tool)

unfoldable pub normalize_tool_name : Runtime → String → String
normalize_tool_name rt name = rt.lower (strip name)

-- `Subject(type=config.subject_type, id=config.agent_id)`, if there is an `agent_id`.
abbrev pub static_subject : ScannerConfig → Option String → Option Subject
static_subject config none = none
static_subject config (some id) =
    some (record { type = config.subject_type; id = id; properties = end })

abbrev pub or_config_error {ℓ} : {A : Type ℓ} → Option A → Result A
or_config_error none = raise config_error
or_config_error (some a) = ok a

unfoldable pub resolve_subject : ScannerConfig → Option Subject → Fields → Result Subject
unfolding request_scoped_subject
resolve_subject config ambient ctx =
    or_config_error
      (or_else (request_scoped_subject ambient ctx) (static_subject config config.agent_id))

-- `dict.fromkeys(arguments, "***redacted***")`
unfoldable pub redact : Fields → Fields
redact end = end
redact (field k v fs) = field k (str "***redacted***") (redact fs)

-- `isinstance(label, str)`
abbrev pub as_text : Option Value → Option String
as_text (some (str s)) = some s
as_text _ = none

module _ (rt : Runtime) (config : ScannerConfig) where
  -- `len(s.encode("utf-8"))` of the printed arguments is held to the cap on both paths.
  unfoldable pub bounded_arguments : Fields → Fields
  bounded_arguments args =
      if ltb config.max_argument_bytes (len (rt.dumps args))
      then field "_truncated" (bool true) end
      else args

  unfoldable pub forwarded_arguments : NormalizedToolCall → Fields
  unfolding bounded_arguments redact
  forwarded_arguments call =
      if not config.forward_arguments
      then end
      else bounded_arguments
          (if config.redact_arguments then redact call.arguments else json_safe rt call.arguments)

  -- `properties={"arguments": ...}`
  unfoldable pub argument_properties : NormalizedToolCall → Fields
  unfolding forwarded_arguments
  argument_properties call = field "arguments" (obj (forwarded_arguments call)) end

  unfoldable pub tool_resource : NormalizedToolCall → Fields → Result Resource
  unfolding argument_properties normalize_tool_name
  tool_resource call ctx = ok (record {
    type = config.resource_type;
    id = normalize_tool_name rt call.name;
    properties = argument_properties call;
  })

  abbrev pub tool_action : Action
  tool_action = record { name = config.action_name; properties = end }

  -- `DefaultToolCallMapper.map`, over the `_resource` that a subclass may replace.
  unfoldable pub map_call :
      (NormalizedToolCall → Fields → Result Resource) → Option Subject → ToolCallMapper
  unfolding resolve_subject request_context_attrs
  map_call resource_of ambient call ctx = do
    principal ← resolve_subject config ambient ctx
    resource ← resource_of call ctx
    ok (
        one (record {
          subject = principal;
          action = tool_action;
          resource = resource;
          context = request_context_attrs rt ctx;
        }))

  unfoldable pub default_map : Option Subject → ToolCallMapper
  unfolding map_call tool_resource
  default_map = map_call tool_resource

  -- The label fixed at construction, or that of the request context.
  abbrev pub label_of : Option String → Fields → Option String
  label_of server_label ctx = or_else server_label (as_text (get mcp_server_label_key ctx))

  unfoldable pub mcp_resource : Option String → NormalizedToolCall → Fields → Result Resource
  unfolding argument_properties normalize_tool_name mcp_resource_id
  mcp_resource server_label call ctx = do
    label ← or_config_error (label_of server_label ctx)
    id ← mcp_resource_id label (normalize_tool_name rt call.name)
    ok (record { type = "mcp_tool"; id = id; properties = argument_properties call })

  unfoldable pub mcp_map : Option String → Option Subject → ToolCallMapper
  unfolding map_call mcp_resource
  mcp_map server_label = map_call (mcp_resource server_label)
