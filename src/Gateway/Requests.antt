-- ===== src/Gateway/Requests.antt =====
-- fastmcp.py: who calls, and the requests that the middleware shapes itself.
use apparitor.Prelude.{
  String, Bool, not, ◌&&◌, Option, none, some, is_empty, strip, contains, slash_join, if◌then◌else◌,
}
use apparitor.Config.{ScannerConfig}
use apparitor.Mapping.{
  request_scoped_subject, request_context_attrs, static_subject, or_else, as_text,
  mcp_server_label_key,
}
use apparitor.Models.{Subject, EvaluationRequest}
use apparitor.Runtime.{Runtime}
use apparitor.Value.{Value, str, arr, subject, Items, Fields, end, field, get, put}

-- The token that `get_access_token` returns.
pub record AccessToken : Type 0 where
  pub claims : Fields
  pub client_id : Value
  pub scopes : Items

-- The settings of the constructor.
pub record Settings : Type 0 where
  pub config : ScannerConfig
  pub server_label : Option String
  pub subject_type : String
  pub subject_claim : String
  pub allow_static_subject : Bool
  pub allow_workload_subject : Bool
  pub filter_listings : Bool
  pub gate_resources : Bool
  pub gate_prompts : Bool
  pub boundary_subject : Option Subject

-- What the middleware finds around a request: the token, the two context variables, and the
-- attribute `name` of the server.
pub record Surroundings : Type 0 where
  pub token : Option AccessToken
  pub request_context : Fields
  pub ambient : Option Subject
  pub server : Option Value

-- `isinstance(v, str) and v.strip()`
abbrev pub usable : Option Value → Option String
usable (some (str s)) = if is_empty (strip s) then none else some s
usable _ = none

abbrev pub token_properties : AccessToken → Fields
token_properties t = field "client_id" t.client_id (field "scopes" (arr t.scopes) end)

abbrev pub principal : String → AccessToken → String → Subject
principal type t id = record { type = type; id = id; properties = token_properties t }

abbrev pub map_option : {A B : Type 0} → (A → B) → Option A → Option B
map_option f none = none
map_option f (some a) = some (f a)

-- A token that is there decides alone: there is no fallback behind it.
unfoldable pub token_subject : Settings → AccessToken → Option Subject
token_subject m t =
    or_else (map_option (principal m.subject_type t) (usable (get m.subject_claim t.claims))) (
      if m.allow_workload_subject
      then map_option (principal "workload" t) (usable (some t.client_id))
      else none)

unfoldable pub resolve_subject :
    Settings → Option AccessToken → Option Subject → Fields → Option Subject
unfolding token_subject request_scoped_subject
resolve_subject m (some t) ambient ctx = token_subject m t
resolve_subject m none ambient ctx =
    or_else (request_scoped_subject ambient ctx)
      (if m.allow_static_subject then static_subject m.config m.config.agent_id else none)

-- `ctx[key] = label`, unless there is neither a fixed label nor a missing one that the server names.
abbrev pub put_label : Option String → Option String → Fields → Fields
put_label (some l) server ctx = put mcp_server_label_key (str l) ctx
put_label none (some name) ctx = elim (get mcp_server_label_key ctx) [
  | none ↦ put mcp_server_label_key (str name) ctx
  | some v ↦ ctx
]
put_label none none ctx = ctx

abbrev pub with_subject : Settings → Surroundings → Subject → Subject × Fields
with_subject m around s = (
  s,
  put_label m.server_label (usable around.server)
      (put "subject" (subject s.type s.id s.properties) around.request_context),
)

-- The subject, and the context that holds it under "subject".
unfoldable pub request_context : Settings → Surroundings → Option (Subject × Fields)
unfolding resolve_subject
request_context m around =
    map_option (with_subject m around)
      (resolve_subject m around.token around.ambient around.request_context)

abbrev pub server_property : Option String → Fields
server_property none = end
server_property (some l) = field "server" (str l) end

module _ (rt : Runtime) where
  unfoldable pub resource_request : String → Subject → Fields → Option EvaluationRequest
  unfolding request_context_attrs
  resource_request uri s ctx = some (record {
    subject = s;
    action = record { name = "resource.read"; properties = end };
    resource = record {
      type = "mcp_resource";
      id = uri;
      properties = server_property (as_text (get mcp_server_label_key ctx));
    };
    context = request_context_attrs rt ctx;
  })

  -- A text that can stand in front of a "/" or behind it.
  abbrev pub is_segment : String → Bool
  is_segment s = not (is_empty (strip s)) && not (contains b'/' s)

  abbrev pub prompt_with : Option String → String → Subject → Fields → Option EvaluationRequest
  prompt_with none name s ctx = none
  prompt_with (some label) name s ctx =
      if is_segment (strip label) && is_segment name
      then some (record {
        subject = s;
        action = record { name = "prompt.get"; properties = end };
        resource = record {
          type = "mcp_prompt";
          id = slash_join (strip label) name;
          properties = end;
        };
        context = request_context_attrs rt ctx;
      })
      else none

  unfoldable pub prompt_request : String → Subject → Fields → Option EvaluationRequest
  unfolding request_context_attrs strip contains slash_join
  prompt_request name s ctx = prompt_with (as_text (get mcp_server_label_key ctx)) name s ctx
