-- ===== src/Tests/Gates.antt =====
-- Examples of the enforcement points.
use apparitor.Prelude.{
  map, ℕ, ◌≡◌, ◌≢◌, refl, ◌↔◌, ◌⊎◌, some, none, List, [], ◌∷◌, Option, true, false, String, strip,
}
use apparitor.Decision.{VerdictResult, is_allowed_gateway}
use apparitor.Engine.Base.{State, Engine}
use apparitor.Engine.Entry.{build_requests}
use apparitor.Engine.Soundness.{Granted}
use apparitor.Exec.{Exec}
use apparitor.Gateway.{Reply, passed, SurfaceError, gate}
use apparitor.Gateway.A2a
use apparitor.Gateway.A2a.{Executor, CallContext, User, execute}
use apparitor.Gateway.Agreement.{inline-agree}
use apparitor.Gateway.Fastmcp.{
  Tool, is_member, keep, name_of, on_call_tool, on_read_resource, on_get_prompt,
}
use apparitor.Gateway.Listing.{IsVisible, on_list_tools-IsVisible}
use apparitor.Engine.Skips.{Justified}
use apparitor.Gateway.Inspection.{scan-Justified}
use apparitor.Gateway.Identity.{Names, token_subject_lem}
use apparitor.Gateway.Inline
use apparitor.Gateway.Inline.{to_scan_result, outcome}
use apparitor.Gateway.Invocation.{execute-Granted}
use apparitor.Gateway.Mcp.{on_call_tool-Granted}
use apparitor.Gateway.Requests.{
  Settings, Surroundings, AccessToken, request_context, principal, usable,
}
use apparitor.Gateway.Shield.{legs, gate_lem}
use apparitor.Gateway.Subjects.{IsResolvedIn}
use apparitor.Models.{Subject, EvaluationRequest}
use apparitor.Result.{Result, ok}
use apparitor.Tests.{config, engine, start, raw_call, authorized, bot}
use apparitor.Value.{Value, null, str, nil, Fields, end, field, get}

abbrev settings : Settings
settings = record {
  config = config;
  server_label = some "files";
  subject_type = "user";
  subject_claim = "sub";
  allow_static_subject = false;
  allow_workload_subject = false;
  filter_listings = false;
  gate_resources = true;
  gate_prompts = true;
  boundary_subject = some bot;
}

abbrev token : AccessToken
token = record { claims = field "sub" (str "alice") end; client_id = str "app"; scopes = nil }

abbrev around : Surroundings
around = record { token = some token; request_context = end; ambient = none; server = none }

-- The code behind a gate: it returns the clock.
abbrev handler : State ℕ → Result ℕ × State ℕ
handler s = (ok s.world, s)

abbrev executor : Executor
executor = record {
  config = config;
  agent_label = "planner";
  subject_type = "agent";
  allow_static_subject = false;
  boundary_subject = none;
}

abbrev peer : CallContext
peer = record {
  user = some (record { is_authenticated = true; user_name = str "alice" });
  state = end;
  tenant = "";
}

abbrev authorize_all : Exec (State ℕ) (Option VerdictResult)
authorize_all s = (ok (some authorized), s)

gate_lem_example :
    ((v : VerdictResult) × (ok (some authorized) ≡ ok (some v))
      × (is_allowed_gateway v ≡ true)
      × (gate engine SurfaceError.tool_error "tool call" authorize_all handler start
          ≡ (passed (ok 0), start)))
    ⊎ (((out : Result ℕ)
          → (gate engine SurfaceError.tool_error "tool call" authorize_all handler start).0
            ≢ passed out)
        × ((other : State ℕ → Result ℕ × State ℕ)
            → gate engine SurfaceError.tool_error "tool call" authorize_all handler start
              ≡ gate engine SurfaceError.tool_error "tool call" authorize_all other start))
gate_lem_example = gate_lem engine SurfaceError.tool_error "tool call" authorize_all handler start

on_call_tool-Granted_example :
    (p : Subject) × (ctx : Fields) × (requests : List EvaluationRequest) × IsResolvedIn settings
      around p ctx
    × (request_context settings around ≡ some (p, ctx))
    × (build_requests
          (engine.mapper 0)
          (record { name = "ls"; arguments = end; id = null } ∷ [])
          ctx
        ≡ ok requests)
    × (requests ≢ [])
    × Granted engine requests start
unfolding on_call_tool get strip apparitor.Mapping.default_map apparitor.Value.put
on_call_tool-Granted_example =
    on_call_tool-Granted engine settings around "ls" end handler start (ok 1) refl

execute-Granted_example :
    (r : EvaluationRequest) × (k : Option Value) × (A2a.resolve_subject executor (some peer)
      ≡ some r.subject)
    × (ok (some (str "book")) ≡ ok k)
    × (A2a.resource executor k ≡ some r.resource)
    × (r.action.name ≡ "agent.invoke")
    × Granted engine (legs r none) start
unfolding execute
execute-Granted_example =
    execute-Granted engine executor (some peer) (ok (some (str "book"))) handler start (ok 1) refl

token_subject_lem_example :
    ((id : String) × Names (get "sub" token.claims) id
      × (principal "user" token "alice" ≡ principal "user" token id))
    ⊎ ((id : String) × (usable (get "sub" token.claims) ≡ none)
        × (false ≡ true)
        × Names (some token.client_id) id
        × (principal "user" token "alice" ≡ principal "workload" token id))
unfolding apparitor.Gateway.Requests.resolve_subject get strip
token_subject_lem_example =
    token_subject_lem settings token none end (principal "user" token "alice") refl

inline-agree_example :
    ((to_scan_result authorized).decision ≡ Inline.allowed)
    ↔ ((outcome authorized).is_blocked ≡ false)
unfolding Inline.scan apparitor.Result.traverse get apparitor.Mapping.default_map
    apparitor.Engine.Base.reason_for Inline.authorize_tool_calls
inline-agree_example =
    inline-agree engine (raw_call ∷ []) end start (to_scan_result authorized) (outcome authorized)
      refl refl

abbrev filtering : Settings
filtering = record settings { filter_listings = true }

abbrev tools : List Tool
tools = record { key = none; name = "ls" } ∷ record { key = some (str "fs_rm"); name = "rm" } ∷ []

abbrev list_all : Exec (State ℕ) (List Tool)
list_all s = (ok tools, s)

on_list_tools-IsVisible_example :
    (all : List Tool) × (visible : List String) × ((list_all start).0 ≡ ok all)
    × (tools ≡ keep visible all)
    × ((n : String)
        → is_member n visible ≡ true
        → IsVisible engine filtering around (map name_of all) start n)
unfolding apparitor.Gateway.Fastmcp.on_list_tools get strip apparitor.Mapping.default_map
    apparitor.Value.put
on_list_tools-IsVisible_example =
    on_list_tools-IsVisible engine filtering around list_all start tools refl refl

scan-Justified_example : Justified engine (raw_call ∷ []) end start
unfolding Inline.scan apparitor.Result.traverse get apparitor.Mapping.default_map
    apparitor.Engine.Base.reason_for
scan-Justified_example =
    scan-Justified engine (some (raw_call ∷ [])) end start (to_scan_result authorized) refl refl
