-- ===== src/Gateway/Fastmcp.antt =====
-- fastmcp.py: `FastMCPAuthorizationMiddleware`.
use apparitor.Prelude.{
  String, Bool, false, not, ◌&&◌, ◌||◌, Option, none, some, List, [], ◌∷◌, map, ◌==◌, nonempty,
  contains, if◌then◌else◌,
}
use apparitor.Adapters.{NormalizedToolCall}
use apparitor.Decision.{VerdictResult, is_allowed_gateway}
use apparitor.Engine.Base.{Engine, State}
use apparitor.Engine.Entry.{evaluate_normalized, evaluate_with_boundary}
use apparitor.Engine.Each.{evaluate_each}
use apparitor.Exec.{Exec, pure, ◌>>=◌}
use apparitor.Gateway.{Reply, passed, tool_error, resource_error, prompt_error, gate, count_refusal}
use apparitor.Gateway.Requests.{
  Settings, Surroundings, request_context, resource_request, prompt_request,
}
use apparitor.Models.{Subject, EvaluationRequest}
use apparitor.Result
use apparitor.Result.{Result, ok, raise, cancelled, value_error}
use apparitor.Value.{Value, null, str, Fields, end}

-- A tool of a listing: its attribute `key`, if it has one, and its name.
pub record Tool : Type 0 where
  pub key : Option Value
  pub name : String

unfoldable pub listed_name : Option Value → String → String
unfolding contains
listed_name (some (str k)) name = if nonempty k && not (contains b':' k) then k else name
listed_name _ name = name

abbrev pub name_of : Tool → String
name_of t = listed_name t.key t.name

abbrev pub is_member : String → List String → Bool
is_member x [] = false
is_member x (y ∷ ys) = y == x || is_member x ys

-- `{name for name, verdict in zip(names, verdicts, strict=True) if ...}`
unfoldable pub allowed_names : List String → List VerdictResult → Result (List String)
unfolding is_allowed_gateway
allowed_names [] [] = ok []
allowed_names (n ∷ names) (v ∷ vs) =
    Result.◌>>=◌ (allowed_names names vs)
      λ rest. ok (if is_allowed_gateway v then n ∷ rest else rest)
allowed_names _ _ = raise value_error

abbrev pub keep : List String → List Tool → List Tool
keep visible [] = []
keep visible (t ∷ tools) =
    if is_member (name_of t) visible then t ∷ keep visible tools else keep visible tools

abbrev pub plain_call : String → NormalizedToolCall
plain_call name = record { name = name; arguments = end; id = null }

module _ {W : Type 0} (e : Engine W) (m : Settings) (around : Surroundings) where
  abbrev pub on_context :
      Option (Subject × Fields)
      → (Subject → Fields → Exec (State W) (Option VerdictResult))
      → Exec (State W) (Option VerdictResult)
  on_context none run = pure none
  on_context (some (s, ctx)) run = run s ctx

  -- `_authorize`, at the name and the arguments of the message.
  unfoldable pub authorize : String → Fields → Exec (State W) (Option VerdictResult)
  unfolding request_context evaluate_normalized
  authorize name arguments = on_context (request_context m around) λ s ctx.
      evaluate_normalized e (record { name = name; arguments = arguments; id = null } ∷ []) ctx
      >>= λ v. pure (some v)

  abbrev pub evaluate_shaped : Option EvaluationRequest → Exec (State W) (Option VerdictResult)
  evaluate_shaped none = pure none
  evaluate_shaped (some r) = evaluate_with_boundary e r m.boundary_subject

  unfoldable pub authorize_shaped :
      (Subject → Fields → Option EvaluationRequest) → Exec (State W) (Option VerdictResult)
  unfolding request_context evaluate_with_boundary
  authorize_shaped shape =
      on_context (request_context m around) λ s ctx. evaluate_shaped (shape s ctx)

  unfoldable pub on_call_tool :
      {A : Type 0} → String → Fields → (State W → Result A × State W) → State W → Reply A × State W
  unfolding gate authorize
  on_call_tool name arguments = gate e tool_error "tool call" (authorize name arguments)

  abbrev pub ungated : {A : Type 0} → (State W → Result A × State W) → State W → Reply A × State W
  ungated call_next s = let (r, s') = call_next s in (passed r, s')

  unfoldable pub on_read_resource :
      {A : Type 0} → String → (State W → Result A × State W) → State W → Reply A × State W
  unfolding gate authorize_shaped resource_request
  on_read_resource uri call_next =
      if m.gate_resources
      then gate e resource_error "resource read" (authorize_shaped (resource_request e.runtime uri))
          call_next
      else ungated call_next

  unfoldable pub on_get_prompt :
      {A : Type 0} → String → (State W → Result A × State W) → State W → Reply A × State W
  unfolding gate authorize_shaped prompt_request
  on_get_prompt name call_next =
      if m.gate_prompts
      then gate e prompt_error "prompt" (authorize_shaped (prompt_request e.runtime name)) call_next
      else ungated call_next

  -- `_visible_tools` behind the request context.
  abbrev pub visible_for : List String → Option (Subject × Fields) → Exec (State W) (List String)
  visible_for names none s = (ok [], count_refusal e s)
  visible_for names (some (p, ctx)) s =
      (evaluate_each e (map plain_call names) ctx >>= λ vs s'. (allowed_names names vs, s')) s

  unfoldable pub visible_tools : List String → Exec (State W) (List String)
  unfolding request_context evaluate_each allowed_names count_refusal
  visible_tools [] = pure []
  visible_tools (n ∷ names) = visible_for (n ∷ names) (request_context m around)

  -- An exception hides all tools and is counted.
  abbrev pub filtered : List Tool → Result (List String) → Exec (State W) (List Tool)
  filtered tools (ok visible) s = (ok (keep visible tools), s)
  filtered tools (raise exc) s = (ok [], count_refusal e s)
  filtered tools cancelled s = (cancelled, s)

  abbrev pub filter_tools : List Tool → Exec (State W) (List Tool)
  filter_tools tools s = let (r, s') = visible_tools (map name_of tools) s in filtered tools r s'

  unfoldable pub on_list_tools : Exec (State W) (List Tool) → Exec (State W) (List Tool)
  unfolding visible_tools count_refusal listed_name
  on_list_tools call_next =
      call_next >>= λ tools. if m.filter_listings then filter_tools tools else pure tools
