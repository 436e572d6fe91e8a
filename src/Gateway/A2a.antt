-- ===== src/Gateway/A2a.antt =====
-- a2a.py: `A2AAuthorizationExecutor`.
use apparitor.Prelude.{
  String, Bool, ◌||◌, Option, none, some, is_empty, nonempty, strip, contains, slash_join,
  if◌then◌else◌,
}
use apparitor.Config.{ScannerConfig}
use apparitor.Decision.{VerdictResult}
use apparitor.Engine.Base.{Engine, State}
use apparitor.Engine.Entry.{evaluate_with_boundary}
use apparitor.Exec.{Exec, pure, lift, ◌>>=◌}
use apparitor.Gateway.{Reply, invalid_request, gate}
use apparitor.Gateway.Requests.{usable, map_option}
use apparitor.Mapping.{as_subject, or_else, static_subject, request_context_attrs, unless_end}
use apparitor.Models.{Subject, Resource}
use apparitor.Result
use apparitor.Result.{Result, ok, raise, config_error, raise_if}
use apparitor.Runtime.{Runtime}
use apparitor.Value.{Value, str, Fields, end, get, put}

pub record User : Type 0 where
  pub is_authenticated : Bool
  pub user_name : Value

-- `ServerCallContext`
pub record CallContext : Type 0 where
  pub user : Option User
  pub state : Fields
  pub tenant : String

-- The settings of the constructor, the label stripped.
pub record Executor : Type 0 where
  pub config : ScannerConfig
  pub agent_label : String
  pub subject_type : String
  pub allow_static_subject : Bool
  pub boundary_subject : Option Subject

-- The guard of the constructor on the label.
unfoldable pub checked_label : String → Result String
unfolding strip contains
checked_label agent_label =
    Result.◌>>=◌
      (raise_if (is_empty (strip agent_label) || contains b'/' (strip agent_label)) config_error)
      λ _. ok (strip agent_label)

abbrev pub user_of : Option CallContext → Option User
user_of none = none
user_of (some c) = c.user

abbrev pub state_of : Option CallContext → Fields
state_of none = end
state_of (some c) = c.state

abbrev pub tenant_of : Option CallContext → String
tenant_of none = ""
tenant_of (some c) = c.tenant

abbrev pub named : Executor → String → Subject
named x name = record { type = x.subject_type; id = strip name; properties = end }

-- The subject that the host injected, or the static one.
abbrev pub host_subject : Executor → Fields → Option Subject
host_subject x state =
    or_else (as_subject (get "subject" state))
      (if x.allow_static_subject then static_subject x.config x.config.agent_id else none)

abbrev pub subject_of_user : Executor → Option User → Fields → Option Subject
subject_of_user x none state = host_subject x state
subject_of_user x (some u) state =
    if u.is_authenticated
    then map_option (named x) (usable (some u.user_name))
    else host_subject x state

unfoldable pub resolve_subject : Executor → Option CallContext → Option Subject
unfolding strip get
resolve_subject x context = subject_of_user x (user_of context) (state_of context)

abbrev pub agent_resource : Executor → Resource
agent_resource x = record { type = "a2a_agent"; id = x.agent_label; properties = end }

abbrev pub skill_resource : Executor → Value → Option Resource
skill_resource x (str skill) =
    if is_empty (strip skill) || contains b'/' skill
    then none
    else some (record { type = "a2a_skill"; id = slash_join x.agent_label skill; properties = end })
skill_resource x _ = none

-- The resource for the outcome of the resolver, `none` if there is no resolver or it returned `None`.
unfoldable pub resource : Executor → Option Value → Option Resource
unfolding strip contains slash_join
resource x none = some (agent_resource x)
resource x (some skill) = skill_resource x skill

abbrev pub or_end : Option Fields → Fields
or_end none = end
or_end (some fs) = fs

unfoldable pub context_attrs : Runtime → Option CallContext → Option Fields
unfolding request_context_attrs
context_attrs rt context =
    let attrs = or_end (request_context_attrs rt (state_of context)) in
    unless_end
      (if nonempty (tenant_of context) then put "tenant" (str (tenant_of context)) attrs else attrs)

module _ {W : Type 0} (e : Engine W) (x : Executor) where
  abbrev pub authorize_with :
      Option Subject → Option Resource → Option Fields → Exec (State W) (Option VerdictResult)
  authorize_with none r context = pure none
  authorize_with (some s) none context = pure none
  authorize_with (some s) (some r) context =
      evaluate_with_boundary e
        (record {
          subject = s;
          action = record { name = "agent.invoke"; properties = end };
          resource = r;
          context = context;
        })
        x.boundary_subject

  -- `_authorize`, with the outcome of the skill resolver: it is called once there is a subject.
  unfoldable pub authorize :
      Option CallContext → Result (Option Value) → Exec (State W) (Option VerdictResult)
  unfolding resolve_subject resource context_attrs evaluate_with_boundary
  authorize context skill = elim (resolve_subject x context) [
    | none ↦ pure none
    | some s ↦
        lift skill >>= λ k. authorize_with (some s) (resource x k) (context_attrs e.runtime context)
  ]

  unfoldable pub execute :
      {A : Type 0}
      → Option CallContext
      → Result (Option Value)
      → (State W → Result A × State W)
      → State W
      → Reply A × State W
  unfolding gate authorize
  execute context skill = gate e invalid_request "agent invocation" (authorize context skill)
