-- ===== src/Mapping/Dual.antt =====
-- mapping.py: dual-principal evaluation. Every call becomes two requests, the user's leg and the
-- agent's leg, which share action, resource and context.
use apparitor.Prelude.{Bool, ◌&&◌, Option, [], ◌∷◌, ◌==◌}
use apparitor.Config.{ScannerConfig}
use apparitor.Mapping.{
  ToolCallMapper, many, or_else, static_subject, or_config_error, request_scoped_subject,
  request_context_attrs, tool_resource, tool_action,
}
use apparitor.Models.{Subject, EvaluationRequest}
use apparitor.Result.{Result, ok, config_error, raise_if, ◌>>=◌, ◌>>◌}
use apparitor.Runtime.{Runtime}
use apparitor.Value.{Fields}

-- The identity of a principal is its type and its id.
abbrev pub same_principal : Subject → Subject → Bool
same_principal a b = a.type == b.type && a.id == b.id

-- The agent principal that the constructor fixes.
unfoldable pub agent_principal : ScannerConfig → Option Subject → Result Subject
agent_principal config agent_subject = do
  agent ← or_config_error (or_else agent_subject (static_subject config config.agent_id))
  raise_if (agent.type == "workload") config_error
  ok agent

-- There is no fallback to the agent for the user's leg.
unfoldable pub resolve_user : Option Subject → Fields → Result Subject
unfolding request_scoped_subject
resolve_user ambient ctx = or_config_error (request_scoped_subject ambient ctx)

unfoldable pub dual_map : Runtime → ScannerConfig → Subject → Option Subject → ToolCallMapper
unfolding resolve_user tool_resource request_context_attrs
dual_map rt config agent ambient call ctx = do
  user ← resolve_user ambient ctx
  raise_if (same_principal user agent) config_error
  resource ← tool_resource rt config call ctx
  let context = request_context_attrs rt ctx
  let action = tool_action rt config
  ok (
      many (
        record { subject = user; action = action; resource = resource; context = context }
        ∷ record { subject = agent; action = action; resource = resource; context = context }
        ∷ []))

unfoldable pub build_boundary_leg : EvaluationRequest → Subject → Subject → Result EvaluationRequest
build_boundary_leg primary boundary_subject caller_subject = do
  raise_if (same_principal caller_subject boundary_subject) config_error
  ok (record primary { subject = boundary_subject })
