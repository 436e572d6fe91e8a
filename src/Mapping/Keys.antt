-- ===== src/Mapping/Keys.antt =====
-- mapping.py: what the policy keys and the forwarded arguments depend on.
use apparitor.Prelude.{
  String, true, false, ◌≡◌, refl, inl, inr, arith, Bool-cases, Option-cases, Option, some, ◌||◌,
  strip, contains, is_empty, slash_join, slash_join-injective, [], ◌∷◌, ◌∙◌, sym,
}
use apparitor.Adapters.{NormalizedToolCall}
use apparitor.Config.{ScannerConfig}
use apparitor.Mapping.{
  mcp_resource_id, redact, forwarded_arguments, many, Mapped, tool_resource, request_scoped_subject,
  request_context_attrs, tool_action, argument_properties, normalize_tool_name,
}
use apparitor.Mapping.Dual.{dual_map, same_principal, resolve_user}
use apparitor.Models.{Subject, Resource, EvaluationRequest}
use apparitor.Result.{ok, config_error, raise_if, >>=-ok}
use apparitor.Runtime.{Runtime}
use apparitor.Value.{Fields, end, field}

-- Two segments that neither is empty nor has a slash in it.
abbrev pub Joined : String → String → String → Type 0
Joined server tool id =
    (contains b'/' (strip server) ≡ false)
    × (contains b'/' (strip tool) ≡ false)
    × (id ≡ slash_join (strip server) (strip tool))

resource_id-Joined :
    (server tool id : String) → mcp_resource_id server tool ≡ ok id → Joined server tool id
unfolding mcp_resource_id
resource_id-Joined server tool id h =
    let (u, filled, h₁) =
      >>=-ok (raise_if (is_empty (strip server) || is_empty (strip tool)) config_error) _ h in
    let (u', apart, h₂) =
      >>=-ok (raise_if (contains b'/' (strip server) || contains b'/' (strip tool)) config_error) _
        h₁ in
    (ground (arith, apart), ground (arith, apart), ground (arith, h₂))

-- The resource id tells servers and tools apart: two pairs with the same id agree but for the space
-- around their names.
pub mcp_resource_id-injective :
    (server tool server' tool' id : String)
    → mcp_resource_id server tool ≡ ok id
    → mcp_resource_id server' tool' ≡ ok id
    → (strip server ≡ strip server') × (strip tool ≡ strip tool')
mcp_resource_id-injective server tool server' tool' id h k =
    let (a, b, c) = resource_id-Joined server tool id h in
    let (a', b', c') = resource_id-Joined server' tool' id k in
    slash_join-injective (strip server) (strip tool) (strip server') (strip tool') a a' (sym c ∙ c')

-- The keys of two dictionaries are the same, in order.
abbrev pub SameKeys : Fields → Fields → Type 0
SameKeys end end = Unit
SameKeys end (field k v fs) = ⊥
SameKeys (field k v fs) end = ⊥
SameKeys (field k v fs) (field j w gs) = (k ≡ j) × SameKeys fs gs

redact-SameKeys : (fs gs : Fields) → SameKeys fs gs → redact fs ≡ redact gs
unfolding redact
redact-SameKeys end end h = refl
redact-SameKeys end (field k v fs) h = absurd h
redact-SameKeys (field k v fs) end h = absurd h
redact-SameKeys (field k v fs) (field j w gs) (same, h) =
    ground (arith, same, redact-SameKeys fs gs h)

module _ (rt : Runtime) (config : ScannerConfig) where
  -- With redaction, what is forwarded of the arguments depends on their keys alone.
  pub redaction :
      (a b : NormalizedToolCall)
      → config.redact_arguments ≡ true
      → SameKeys a.arguments b.arguments
      → forwarded_arguments rt config a ≡ forwarded_arguments rt config b
  unfolding forwarded_arguments
  redaction a b on same = rw on (rw (redact-SameKeys a.arguments b.arguments same) refl)

  -- The two legs of a call under dual-principal evaluation: the user is the subject that the host
  -- provided, never a fallback, the agent is the fixed one, they are different principals, and the
  -- legs have the same action, resource and context.
  pub dual_map_lem :
      (agent : Subject) (ambient : Option Subject) (call : NormalizedToolCall) (ctx : Fields)
      (m : Mapped)
      → dual_map rt config agent ambient call ctx ≡ ok m
      → (u : EvaluationRequest) × (v : EvaluationRequest) × (m ≡ many (u ∷ v ∷ []))
        × (request_scoped_subject ambient ctx ≡ some u.subject)
        × (v.subject ≡ agent)
        × (same_principal u.subject v.subject ≡ false)
        × (u.action ≡ v.action)
        × (u.resource ≡ v.resource)
        × (u.context ≡ v.context)
  unfolding dual_map resolve_user tool_resource
  dual_map_lem agent ambient call ctx m h =
      let res : Resource = record {
        type = config.resource_type;
        id = normalize_tool_name rt call.name;
        properties = argument_properties rt config call;
      } in
      let leg : Subject → EvaluationRequest = λ p. record {
        subject = p;
        action = tool_action rt config;
        resource = res;
        context = request_context_attrs rt ctx;
      } in
      elim (Option-cases (request_scoped_subject ambient ctx)) [
        | inl missing ↦ absurd (ground (arith, missing))
        | inr (user, found) ↦ elim (Bool-cases (same_principal user agent)) [
          | inl same ↦ absurd (ground (arith, found, same))
          | inr distinct ↦ (
            leg user,
            leg agent,
            ground (arith, found, distinct),
            found,
            refl,
            distinct,
            refl,
            refl,
            refl,
          )
        ]
      ]
