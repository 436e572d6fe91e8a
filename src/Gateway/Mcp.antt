-- ===== src/Gateway/Mcp.antt =====
-- fastmcp.py: what a call, a read or a fetch that reaches the server proves.
use apparitor.Prelude.{
  String, true, Option, none, some, List, [], ◌∷◌, ◌≡◌, ◌≢◌, refl, inl, inr, arith, ◌∙◌,
  Option-cases, strip, slash_join,
}
use apparitor.Decision.{VerdictResult, allow}
use apparitor.Engine.Base.{Engine, State}
use apparitor.Engine.EndToEnd.{evaluate_normalized-Granted}
use apparitor.Engine.Entry.{build_requests, evaluate_normalized}
use apparitor.Engine.Soundness.{Granted}
use apparitor.Exec.{after-ok}
use apparitor.Gateway.{passed, SurfaceError}
use apparitor.Gateway.Fastmcp.{
  authorize, authorize_shaped, evaluate_shaped, on_call_tool, on_read_resource, on_get_prompt,
}
use apparitor.Adapters.{NormalizedToolCall}
use apparitor.Mapping.{as_text, mcp_server_label_key}
use apparitor.Gateway.Subjects.{IsResolvedIn, request_context-IsResolvedIn}
use apparitor.Gateway.Requests.{
  Settings, Surroundings, request_context, resource_request, prompt_request, prompt_with,
}
use apparitor.Models.{Subject, EvaluationRequest}
use apparitor.Result.{Result, ok}
use apparitor.Value.{Value, null, str, Fields, get}
use apparitor.Gateway.Shield.{legs, gate-passed, boundary-Granted}

module _ {W : Type 0} (e : Engine W) where
  resource_request-parts :
      (uri : String) (p : Subject) (ctx : Fields) (r : EvaluationRequest)
      → resource_request e.runtime uri p ctx ≡ some r
      → (r.subject ≡ p) × (r.action.name ≡ "resource.read") × (r.resource.id ≡ uri)
  unfolding resource_request
  resource_request-parts uri p ctx r h = (ground (arith, h), ground (arith, h), ground (arith, h))

  prompt_with-parts :
      (label : Option String) (name : String) (p : Subject) (ctx : Fields) (r : EvaluationRequest)
      → prompt_with e.runtime label name p ctx ≡ some r
      → (l : String) × (label ≡ some l)
        × (r.subject ≡ p)
        × (r.action.name ≡ "prompt.get")
        × (r.resource.id ≡ slash_join (strip l) name)
  prompt_with-parts none name p ctx r h = absurd (ground (arith, h))
  prompt_with-parts (some l) name p ctx r h =
      (l, refl, ground (arith, h), ground (arith, h), ground (arith, h))

  as_text-some : (o : Option Value) (l : String) → as_text o ≡ some l → o ≡ some (str l)
  as_text-some none l h = absurd (ground (arith, h))
  as_text-some (some (str s)) l h = ground (arith, h)
  as_text-some (some v) l h = absurd (ground (arith, h))

  prompt_request-parts :
      (name : String) (p : Subject) (ctx : Fields) (r : EvaluationRequest)
      → prompt_request e.runtime name p ctx ≡ some r
      → (label : String) × (get mcp_server_label_key ctx ≡ some (str label))
        × (r.subject ≡ p)
        × (r.action.name ≡ "prompt.get")
        × (r.resource.id ≡ slash_join (strip label) name)
  unfolding prompt_request
  prompt_request-parts name p ctx r h =
      let (l, text, whose, what, where_to) =
        prompt_with-parts (as_text (get mcp_server_label_key ctx)) name p ctx r h in
      (l, as_text-some (get mcp_server_label_key ctx) l text, whose, what, where_to)

module _ {W : Type 0} (e : Engine W) (m : Settings) (around : Surroundings) where
  authorize-Granted :
      (name : String) (arguments : Fields) (s : State W) (v : VerdictResult)
      → (authorize e m around name arguments s).0 ≡ ok (some v)
      → v.verdict ≡ allow
      → (p : Subject) × (ctx : Fields) × (requests : List EvaluationRequest) × (request_context m
            around
          ≡ some (p, ctx))
        × (build_requests
              (e.mapper s.world)
              (record { name = name; arguments = arguments; id = null } ∷ [])
              ctx
            ≡ ok requests)
        × (requests ≢ [])
        × Granted e requests s
  unfolding authorize
  authorize-Granted name arguments s v h a = elim (Option-cases (request_context m around)) [
    | inl missing ↦ absurd (ground (arith, rw missing at h))
    | inr ((p, ctx), there) ↦
        let call : NormalizedToolCall = record { name = name; arguments = arguments; id = null } in
        let (u, judged, h₁) =
          after-ok (evaluate_normalized e (call ∷ []) ctx s).0 _ _ (rw there at h) in
        let (requests, built, some_request, granted) =
          evaluate_normalized-Granted e (call ∷ []) ctx s v (judged ∙ ground (arith, h₁)) a in
        (p, ctx, requests, there, built, some_request, granted)
  ]

  shaped-Granted :
      (shape : Subject → Fields → Option EvaluationRequest) (s : State W) (v : VerdictResult)
      → (authorize_shaped e m around shape s).0 ≡ ok (some v)
      → v.verdict ≡ allow
      → (p : Subject) × (ctx : Fields) × (r : EvaluationRequest) × (request_context m around
          ≡ some (p, ctx))
        × (shape p ctx ≡ some r)
        × Granted e (legs r m.boundary_subject) s
  unfolding authorize_shaped
  shaped-Granted shape s v h a = elim (Option-cases (request_context m around)) [
    | inl missing ↦ absurd (ground (arith, rw missing at h))
    | inr ((p, ctx), there) ↦
        let h₁ : (evaluate_shaped e m around (shape p ctx) s).0 ≡ ok (some v) = rw there at h in
        elim (Option-cases (shape p ctx)) [
          | inl missing ↦ absurd (ground (arith, rw missing at h₁))
          | inr (r, shaped) ↦ (
            p,
            ctx,
            r,
            there,
            shaped,
            boundary-Granted e r m.boundary_subject s v (rw shaped at h₁) a,
          )
        ]
  ]

module _ {W A : Type 0} (e : Engine W) (m : Settings) (around : Surroundings) where
  -- A tool call that is passed on: the middleware resolved a subject, the request context holds that
  -- subject, the mapper made requests of the call in this context, at least one, and these requests
  -- have one of the grounds of an ALLOW.
  pub on_call_tool-Granted :
      (name : String) (arguments : Fields) (call_next : State W → Result A × State W) (s : State W)
      (out : Result A)
      → (on_call_tool e m around name arguments call_next s).0 ≡ passed out
      → (p : Subject) × (ctx : Fields) × (requests : List EvaluationRequest) × IsResolvedIn m around
          p ctx
        × (request_context m around ≡ some (p, ctx))
        × (build_requests
              (e.mapper s.world)
              (record { name = name; arguments = arguments; id = null } ∷ [])
              ctx
            ≡ ok requests)
        × (requests ≢ [])
        × Granted e requests s
  unfolding on_call_tool
  on_call_tool-Granted name arguments call_next s out h =
      let (v, judged, a) =
        gate-passed e SurfaceError.tool_error "tool call" (authorize e m around name arguments)
          call_next s out h in
      let (p, ctx, requests, there, built, some_request, granted) =
        authorize-Granted e m around name arguments s v judged a in
      (
        p,
        ctx,
        requests,
        request_context-IsResolvedIn m around p ctx there,
        there,
        built,
        some_request,
        granted,
      )

  -- A gated resource read that is passed on: there is a subject, and the request "resource.read" for
  -- the URI has one of the grounds of an ALLOW, together with the leg of the boundary subject if
  -- one is set.
  pub on_read_resource-Granted :
      (uri : String) (call_next : State W → Result A × State W) (s : State W) (out : Result A)
      → m.gate_resources ≡ true
      → (on_read_resource e m around uri call_next s).0 ≡ passed out
      → (p : Subject) × (ctx : Fields) × (r : EvaluationRequest) × (request_context m around
          ≡ some (p, ctx))
        × (r.subject ≡ p)
        × (r.action.name ≡ "resource.read")
        × (r.resource.id ≡ uri)
        × Granted e (legs r m.boundary_subject) s
  unfolding on_read_resource
  on_read_resource-Granted uri call_next s out gated h =
      let (v, judged, a) =
        gate-passed e SurfaceError.resource_error "resource read"
          (authorize_shaped e m around (resource_request e.runtime uri)) call_next s out
          (rw gated at h) in
      let (p, ctx, r, there, shaped, granted) =
        shaped-Granted e m around (resource_request e.runtime uri) s v judged a in
      let (whose, what, where_to) = resource_request-parts e uri p ctx r shaped in
      (p, ctx, r, there, whose, what, where_to, granted)

  -- A gated prompt that is passed on: there is a subject, and the request "prompt.get" for the name
  -- behind the server's label has one of the grounds of an ALLOW, together with the leg of the
  -- boundary subject if one is set.
  pub on_get_prompt-Granted :
      (name : String) (call_next : State W → Result A × State W) (s : State W) (out : Result A)
      → m.gate_prompts ≡ true
      → (on_get_prompt e m around name call_next s).0 ≡ passed out
      → (p : Subject) × (ctx : Fields) × (r : EvaluationRequest) × (label : String)
        × (request_context m around ≡ some (p, ctx))
        × (get mcp_server_label_key ctx ≡ some (str label))
        × (r.subject ≡ p)
        × (r.action.name ≡ "prompt.get")
        × (r.resource.id ≡ slash_join (strip label) name)
        × Granted e (legs r m.boundary_subject) s
  unfolding on_get_prompt
  on_get_prompt-Granted name call_next s out gated h =
      let (v, judged, a) =
        gate-passed e SurfaceError.prompt_error "prompt"
          (authorize_shaped e m around (prompt_request e.runtime name)) call_next s out
          (rw gated at h) in
      let (p, ctx, r, there, shaped, granted) =
        shaped-Granted e m around (prompt_request e.runtime name) s v judged a in
      let (label, labelled, whose, what, where_to) = prompt_request-parts e name p ctx r shaped in
      (p, ctx, r, label, there, labelled, whose, what, where_to, granted)
