-- ===== src/Gateway/Invocation.antt =====
-- a2a.py: what an invocation that reaches the wrapped executor proves.
use apparitor.Prelude.{Option, some, ◌≡◌, refl, inl, inr, arith, Option-cases}
use apparitor.Decision.{VerdictResult, allow}
use apparitor.Engine.Base.{Engine, State}
use apparitor.Engine.Soundness.{Granted}
use apparitor.Exec.{after-ok}
use apparitor.Gateway.{passed, SurfaceError}
use apparitor.Gateway.A2a.{Executor, CallContext, execute}
use apparitor.Gateway.A2a
use apparitor.Models.{EvaluationRequest}
use apparitor.Result.{Result, ok}
use apparitor.Value.{Value, end}
use apparitor.Gateway.Shield.{legs, gate-passed, boundary-Granted}

module _ {W : Type 0} (e : Engine W) (x : Executor) where
  a2a_authorize-Granted :
      (context : Option CallContext) (skill : Result (Option Value)) (s : State W)
      (v : VerdictResult)
      → (A2a.authorize e x context skill s).0 ≡ ok (some v)
      → v.verdict ≡ allow
      → (r : EvaluationRequest) × (k : Option Value) × (A2a.resolve_subject x context
          ≡ some r.subject)
        × (skill ≡ ok k)
        × (A2a.resource x k ≡ some r.resource)
        × (r.action.name ≡ "agent.invoke")
        × Granted e (legs r x.boundary_subject) s
  unfolding A2a.authorize
  a2a_authorize-Granted context skill s v h a =
      elim (Option-cases (A2a.resolve_subject x context)) [
        | inl missing ↦ absurd (ground (arith, rw (missing, A2a.authorize) at h))
        | inr (p, found) ↦
            let (k, resolved, h₁) = after-ok skill _ s (rw (found, A2a.authorize) at h) in
            elim (Option-cases (A2a.resource x k)) [
              | inl missing ↦ absurd (ground (arith, rw missing at h₁))
              | inr (res, keyed) ↦
                  let r : EvaluationRequest = record {
                    subject = p;
                    action = record { name = "agent.invoke"; properties = end };
                    resource = res;
                    context = A2a.context_attrs e.runtime context;
                  } in
                  (
                    r,
                    k,
                    found,
                    resolved,
                    keyed,
                    refl,
                    boundary-Granted e r x.boundary_subject s v (rw keyed at h₁) a,
                  )
            ]
      ]

module _ {W A : Type 0} (e : Engine W) (x : Executor) where
  -- An invocation that reaches the wrapped executor: there is a subject, the skill gives a resource,
  -- and the request "agent.invoke" of that subject for that resource has one of the grounds of an
  -- ALLOW, together with the leg of the boundary subject if one is set.
  pub execute-Granted :
      (context : Option CallContext) (skill : Result (Option Value))
      (call_next : State W → Result A × State W) (s : State W) (out : Result A)
      → (execute e x context skill call_next s).0 ≡ passed out
      → (r : EvaluationRequest) × (k : Option Value) × (A2a.resolve_subject x context
          ≡ some r.subject)
        × (skill ≡ ok k)
        × (A2a.resource x k ≡ some r.resource)
        × (r.action.name ≡ "agent.invoke")
        × Granted e (legs r x.boundary_subject) s
  unfolding execute
  execute-Granted context skill call_next s out h =
      let (v, judged, a) =
        gate-passed e SurfaceError.invalid_request "agent invocation"
          (A2a.authorize e x context skill) call_next s out h in
      a2a_authorize-Granted e x context skill s v judged a
