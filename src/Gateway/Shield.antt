-- ===== src/Gateway/Shield.antt =====
-- fastmcp.py and a2a.py: nothing behind a gate runs without a clean ALLOW, and what that proves.
use apparitor.Prelude.{
  String, true, Option, none, some, List, [], ◌∷◌, ◌≡◌, ◌≢◌, refl, ◌⊎◌, inl, inr, arith, Bool-cases,
  ◌∙◌,
}
use apparitor.Decision.{VerdictResult, allow, is_allowed_gateway}
use apparitor.Engine.Base.{Engine, State}
use apparitor.Engine.EndToEnd.{evaluate_with_boundary-Granted}
use apparitor.Engine.Entry.{evaluate_requests, evaluate_with_boundary}
use apparitor.Engine.Soundness.{Granted, evaluate_requests-Granted}
use apparitor.Exec.{Exec, after-ok}
use apparitor.Gateway.{passed, SurfaceError, gate, pass_or_refuse}
use apparitor.Gateway.Fastmcp.{authorize}
use apparitor.Models.{Subject, EvaluationRequest}
use apparitor.Result.{Result, ok, raise, cancelled}

allowed-allow : (v : VerdictResult) → is_allowed_gateway v ≡ true → v.verdict ≡ allow
unfolding is_allowed_gateway
allowed-allow v h = ground arith

-- The requests of an evaluation with a boundary subject.
abbrev pub legs : EvaluationRequest → Option Subject → List EvaluationRequest
legs r none = r ∷ []
legs r (some boundary) = r ∷ record r { subject = boundary } ∷ []

module _ {W A : Type 0} (e : Engine W) where
  pass_or_refuse-cases :
      (surface : SurfaceError) (noun : String) (call_next : State W → Result A × State W)
      (r : Result (Option VerdictResult)) (s : State W)
      → ((v : VerdictResult) × (r ≡ ok (some v))
          × (is_allowed_gateway v ≡ true)
          × (pass_or_refuse e surface noun call_next r s
              ≡ (passed (call_next s).0, (call_next s).1)))
        ⊎ (((out : Result A) → (pass_or_refuse e surface noun call_next r s).0 ≢ passed out)
            × ((other : State W → Result A × State W)
                → pass_or_refuse e surface noun call_next r s
                  ≡ pass_or_refuse e surface noun other r s))
  unfolding pass_or_refuse
  pass_or_refuse-cases surface noun call_next (ok none) s =
      inr ((λ out h. ground (arith, h)), λ other. refl)
  pass_or_refuse-cases surface noun call_next (ok (some v)) s =
      elim (Bool-cases (is_allowed_gateway v)) [
        | inl clean ↦ inl (v, refl, clean, rw (clean, pass_or_refuse) refl)
        | inr unclean ↦ inr (rw (unclean, pass_or_refuse) ((λ out h. ground (arith, h)), λ n. refl))
      ]
  pass_or_refuse-cases surface noun call_next (raise exc) s =
      inr ((λ out h. ground (arith, h)), λ other. refl)
  pass_or_refuse-cases surface noun call_next cancelled s =
      inr ((λ out h. ground (arith, h)), λ other. refl)

  -- A gate has two outcomes. Either the authorization returned a verdict that is a clean ALLOW: then
  -- reply and state are those of the code behind the gate, run in the state after the
  -- authorization. Or the call is not passed on: then reply and state are the same whatever code
  -- stands behind the gate.
  pub gate_lem :
      (surface : SurfaceError) (noun : String) (authorize : Exec (State W) (Option VerdictResult))
      (call_next : State W → Result A × State W) (s : State W)
      → ((v : VerdictResult) × ((authorize s).0 ≡ ok (some v))
          × (is_allowed_gateway v ≡ true)
          × (gate e surface noun authorize call_next s
              ≡ (passed (call_next (authorize s).1).0, (call_next (authorize s).1).1)))
        ⊎ (((out : Result A) → (gate e surface noun authorize call_next s).0 ≢ passed out)
            × ((other : State W → Result A × State W)
                → gate e surface noun authorize call_next s
                  ≡ gate e surface noun authorize other s))
  unfolding gate
  gate_lem surface noun authorize call_next s =
      pass_or_refuse-cases surface noun call_next (authorize s).0 (authorize s).1

  pub gate-passed :
      (surface : SurfaceError) (noun : String) (authorize : Exec (State W) (Option VerdictResult))
      (call_next : State W → Result A × State W) (s : State W) (out : Result A)
      → (gate e surface noun authorize call_next s).0 ≡ passed out
      → (v : VerdictResult) × ((authorize s).0 ≡ ok (some v)) × (v.verdict ≡ allow)
  gate-passed surface noun authorize call_next s out h =
      elim (gate_lem surface noun authorize call_next s) [
        | inl (v, judged, clean, same) ↦ (v, judged, allowed-allow v clean)
        | inr (refusal, same) ↦ absurd (refusal out h)
      ]

module _ {W : Type 0} (e : Engine W) where
  pub boundary-Granted :
      (r : EvaluationRequest) (boundary : Option Subject) (s : State W) (v : VerdictResult)
      → (evaluate_with_boundary e r boundary s).0 ≡ ok (some v)
      → v.verdict ≡ allow
      → Granted e (legs r boundary) s
  unfolding evaluate_with_boundary
  boundary-Granted r none s v h a =
      let (u, judged, h₁) = after-ok (evaluate_requests e (r ∷ []) s).0 _ _ h in
      evaluate_requests-Granted e (r ∷ []) s v (judged ∙ ground (arith, h₁)) a
  boundary-Granted r (some boundary) s v h a =
      (evaluate_with_boundary-Granted e r boundary s v h a).1
