-- ===== src/Engine/EndToEnd.antt =====
-- From raw tool calls to the decision service: what a verdict of the outer entry points proves.
use apparitor.Prelude.{
  false, subst, ◌≡◌, ◌≢◌, refl, true, Option, none, some, List, [], ◌∷◌, arith, inl, inr, ◌↔◌,
  Bool-cases, ◌∙◌,
}
use apparitor.Adapters.{Adapter, NormalizedToolCall, detect_adapter, normalize}
use apparitor.Decision.{VerdictResult, allow, resolve_error}
use apparitor.Engine.Base.{Engine, State, fault_verdict}
use apparitor.Engine.Entry.{
  build_requests, decide, decide_requests, evaluate_normalized, evaluate_requests, evaluate_parsed,
  evaluate_tool_calls, evaluate_legs, evaluate_with_boundary, normalize_raw, normalize_with,
  as_unparseable,
}
use apparitor.Engine.Soundness.{Granted, judge-Granted, timed-ok, evaluate_requests-Granted}
use apparitor.Exec.{after-ok}
use apparitor.Mapping.Dual.{same_principal}
use apparitor.Models.{Subject, EvaluationRequest}
use apparitor.Runtime.{Runtime}
use apparitor.Result.{
  Result, ok, raise, cancelled, >>=-ok, ok-injective, config_error, unparseable, traverse,
}
use apparitor.Value.{Fields}

-- Each raw call has the shape of a provider, and the call beside it is its normal form.
abbrev pub Recognised : Runtime → List Fields → List NormalizedToolCall → Type 0
Recognised rt [] [] = Unit
Recognised rt [] (call ∷ calls) = ⊥
Recognised rt (raw ∷ raws) [] = ⊥
Recognised rt (raw ∷ raws) (call ∷ calls) =
    ((adapter : Adapter) × (detect_adapter raw ≡ some adapter)
      × (normalize rt adapter raw ≡ ok call))
    × Recognised rt raws calls

as_unparseable-ok : {A : Type 0} (r : Result A) (a : A) → as_unparseable r ≡ ok a → r ≡ ok a
as_unparseable-ok (ok b) a h = h
as_unparseable-ok (raise exc) a h = absurd (ground (arith, h))
as_unparseable-ok cancelled a h = absurd (ground (arith, h))

normalize_with-ok :
    (rt : Runtime) (o : Option Adapter) (raw : Fields) (call : NormalizedToolCall)
    → normalize_with rt o raw ≡ ok call
    → (adapter : Adapter) × (o ≡ some adapter) × (normalize rt adapter raw ≡ ok call)
normalize_with-ok rt none raw call h = absurd (ground (arith, h))
normalize_with-ok rt (some adapter) raw call h =
    (adapter, refl, as_unparseable-ok (normalize rt adapter raw) call h)

pub traverse-Recognised :
    (rt : Runtime) (raws : List Fields) (calls : List NormalizedToolCall)
    → traverse (normalize_raw rt) raws ≡ ok calls
    → Recognised rt raws calls
unfolding traverse normalize_raw
traverse-Recognised rt [] [] h = tt
traverse-Recognised rt [] (call ∷ calls) h = absurd (ground (arith, h))
traverse-Recognised rt (raw ∷ raws) calls h =
    let (call, first, h₁) = >>=-ok (normalize_raw rt raw) _ h in
    let (rest, others, h₂) = >>=-ok (traverse (normalize_raw rt) raws) _ h₁ in
    subst (Recognised rt (raw ∷ raws)) (ok-injective h₂) (
      normalize_with-ok rt (detect_adapter raw) raw call first,
      traverse-Recognised rt raws rest others,
    )

module _ {W : Type 0} (e : Engine W) where
  decide_requests-Granted :
      (r : Result (List EvaluationRequest)) (s : State W) (v : VerdictResult)
      (rs : List EvaluationRequest)
      → (decide_requests e r s).0 ≡ ok (v, rs)
      → v.verdict ≡ allow
      → (requests : List EvaluationRequest) × (r ≡ ok requests)
        × (requests ≢ [])
        × Granted e requests s
  unfolding decide_requests fault_verdict resolve_error
  decide_requests-Granted (ok []) s v rs h a = absurd (ground arith)
  decide_requests-Granted (ok (q ∷ qs)) s v rs h a =
      (q ∷ qs, refl, (λ z. ground arith), judge-Granted e (q ∷ qs) s v rs h a)
  decide_requests-Granted (raise config_error) s v rs h a = absurd (ground arith)
  decide_requests-Granted (raise exc) s v rs h a = absurd (ground arith)
  decide_requests-Granted cancelled s v rs h a = absurd (ground arith)

  -- An ALLOW for normalised calls: the mapper made requests of them, at least one, and these
  -- requests have one of the grounds.
  pub evaluate_normalized-Granted :
      (calls : List NormalizedToolCall) (ctx : Fields) (s : State W) (v : VerdictResult)
      → (evaluate_normalized e calls ctx s).0 ≡ ok v
      → v.verdict ≡ allow
      → (requests : List EvaluationRequest) × (build_requests (e.mapper s.world) calls ctx
          ≡ ok requests)
        × (requests ≢ [])
        × Granted e requests s
  unfolding evaluate_normalized
  evaluate_normalized-Granted [] ctx s v h a = absurd (ground arith)
  evaluate_normalized-Granted (call ∷ calls) ctx s v h a =
      let (rs, decided) = timed-ok e (decide e (call ∷ calls) ctx) s v h in
      decide_requests-Granted _ s v rs (unfold decide in decided) a

  evaluate_parsed-Granted :
      (r : Result (List NormalizedToolCall)) (ctx : Fields) (s : State W) (v : VerdictResult)
      → (evaluate_parsed e r ctx s).0 ≡ ok v
      → v.verdict ≡ allow
      → (calls : List NormalizedToolCall) × (requests : List EvaluationRequest) × (r ≡ ok calls)
        × (build_requests (e.mapper s.world) calls ctx ≡ ok requests)
        × (requests ≢ [])
        × Granted e requests s
  unfolding evaluate_parsed
  evaluate_parsed-Granted (ok calls) ctx s v h a =
      let (requests, built, some_request, granted) =
        evaluate_normalized-Granted calls ctx s v h a in
      (calls, requests, refl, built, some_request, granted)
  evaluate_parsed-Granted (raise unparseable) ctx s v h a = absurd (ground arith)
  evaluate_parsed-Granted (raise exc) ctx s v h a = absurd (ground arith)
  evaluate_parsed-Granted cancelled ctx s v h a = absurd (ground arith)

  -- An ALLOW for raw tool calls: every one of them was recognised as the shape of a provider and
  -- normalised by the adapter of that shape, the mapper made requests of the normalised calls, at
  -- least one, and these requests have one of the grounds.
  pub evaluate_tool_calls-Granted :
      (raws : List Fields) (ctx : Fields) (s : State W) (v : VerdictResult)
      → (evaluate_tool_calls e raws ctx s).0 ≡ ok v
      → v.verdict ≡ allow
      → (calls : List NormalizedToolCall) × (requests : List EvaluationRequest) × Recognised
          e.runtime raws calls
        × (traverse (normalize_raw e.runtime) raws ≡ ok calls)
        × (build_requests (e.mapper s.world) calls ctx ≡ ok requests)
        × (requests ≢ [])
        × Granted e requests s
  unfolding evaluate_tool_calls
  evaluate_tool_calls-Granted [] ctx s v h a = absurd (ground arith)
  evaluate_tool_calls-Granted (raw ∷ raws) ctx s v h a =
      let (calls, requests, parsed, built, some_request, granted) =
        evaluate_parsed-Granted (traverse (normalize_raw e.runtime) (raw ∷ raws)) ctx s v h a in
      (
        calls,
        requests,
        traverse-Recognised e.runtime (raw ∷ raws) calls parsed,
        parsed,
        built,
        some_request,
        granted,
      )

  legs-Granted :
      (r : EvaluationRequest) (boundary : Subject) (s : State W) (v : Option VerdictResult)
      → (evaluate_legs e r (ok (record r { subject = boundary })) s).0 ≡ ok v
      → (v ≢ none)
        × ((u : VerdictResult)
            → v ≡ some u
            → u.verdict ≡ allow
            → Granted e (r ∷ record r { subject = boundary } ∷ []) s)
  unfolding evaluate_legs
  legs-Granted r boundary s v h =
      let legs = r ∷ record r { subject = boundary } ∷ [] in
      let (w, judged, h₁) = after-ok (evaluate_requests e legs s).0 _ _ h in
      (
        (λ n. ground (arith, h₁, n)),
        λ u is a. evaluate_requests-Granted e legs s u (judged ∙ ground (arith, h₁, is)) a,
      )

  evaluate_with_boundary_cases :
      (r : EvaluationRequest) (boundary : Subject) (s : State W) (v : Option VerdictResult)
      → (evaluate_with_boundary e r (some boundary) s).0 ≡ ok v
      → ((v ≡ none) ↔ (same_principal r.subject boundary ≡ true))
        × ((u : VerdictResult)
            → v ≡ some u
            → u.verdict ≡ allow
            → Granted e (r ∷ record r { subject = boundary } ∷ []) s)
  unfolding evaluate_with_boundary
  evaluate_with_boundary_cases r boundary s v h =
      elim (Bool-cases (same_principal r.subject boundary)) [
        | inl same ↦
            let refused : v ≡ none = ground (arith, same) in
            ((λ n. same, λ q. refused), λ u is a. ground (arith, refused, is))
        | inr other ↦
            let (answered, granted) = legs-Granted r boundary s v (rw other at h) in
            ((λ n. absurd (answered n), λ q. cc (q, other)), granted)
      ]

  -- An ALLOW with a boundary subject: the caller is another principal than the boundary, and both
  -- legs together, the request itself and the same request with the boundary as its subject, have
  -- one of the grounds.
  pub evaluate_with_boundary-Granted :
      (r : EvaluationRequest) (boundary : Subject) (s : State W) (u : VerdictResult)
      → (evaluate_with_boundary e r (some boundary) s).0 ≡ ok (some u)
      → u.verdict ≡ allow
      → (same_principal r.subject boundary ≡ false)
        × Granted e (r ∷ record r { subject = boundary } ∷ []) s
  evaluate_with_boundary-Granted r boundary s u h a =
      let (refusal, granted) = evaluate_with_boundary_cases r boundary s (some u) h in
      elim (Bool-cases (same_principal r.subject boundary)) [
        | inl same ↦ let gone : some u ≡ none = refusal.1 same in absurd (ground (arith, gone))
        | inr distinct ↦ (distinct, granted u refl a)
      ]
