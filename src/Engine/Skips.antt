-- ===== src/Engine/Skips.antt =====
-- engine.py: when a verdict is SKIP, and what an ALLOW or a SKIP proves together.
use apparitor.Prelude.{List, [], ◌∷◌, ◌≡◌, ◌≢◌, refl, ◌⊎◌, inl, inr, arith}
use apparitor.Adapters.{NormalizedToolCall}
use apparitor.Decision.{VerdictResult, allow, skip, resolve_error}
use apparitor.Engine.Base.{Engine, State, fault_verdict}
use apparitor.Engine.EndToEnd.{Recognised, traverse-Recognised, evaluate_tool_calls-Granted}
use apparitor.Engine.Entry.{
  build_requests, decide, decide_requests, evaluate_normalized, evaluate_parsed,
  evaluate_tool_calls, normalize_raw,
}
use apparitor.Engine.Outcomes.{Ends-ok, judge-Ends}
use apparitor.Engine.Soundness.{Granted, timed-ok}
use apparitor.Models.{EvaluationRequest}
use apparitor.Result.{Exception, Result, ok, raise, cancelled, config_error, unparseable, traverse}
use apparitor.Value.{Fields}

abbrev NotSkip : VerdictResult → Type 0
NotSkip v = v.verdict ≢ skip

module _ {W : Type 0} (e : Engine W) where
  fault-NotSkip : (exc : Exception) → NotSkip (fault_verdict e exc)
  unfolding fault_verdict resolve_error
  fault-NotSkip exc h = ground arith

  decide_requests-skip :
      (r : Result (List EvaluationRequest)) (s : State W) (v : VerdictResult)
      (rs : List EvaluationRequest)
      → (decide_requests e r s).0 ≡ ok (v, rs)
      → v.verdict ≡ skip
      → r ≡ ok []
  unfolding decide_requests
  decide_requests-skip (ok []) s v rs h q = refl
  decide_requests-skip (ok (r ∷ more)) s v rs h q = absurd (
      Ends-ok (λ p. NotSkip p.0) _
        (judge-Ends e NotSkip (λ u n. n) (λ k. ground (arith, k)) fault-NotSkip (r ∷ more) s) h q)
  decide_requests-skip (raise config_error) s v rs h q = absurd (ground arith)
  decide_requests-skip (raise exc) s v rs h q =
      let same : fault_verdict e exc ≡ v = ground (arith, h) in
      absurd (fault-NotSkip exc (rw (← same) at q))
  decide_requests-skip cancelled s v rs h q = absurd (ground (arith, h))

  evaluate_normalized-skip :
      (calls : List NormalizedToolCall) (ctx : Fields) (s : State W) (v : VerdictResult)
      → (evaluate_normalized e calls ctx s).0 ≡ ok v
      → v.verdict ≡ skip
      → build_requests (e.mapper s.world) calls ctx ≡ ok []
  unfolding evaluate_normalized
  evaluate_normalized-skip [] ctx s v h q = unfold build_requests in refl
  evaluate_normalized-skip (call ∷ calls) ctx s v h q =
      let (rs, decided) = timed-ok e (decide e (call ∷ calls) ctx) s v h in
      decide_requests-skip _ s v rs (unfold decide in decided) q

  evaluate_parsed-skip :
      (r : Result (List NormalizedToolCall)) (ctx : Fields) (s : State W) (v : VerdictResult)
      → (evaluate_parsed e r ctx s).0 ≡ ok v
      → v.verdict ≡ skip
      → (calls : List NormalizedToolCall) × (r ≡ ok calls)
        × (build_requests (e.mapper s.world) calls ctx ≡ ok [])
  unfolding evaluate_parsed
  evaluate_parsed-skip (ok calls) ctx s v h q =
      (calls, refl, evaluate_normalized-skip calls ctx s v h q)
  evaluate_parsed-skip (raise unparseable) ctx s v h q = absurd (ground arith)
  evaluate_parsed-skip (raise exc) ctx s v h q = absurd (ground arith)
  evaluate_parsed-skip cancelled ctx s v h q = absurd (ground arith)

  -- A SKIP for raw tool calls: every one of them was recognised and normalised, if there are any, and
  -- the mapper made no request of any.
  pub evaluate_tool_calls-skip :
      (raws : List Fields) (ctx : Fields) (s : State W) (v : VerdictResult)
      → (evaluate_tool_calls e raws ctx s).0 ≡ ok v
      → v.verdict ≡ skip
      → (calls : List NormalizedToolCall) × (traverse (normalize_raw e.runtime) raws ≡ ok calls)
        × (build_requests (e.mapper s.world) calls ctx ≡ ok [])
  unfolding evaluate_tool_calls traverse build_requests
  evaluate_tool_calls-skip [] ctx s v h q = ([], refl, refl)
  evaluate_tool_calls-skip (raw ∷ raws) ctx s v h q =
      evaluate_parsed-skip (traverse (normalize_raw e.runtime) (raw ∷ raws)) ctx s v h q

  -- What lets raw tool calls pass: all of them were recognised and normalised, and the requests that
  -- the mapper made of them are none, or have one of the grounds of an ALLOW.
  abbrev pub Justified : List Fields → Fields → State W → Type 0
  Justified raws ctx s =
      (calls : List NormalizedToolCall) × (requests : List EvaluationRequest) × Recognised e.runtime
        raws calls
      × (traverse (normalize_raw e.runtime) raws ≡ ok calls)
      × (build_requests (e.mapper s.world) calls ctx ≡ ok requests)
      × ((requests ≡ []) ⊎ Granted e requests s)

  pub allow_or_skip-Justified :
      (raws : List Fields) (ctx : Fields) (s : State W) (v : VerdictResult)
      → (evaluate_tool_calls e raws ctx s).0 ≡ ok v
      → (v.verdict ≡ allow) ⊎ (v.verdict ≡ skip)
      → Justified raws ctx s
  allow_or_skip-Justified raws ctx s v h (inl a) =
      let (calls, requests, known, parsed, built, some_request, granted) =
        evaluate_tool_calls-Granted e raws ctx s v h a in
      (calls, requests, known, parsed, built, inr granted)
  allow_or_skip-Justified raws ctx s v h (inr q) =
      let (calls, parsed, built) = evaluate_tool_calls-skip raws ctx s v h q in
      (calls, [], traverse-Recognised e.runtime raws calls parsed, parsed, built, inl refl)
