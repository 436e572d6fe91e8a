-- ===== src/Engine/Quiet.antt =====
-- engine.py: telemetry changes no verdict, at any of the entry points.
use apparitor.Prelude.{
  ℕ, ◌≡◌, refl, Bool, true, false, Option, none, some, List, [], ◌∷◌, sym, subst, ◌∙◌,
  if◌then◌else◌,
}
use apparitor.Adapters.{NormalizedToolCall}
use apparitor.Decision.{VerdictResult, verdict_value, status_value}
use apparitor.Engine.Base.{
  Engine, State, LogRecord, emit, log_if_any, log_decision, timed, fault_verdict, skip_result,
  block_result,
}
use apparitor.Engine.Entry.{
  judge, decide_requests, decide, evaluate_normalized, evaluate_requests, evaluate_parsed,
  evaluate_tool_calls, evaluate_legs, evaluate_with_boundary, build_requests,
}
use apparitor.Engine.Indifference.{evaluate_guarded-Alike}
use apparitor.Engine.Telemetry.{rewire, LeavesAlone, SeesOnly, Same, Alike, lift-Alike, >>=-Alike}
use apparitor.Exec.{Exec}
use apparitor.Metrics.{MetricsSink}
use apparitor.Models.{Subject, EvaluationRequest}
use apparitor.Result.{Result, ok, raise, cancelled, config_error, unparseable}
use apparitor.Value.{Fields}

-- An engine whose sink and logger leave the view alone.
module _ {W C : Type 0} (view : W → C) (e : Engine W) (quiet : LeavesAlone view e) where
  logged :
      (v : VerdictResult) (rs : List EvaluationRequest) (latency : ℕ) (w : W)
      → view (log_if_any e v rs latency w) ≡ view w
  unfolding log_decision
  logged v [] latency w = refl
  logged v (r ∷ rs) latency w = quiet.logs _ w

  logged_if :
      (recorded : Bool) (v : VerdictResult) (rs : List EvaluationRequest) (latency : ℕ) (w : W)
      → view (if recorded then log_if_any e v rs latency w else w) ≡ view w
  logged_if true v rs latency w = logged v rs latency w
  logged_if false v rs latency w = refl

  emit-Same :
      (v : VerdictResult) (rs : List EvaluationRequest) (latency : ℕ) (s : State W)
      → Same view (emit e v rs latency s) s
  unfolding emit
  emit-Same v rs latency s = record {
    cache = refl;
    world =
        logged_if _ v rs latency _
        ∙ quiet.counts (verdict_value v.verdict) (status_value v.status) latency s.world;
  }

pub Same-trans :
    {W C : Type 0} {view : W → C} {a b c : State W} → Same view a b → Same view b c → Same view a c
Same-trans p q = record { cache = p.cache ∙ q.cache; world = p.world ∙ q.world }

pub Same-sym : {W C : Type 0} {view : W → C} {a b : State W} → Same view a b → Same view b a
Same-sym p = record { cache = sym p.cache; world = sym p.world }

module _ {W C : Type 0} (view : W → C) (e : Engine W) (metrics : MetricsSink W)
    (log : LogRecord → W → Bool × W) (perf_counter : W → ℕ) (sees : SeesOnly view e)
    (quiet : LeavesAlone view e)
    (quiet' : LeavesAlone view (rewire e metrics log perf_counter)) where
  abbrev e' : Engine W
  e' = rewire e metrics log perf_counter

  emits-Same :
      (v : VerdictResult) (rs : List EvaluationRequest) (t t' : ℕ) (s s' : State W)
      → Same view s s'
      → Same view (emit e v rs t s) (emit e' v rs t' s')
  emits-Same v rs t t' s s' same =
      Same-trans (emit-Same view e quiet v rs t s)
        (Same-trans same (Same-sym (emit-Same view e' quiet' v rs t' s')))

  timed-Alike :
      {run run' : Exec (State W) (VerdictResult × List EvaluationRequest)}
      → Alike view run run'
      → Alike view (timed e run) (timed e' run')
  timed-Alike h s s' same =
      >>=-Alike view h (λ p t t' kept. (refl, emits-Same p.0 p.1 _ _ t t' kept)) s s' same

  judge-Alike : (rs : List EvaluationRequest) → Alike view (judge e rs) (judge e' rs)
  unfolding judge
  judge-Alike rs =
      >>=-Alike view (evaluate_guarded-Alike view e metrics log perf_counter sees quiet quiet' rs)
        (λ v. lift-Alike view (ok (v, rs)))

  decide_requests-Alike :
      (r : Result (List EvaluationRequest))
      → Alike view (decide_requests e r) (decide_requests e' r)
  unfolding decide_requests fault_verdict
  decide_requests-Alike (ok []) = lift-Alike view (ok (skip_result, []))
  decide_requests-Alike (ok (r ∷ rs)) = judge-Alike (r ∷ rs)
  decide_requests-Alike (raise config_error) = lift-Alike view (ok (block_result, []))
  decide_requests-Alike (raise exc) = lift-Alike view (ok (fault_verdict e exc, []))
  decide_requests-Alike cancelled = lift-Alike view cancelled

  decide-Alike :
      (calls : List NormalizedToolCall) (ctx : Fields)
      → Alike view (decide e calls ctx) (decide e' calls ctx)
  unfolding decide
  decide-Alike calls ctx s s' same =
      subst
        (λ m.
          ((decide e calls ctx s).0 ≡ (decide_requests e' (build_requests m calls ctx) s').0)
          × Same view (decide e calls ctx s).1
              (decide_requests e' (build_requests m calls ctx) s').1)
        (sees.maps s.world s'.world same.world)
        (decide_requests-Alike (build_requests (e.mapper s.world) calls ctx) s s' same)

  pub evaluate_normalized-Alike :
      (calls : List NormalizedToolCall) (ctx : Fields)
      → Alike view (evaluate_normalized e calls ctx) (evaluate_normalized e' calls ctx)
  unfolding evaluate_normalized
  evaluate_normalized-Alike [] ctx = lift-Alike view (ok skip_result)
  evaluate_normalized-Alike (call ∷ calls) ctx = timed-Alike (decide-Alike (call ∷ calls) ctx)

  pub evaluate_requests-Alike :
      (rs : List EvaluationRequest) → Alike view (evaluate_requests e rs) (evaluate_requests e' rs)
  unfolding evaluate_requests
  evaluate_requests-Alike [] = lift-Alike view (ok skip_result)
  evaluate_requests-Alike (r ∷ rs) = timed-Alike (judge-Alike (r ∷ rs))

  evaluate_parsed-Alike :
      (r : Result (List NormalizedToolCall)) (ctx : Fields)
      → Alike view (evaluate_parsed e r ctx) (evaluate_parsed e' r ctx)
  unfolding evaluate_parsed
  evaluate_parsed-Alike (ok calls) ctx = evaluate_normalized-Alike calls ctx
  evaluate_parsed-Alike (raise unparseable) ctx =
      λ s s' same. (refl, emits-Same block_result [] 0 0 s s' same)
  evaluate_parsed-Alike (raise exc) ctx = lift-Alike view (raise exc)
  evaluate_parsed-Alike cancelled ctx = lift-Alike view cancelled

  pub evaluate_tool_calls-Alike :
      (raws : List Fields) (ctx : Fields)
      → Alike view (evaluate_tool_calls e raws ctx) (evaluate_tool_calls e' raws ctx)
  unfolding evaluate_tool_calls
  evaluate_tool_calls-Alike [] ctx = lift-Alike view (ok skip_result)
  evaluate_tool_calls-Alike (raw ∷ raws) ctx = evaluate_parsed-Alike _ ctx

  evaluate_legs-Alike :
      (r : EvaluationRequest) (leg : Result EvaluationRequest)
      → Alike view (evaluate_legs e r leg) (evaluate_legs e' r leg)
  unfolding evaluate_legs
  evaluate_legs-Alike r (ok leg) =
      >>=-Alike view (evaluate_requests-Alike (r ∷ leg ∷ [])) (λ v. lift-Alike view (ok (some v)))
  evaluate_legs-Alike r (raise config_error) = lift-Alike view (ok none)
  evaluate_legs-Alike r (raise exc) = lift-Alike view (raise exc)
  evaluate_legs-Alike r cancelled = lift-Alike view cancelled

  pub evaluate_with_boundary-Alike :
      (r : EvaluationRequest) (boundary : Option Subject)
      → Alike view (evaluate_with_boundary e r boundary) (evaluate_with_boundary e' r boundary)
  unfolding evaluate_with_boundary
  evaluate_with_boundary-Alike r none =
      >>=-Alike view (evaluate_requests-Alike (r ∷ [])) (λ v. lift-Alike view (ok (some v)))
  evaluate_with_boundary-Alike r (some boundary) = evaluate_legs-Alike r _
