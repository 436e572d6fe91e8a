-- ===== src/Engine/QuietEach.antt =====
-- engine.py: telemetry changes no verdict of a listing, and none at all.
use apparitor.Prelude.{
  ℕ, ◌≡◌, refl, Bool, true, false, Option, List, [], ◌∷◌, ap₂, subst, ◌∙◌, length, map, replicate,
  if◌then◌else◌,
}
use apparitor.Adapters.{NormalizedToolCall}
use apparitor.Decision.{VerdictResult, verdict_value, status_value}
use apparitor.Engine.Base.{
  Engine, State, LogRecord, fault_verdict, to_batch, per_item, ask, wants_review,
}
use apparitor.Engine.Each.{
  Group, fill, fill_checked, fill_fault, combine, settle, evaluate_groups, flatten_groups,
  decide_groups, map_groups, map_fault, decide_each, count_each, emit_each, emit_results,
  evaluate_each,
}
use apparitor.Engine.Entry.{
  evaluate_normalized, evaluate_requests, evaluate_tool_calls, evaluate_with_boundary,
}
use apparitor.Engine.Indifference.{ask-Alike, record_cancelled-Same}
use apparitor.Engine.Quiet.{
  Same-trans, Same-sym, evaluate_normalized-Alike, evaluate_requests-Alike,
  evaluate_tool_calls-Alike, evaluate_with_boundary-Alike,
}
use apparitor.Engine.Telemetry.{rewire, LeavesAlone, SeesOnly, Same, Alike, lift-Alike}
use apparitor.Metrics.{MetricsSink}
use apparitor.Models.{Subject, EvaluationRequest}
use apparitor.Result.{Result, ok, raise, cancelled, config_error, ◌>>=◌}
use apparitor.Value.{Fields}

module _ {W C : Type 0} (view : W → C) (e : Engine W) (quiet : LeavesAlone view e) where
  counted :
      (recorded : Bool) (vs : List VerdictResult) (latency : ℕ) (w : W)
      → ((w : W) → view (count_each e vs latency w).1 ≡ view w)
      → view
          (elim recorded as (λ b. Bool × W) [
            | true ↦ count_each e vs latency w
            | false ↦ (false, w)
          ]).1
        ≡ view w
  counted true vs latency w h = h w
  counted false vs latency w h = refl

  count_each-view :
      (vs : List VerdictResult) (latency : ℕ) (w : W) → view (count_each e vs latency w).1 ≡ view w
  unfolding count_each
  count_each-view [] latency w = refl
  count_each-view (v ∷ vs) latency w =
      let verdict = verdict_value v.verdict in
      let status = status_value v.status in
      counted (e.metrics.record_decision verdict status latency w).0 vs latency _
        (count_each-view vs latency)
      ∙ quiet.counts verdict status latency w

  logged_each :
      (recorded : Bool) (vs : List VerdictResult) (latency : ℕ) (w : W)
      → view (if recorded then (e.log (per_item (map (λ r. r.verdict) vs) latency) w).1 else w)
        ≡ view w
  logged_each true vs latency w = quiet.logs _ w
  logged_each false vs latency w = refl

  emit_each-Same :
      (vs : List VerdictResult) (latency : ℕ) (s : State W) → Same view (emit_each e vs latency s) s
  unfolding emit_each
  emit_each-Same vs latency s = record {
    cache = refl;
    world = logged_each _ vs latency _ ∙ count_each-view vs latency s.world;
  }

  emit_results-Same :
      (started : ℕ) (r : Result (List VerdictResult)) (s : State W)
      → Same view (emit_results e started r s) s
  emit_results-Same started (ok vs) s = emit_each-Same vs _ s
  emit_results-Same started (raise exc) s = record { cache = refl; world = refl }
  emit_results-Same started cancelled s = record { cache = refl; world = refl }

module _ {W C : Type 0} (view : W → C) (e : Engine W) (metrics : MetricsSink W)
    (log : LogRecord → W → Bool × W) (perf_counter : W → ℕ) (sees : SeesOnly view e)
    (quiet : LeavesAlone view e)
    (quiet' : LeavesAlone view (rewire e metrics log perf_counter)) where
  abbrev e' : Engine W
  e' = rewire e metrics log perf_counter

  fill_checked-rewire : fill_checked e ≡ fill_checked e'
  unfolding fill_checked fill combine wants_review
  fill_checked-rewire = refl

  settle-Alike :
      (gs : List (ℕ × Group)) (results : List VerdictResult) (r : Result (List VerdictResult))
      → Alike view (settle e gs results r) (settle e' gs results r)
  unfolding fault_verdict fill_fault
  settle-Alike gs results (ok filled) = lift-Alike view (ok filled)
  settle-Alike gs results (raise exc) =
      lift-Alike view (ok (fill_fault e gs (fault_verdict e exc) results))
  settle-Alike gs results cancelled = λ s s' same.
      (refl, record_cancelled-Same view e metrics log perf_counter sees quiet quiet' s s' same)

  evaluate_groups-Alike :
      (gs : List (ℕ × Group)) (results : List VerdictResult)
      → Alike view (evaluate_groups e gs results) (evaluate_groups e' gs results)
  unfolding evaluate_groups
  evaluate_groups-Alike [] results s s' same = (refl, same)
  evaluate_groups-Alike (g ∷ gs) results s s' same =
      let batch = to_batch (flatten_groups (g ∷ gs)) in
      let (answer, kept) =
        ask-Alike view e metrics log perf_counter sees quiet quiet' (e.client.evaluate_batch batch)
          (sees.evaluates_batch batch) s s' same in
      let (r, t) = ask e (e.client.evaluate_batch batch) s in
      let (r', t') = ask e' (e.client.evaluate_batch batch) s' in
      subst
        (λ q.
          ((settle e (g ∷ gs) results (r >>= fill_checked e (g ∷ gs) results) t).0
            ≡ (settle e' (g ∷ gs) results q t').0)
          × Same view (settle e (g ∷ gs) results (r >>= fill_checked e (g ∷ gs) results) t).1
              (settle e' (g ∷ gs) results q t').1)
        (ap₂ (λ x fill. x >>= fill (g ∷ gs) results) answer fill_checked-rewire)
        (settle-Alike (g ∷ gs) results (r >>= fill_checked e (g ∷ gs) results) t t' kept)

  decide_groups-Alike :
      (n : ℕ) (r : Result (List Group)) → Alike view (decide_groups e n r) (decide_groups e' n r)
  unfolding decide_groups fault_verdict
  decide_groups-Alike n (ok groups) = evaluate_groups-Alike _ _
  decide_groups-Alike n (raise config_error) = lift-Alike view _
  decide_groups-Alike n (raise exc) = lift-Alike view (ok (replicate n (map_fault e exc)))
  decide_groups-Alike n cancelled = lift-Alike view cancelled

  decide_each-Alike :
      (calls : List NormalizedToolCall) (ctx : Fields)
      → Alike view (decide_each e calls ctx) (decide_each e' calls ctx)
  unfolding decide_each
  decide_each-Alike calls ctx s s' same =
      let n = length calls in
      subst
        (λ m.
          ((decide_each e calls ctx s).0 ≡ (decide_groups e' n (map_groups m calls ctx) s').0)
          × Same view (decide_each e calls ctx s).1
              (decide_groups e' n (map_groups m calls ctx) s').1)
        (sees.maps s.world s'.world same.world)
        (decide_groups-Alike n (map_groups (e.mapper s.world) calls ctx) s s' same)

  evaluate_each-Alike :
      (calls : List NormalizedToolCall) (ctx : Fields)
      → Alike view (evaluate_each e calls ctx) (evaluate_each e' calls ctx)
  unfolding evaluate_each
  evaluate_each-Alike [] ctx s s' same = (refl, same)
  evaluate_each-Alike (call ∷ calls) ctx s s' same =
      let (r, kept) = decide_each-Alike (call ∷ calls) ctx s s' same in
      (
        r,
        Same-trans (emit_results-Same view e quiet _ _ _)
            (Same-trans kept (Same-sym (emit_results-Same view e' quiet' _ _ _))),
      )

  -- Telemetry changes no verdict. Two engines that differ only in their sink, their logger and the
  -- clock of the latencies, from the same cache and from worlds that look the same to the decision
  -- service, the mapper and the cache's clock, end alike at every entry point: with the same verdicts,
  -- exception or cancellation, the same cache, and worlds that look the same. The sinks and the loggers
  -- may change all of the world but this look of it. The sinks may raise, and so may the loggers of
  -- decisions, except that neither raises on the record that names the denied legs of a batch; the
  -- operator's warnings are taken to be logged without an exception and without effect.
  pub quiet-Alike :
      ((raws : List Fields) (ctx : Fields)
        → Alike view (evaluate_tool_calls e raws ctx) (evaluate_tool_calls e' raws ctx))
      × ((calls : List NormalizedToolCall) (ctx : Fields)
          → Alike view (evaluate_normalized e calls ctx) (evaluate_normalized e' calls ctx))
      × ((rs : List EvaluationRequest)
          → Alike view (evaluate_requests e rs) (evaluate_requests e' rs))
      × ((r : EvaluationRequest) (boundary : Option Subject)
          → Alike view (evaluate_with_boundary e r boundary) (evaluate_with_boundary e' r boundary))
      × ((calls : List NormalizedToolCall) (ctx : Fields)
          → Alike view (evaluate_each e calls ctx) (evaluate_each e' calls ctx))
  quiet-Alike = (
    evaluate_tool_calls-Alike view e metrics log perf_counter sees quiet quiet',
    evaluate_normalized-Alike view e metrics log perf_counter sees quiet quiet',
    evaluate_requests-Alike view e metrics log perf_counter sees quiet quiet',
    evaluate_with_boundary-Alike view e metrics log perf_counter sees quiet quiet',
    evaluate_each-Alike,
  )
