-- ===== src/Engine/Each.antt =====
-- engine.py: `evaluate_each`, one verdict for each call of a listing.
use apparitor.Prelude.{
  ℕ, suc, ◌-◌, Bool, true, false, none, List, [], ◌∷◌, ◌++◌, map, not, eqb, length, replicate, set,
  if◌then◌else◌,
}
use apparitor.Adapters.{NormalizedToolCall}
use apparitor.Decision.{
  Verdict, VerdictResult, allow, block, error, escalate, map_single, verdict_value, status_value,
}
use apparitor.Engine.Base.{
  Engine, State, per_item, block_result, clean, as_requests, to_batch, fault_verdict, wants_review,
  record_cancelled, ask, set_world,
}
use apparitor.Exec.{Exec, pure, lift}
use apparitor.Mapping.{ToolCallMapper}
use apparitor.Models.{EvaluationRequest, EvaluationResponse, BatchEvaluationResponse}
use apparitor.Result.{
  Exception, Result, ok, raise, cancelled, config_error, client_error, unexpected, raise_if, ◌>>=◌,
  ◌>>◌,
}
use apparitor.Value.{Fields}

abbrev pub Group : Type 0
Group = List EvaluationRequest

abbrev pub abstained : VerdictResult
abstained = record { verdict = block; reason = "mapper abstained (fail closed)"; status = error }

-- `[_as_requests(mapper.map(call, ctx)) for call in calls]`
unfoldable pub map_groups : ToolCallMapper → List NormalizedToolCall → Fields → Result (List Group)
unfolding as_requests
map_groups mapper [] ctx = ok []
map_groups mapper (call ∷ calls) ctx =
    let rest = map_groups mapper calls ctx in
    (mapper call ctx >>= λ m. rest >>= λ gs. ok (as_requests m ∷ gs))

-- `[(i, group) for i, group in enumerate(mapped) if group]`, from the index `i`.
unfoldable pub index_groups : ℕ → List Group → List (ℕ × Group)
index_groups i [] = []
index_groups i ([] ∷ gs) = index_groups (suc i) gs
index_groups i ((r ∷ rs) ∷ gs) = (i, r ∷ rs) ∷ index_groups (suc i) gs

unfoldable pub flatten_groups : List (ℕ × Group) → List EvaluationRequest
flatten_groups [] = []
flatten_groups ((i, g) ∷ gs) = g ++ flatten_groups gs

module _ {W : Type 0} (e : Engine W) where
  -- The verdict of one group, and the items behind it; `next` on no item raises.
  unfoldable pub combine :
      Group → List EvaluationResponse → Verdict → Result (Verdict × List EvaluationResponse)
  unfolding map_single escalate wants_review
  combine [] items combined = ok (combined, items)
  combine (r ∷ rs) [] combined = raise unexpected
  combine (r ∷ rs) (item ∷ items) combined = do
    review ← wants_review e item.context
    combine rs items (escalate combined (map_single item.decision review))

  -- The loop over `indexed`, which writes each verdict at its position.
  unfoldable pub fill :
      List (ℕ × Group) → List EvaluationResponse → List VerdictResult → Result (List VerdictResult)
  unfolding combine
  fill [] items results = ok results
  fill ((i, g) ∷ gs) items results = do
    (combined, rest) ← combine g items allow
    fill gs rest (set results i (clean combined))

  -- `for i, _ in indexed: results[i] = verdict`. It writes every position that the loop above may
  -- have written before it raised.
  unfoldable pub fill_fault :
      List (ℕ × Group) → VerdictResult → List VerdictResult → List VerdictResult
  fill_fault [] verdict results = results
  fill_fault ((i, g) ∷ gs) verdict results = fill_fault gs verdict (set results i verdict)

  unfoldable pub fill_checked :
      List (ℕ × Group) → List VerdictResult → BatchEvaluationResponse → Result (List VerdictResult)
  unfolding fill flatten_groups
  fill_checked indexed results response = do
    raise_if (not (eqb (length response.evaluations) (length (flatten_groups indexed))))
        (client_error none)
    fill indexed response.evaluations results

  abbrev pub settle :
      List (ℕ × Group)
      → List VerdictResult
      → Result (List VerdictResult)
      → Exec (State W) (List VerdictResult)
  settle indexed results (ok filled) s = (ok filled, s)
  settle indexed results (raise exc) s = (ok (fill_fault indexed (fault_verdict e exc) results), s)
  settle indexed results cancelled s = (cancelled, record_cancelled e s)

  unfoldable pub evaluate_groups :
      List (ℕ × Group) → List VerdictResult → Exec (State W) (List VerdictResult)
  unfolding ask fill_checked fill_fault fault_verdict record_cancelled to_batch
  evaluate_groups [] results s = (ok results, s)
  evaluate_groups (g ∷ gs) results s =
      let (response, s') = ask e (e.client.evaluate_batch (to_batch (flatten_groups (g ∷ gs)))) s in
      settle (g ∷ gs) results (response >>= fill_checked (g ∷ gs) results) s'

  -- A mapper fault blocks every item.
  abbrev pub map_fault : Exception → VerdictResult
  map_fault config_error = block_result
  map_fault exc = fault_verdict e exc

  unfoldable pub decide_groups : ℕ → Result (List Group) → Exec (State W) (List VerdictResult)
  unfolding evaluate_groups index_groups fault_verdict
  decide_groups n (ok groups) = evaluate_groups (index_groups 0 groups) (replicate n abstained)
  decide_groups n (raise exc) = pure (replicate n (map_fault exc))
  decide_groups n cancelled = lift cancelled

  unfoldable pub decide_each :
      List NormalizedToolCall → Fields → Exec (State W) (List VerdictResult)
  unfolding decide_groups map_groups
  decide_each calls ctx s = decide_groups (length calls) (map_groups (e.mapper s.world) calls ctx) s

  -- One counter for each item; the first call that raises ends the block.
  unfoldable pub count_each : List VerdictResult → ℕ → W → Bool × W
  count_each [] latency w = (true, w)
  count_each (v ∷ vs) latency w =
      let (recorded, w') =
        e.metrics.record_decision (verdict_value v.verdict) (status_value v.status) latency w in
      elim recorded [ true ↦ count_each vs latency w' | false ↦ (false, w') ]

  unfoldable pub emit_each : List VerdictResult → ℕ → State W → State W
  unfolding count_each
  emit_each results latency s =
      let (recorded, w) = count_each results latency s.world in
      set_world e
        (if recorded then (e.log (per_item (map (λ r. r.verdict) results) latency) w).1 else w) s

  abbrev pub emit_results : ℕ → Result (List VerdictResult) → State W → State W
  emit_results started (ok results) s = emit_each results (e.perf_counter s.world - started) s
  emit_results started r s = s

  unfoldable pub evaluate_each :
      List NormalizedToolCall → Fields → Exec (State W) (List VerdictResult)
  unfolding decide_each emit_each
  evaluate_each [] ctx s = (ok [], s)
  evaluate_each (call ∷ calls) ctx s =
      let (r, s') = decide_each (call ∷ calls) ctx s in
      (r, emit_results (e.perf_counter s.world) r s')
