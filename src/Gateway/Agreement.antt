-- ===== src/Gateway/Agreement.antt =====
-- scanner.py and nemo.py: the two inline enforcement points let the same calls through.
use apparitor.Prelude.{true, false, none, some, List, [], ◌∷◌, ◌≡◌, ◌≢◌, refl, ◌↔◌, arith}
use apparitor.Decision.{
  VerdictStatus, Verdict, VerdictResult, allow, skip, success, error, skipped, is_allowed_inline,
  resolve_error,
}
use apparitor.Engine.Base.{Engine, State, fault_verdict, timed}
use apparitor.Engine.Entry.{
  decide_requests, decide, evaluate_normalized, evaluate_parsed, evaluate_tool_calls, normalize_raw,
}
use apparitor.Engine.Outcomes.{Ends, Ends-ok, judge-Ends}
use apparitor.Engine.Soundness.{timed-ok}
use apparitor.Exec.{Exec, after-ok}
use apparitor.Gateway.Inline.{
  scan, authorize_tool_calls, outcome, to_scan_result, scan_decision, allowed, ScanResult,
  RailOutcome,
}
use apparitor.Models.{EvaluationRequest}
use apparitor.Result.{Result, ok, raise, cancelled, config_error, unparseable, traverse, Exception}
use apparitor.Adapters.{NormalizedToolCall}
use apparitor.Value.{Fields}

-- The verdict and the status of a result do not contradict each other: an error lets nothing pass,
-- and a status of skipped goes with a SKIP.
pub record Coherent (v : VerdictResult) : Type 0 where
  pub on_fault : v.status ≡ error → (v.verdict ≢ allow) × (v.verdict ≢ skip)
  pub on_skip : v.status ≡ skipped → v.verdict ≡ skip

success-Coherent : (v : VerdictResult) → v.status ≡ success → Coherent v
success-Coherent v e = record { on_fault = λ h. absurd (cc); on_skip = λ h. absurd (cc) }

-- A SKIP that is no error.
skip-Coherent : (v : VerdictResult) → v.verdict ≡ skip → v.status ≢ error → Coherent v
skip-Coherent v s n = record { on_fault = λ h. absurd (n h); on_skip = λ h. s }

-- A refusal for an error.
refusal-Coherent :
    (v : VerdictResult) → v.status ≡ error → v.verdict ≢ allow → v.verdict ≢ skip → Coherent v
refusal-Coherent v e a s = record { on_fault = λ h. (a, s); on_skip = λ h. absurd (cc) }

agrees :
    (verdict : Verdict) (status : VerdictStatus)
    → (status ≡ error → (verdict ≢ allow) × (verdict ≢ skip))
    → (scan_decision verdict ≡ allowed)
      ↔ (is_allowed_inline (record { verdict = verdict; reason = ""; status = status }) ≡ true)
unfolding scan_decision is_allowed_inline
agrees allow error h = absurd ((h refl).0 refl)
agrees skip error h = absurd ((h refl).1 refl)
agrees verdict status h = (λ k. ground arith, λ k. ground arith)

module _ {W : Type 0} (e : Engine W) where
  fault-Coherent : (exc : Exception) → Coherent (fault_verdict e exc)
  unfolding fault_verdict resolve_error
  fault-Coherent exc =
      refusal-Coherent (fault_verdict e exc) (ground arith) (λ h. ground arith) (λ h. ground arith)

  decide_requests-Coherent :
      (r : Result (List EvaluationRequest)) (s : State W)
      → Ends (λ p. Coherent p.0) (decide_requests e r s).0
  unfolding decide_requests
  decide_requests-Coherent (ok []) s = skip-Coherent _ refl (λ h. ground (arith, h))
  decide_requests-Coherent (ok (r ∷ rs)) s =
      judge-Ends e Coherent (λ v n. success-Coherent _ refl) (success-Coherent _ refl)
        fault-Coherent (r ∷ rs) s
  decide_requests-Coherent (raise config_error) s =
      refusal-Coherent _ refl (λ h. ground (arith, h)) (λ h. ground (arith, h))
  decide_requests-Coherent (raise exc) s = fault-Coherent exc
  decide_requests-Coherent cancelled s = tt

  timed-Coherent :
      (run : Exec (State W) (VerdictResult × List EvaluationRequest)) (s : State W)
      → Ends (λ p. Coherent p.0) (run s).0
      → (v : VerdictResult) → (timed e run s).0 ≡ ok v
      → Coherent v
  timed-Coherent run s h v judged =
      let (rs, same) = timed-ok e run s v judged in Ends-ok (λ p. Coherent p.0) (run s).0 h same

  evaluate_normalized-Coherent :
      (calls : List NormalizedToolCall) (ctx : Fields) (s : State W) (v : VerdictResult)
      → (evaluate_normalized e calls ctx s).0 ≡ ok v
      → Coherent v
  unfolding evaluate_normalized
  evaluate_normalized-Coherent [] ctx s v h =
      skip-Coherent v (ground (arith, h)) (λ failed. ground (arith, h, failed))
  evaluate_normalized-Coherent (call ∷ calls) ctx s v h =
      timed-Coherent (decide e (call ∷ calls) ctx) s (unfold decide in decide_requests-Coherent _ s)
        v h

  evaluate_parsed-Coherent :
      (r : Result (List NormalizedToolCall)) (ctx : Fields) (s : State W) (v : VerdictResult)
      → (evaluate_parsed e r ctx s).0 ≡ ok v
      → Coherent v
  unfolding evaluate_parsed
  evaluate_parsed-Coherent (ok calls) ctx s v h = evaluate_normalized-Coherent calls ctx s v h
  evaluate_parsed-Coherent (raise unparseable) ctx s v h =
      refusal-Coherent v (ground (arith, h)) (λ a. ground (arith, h, a)) (λ a. ground (arith, h, a))
  evaluate_parsed-Coherent (raise exc) ctx s v h = absurd (ground arith)
  evaluate_parsed-Coherent cancelled ctx s v h = absurd (ground arith)

  pub evaluate_tool_calls-Coherent :
      (raws : List Fields) (ctx : Fields) (s : State W) (v : VerdictResult)
      → (evaluate_tool_calls e raws ctx s).0 ≡ ok v
      → Coherent v
  unfolding evaluate_tool_calls
  evaluate_tool_calls-Coherent [] ctx s v h =
      skip-Coherent v (ground (arith, h)) (λ failed. ground (arith, h, failed))
  evaluate_tool_calls-Coherent (raw ∷ raws) ctx s v h =
      evaluate_parsed-Coherent (traverse (normalize_raw e.runtime) (raw ∷ raws)) ctx s v h

  outcome-agrees :
      (v : VerdictResult)
      → Coherent v
      → ((to_scan_result v).decision ≡ allowed) ↔ ((outcome v).is_blocked ≡ false)
  unfolding to_scan_result outcome is_allowed_inline scan_decision
  outcome-agrees v h =
      let (there, back) = agrees v.verdict v.status h.on_fault in
      (λ k. ground (arith, there k), λ k. back (ground arith))

  -- The two inline enforcement points let the same tool calls through: in the same state, with the
  -- same calls and context, the scan result is an ALLOW exactly if the rail does not block.
  pub inline-agree :
      (raws : List Fields) (ctx : Fields) (s : State W) (a : ScanResult) (b : RailOutcome)
      → (scan e (some raws) ctx s).0 ≡ ok a
      → (authorize_tool_calls e (some raws) none ctx s).0 ≡ ok b
      → ((a.decision ≡ allowed) ↔ (b.is_blocked ≡ false))
  unfolding scan authorize_tool_calls
  inline-agree raws ctx s a b h k =
      let (v, judged, h₁) = after-ok (evaluate_tool_calls e raws ctx s).0 _ _ h in
      let (w, judged', k₁) = after-ok (evaluate_tool_calls e raws ctx s).0 _ _ k in
      let same : w ≡ v = ground (arith, judged, judged') in
      let left : to_scan_result v ≡ a = ground (arith, h₁) in
      let right : outcome v ≡ b = ground (arith, k₁, same) in
      rw (← left, ← right) (outcome-agrees v (evaluate_tool_calls-Coherent raws ctx s v judged))
