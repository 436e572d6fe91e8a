-- ===== src/Gateway/Inspection.antt =====
-- scanner.py and nemo.py: what a call that passes an inline enforcement point proves.
use apparitor.Prelude.{false, Option, List, ◌≡◌, ◌⊎◌, arith}
use apparitor.Decision.{VerdictResult, allow, skip, is_allowed_inline}
use apparitor.Engine.Base.{Engine, State}
use apparitor.Engine.Entry.{evaluate_tool_calls}
use apparitor.Engine.Skips.{Justified, allow_or_skip-Justified}
use apparitor.Exec.{after-ok}
use apparitor.Gateway.Inline.{
  scan, authorize_tool_calls, outcome, to_scan_result, scan_decision, allowed, ScanResult,
  RailOutcome, or_empty, calls_from,
}
use apparitor.Result.{ok}
use apparitor.Value.{Fields}

scanned :
    (v : VerdictResult)
    → (to_scan_result v).decision ≡ allowed
    → (v.verdict ≡ allow) ⊎ (v.verdict ≡ skip)
unfolding to_scan_result scan_decision
scanned v h = ground arith

railed :
    (v : VerdictResult) → (outcome v).is_blocked ≡ false → (v.verdict ≡ allow) ⊎ (v.verdict ≡ skip)
unfolding outcome is_allowed_inline
railed v h = ground arith

module _ {W : Type 0} (e : Engine W) where
  -- A scan that returns ALLOW: the calls of the message, if there are any, were all recognised and
  -- normalised, and the requests that the mapper made of them are none, or have one of the grounds
  -- of an ALLOW. None at all pass too where there are calls: a mapper that makes no request of a
  -- call lets it through.
  pub scan-Justified :
      (calls : Option (List Fields)) (ctx : Fields) (s : State W) (a : ScanResult)
      → (scan e calls ctx s).0 ≡ ok a
      → a.decision ≡ allowed
      → Justified e (or_empty calls) ctx s
  unfolding scan
  scan-Justified calls ctx s a h q =
      let (v, judged, h₁) = after-ok (evaluate_tool_calls e (or_empty calls) ctx s).0 _ _ h in
      let same : to_scan_result v ≡ a = ground (arith, h₁) in
      allow_or_skip-Justified e (or_empty calls) ctx s v judged (scanned v (rw (← same) at q))

  -- A rail that does not block: the explicit calls, or else those of the rails context, were all
  -- normalised, and the requests that the mapper made of them are none, or have one of the grounds
  -- of an ALLOW.
  pub authorize_tool_calls-Justified :
      (calls context : Option (List Fields)) (ctx : Fields) (s : State W) (b : RailOutcome)
      → (authorize_tool_calls e calls context ctx s).0 ≡ ok b
      → b.is_blocked ≡ false
      → Justified e (calls_from e calls context) ctx s
  unfolding authorize_tool_calls
  authorize_tool_calls-Justified calls context ctx s b h q =
      let raws = calls_from e calls context in
      let (v, judged, h₁) = after-ok (evaluate_tool_calls e raws ctx s).0 _ _ h in
      let same : outcome v ≡ b = ground (arith, h₁) in
      allow_or_skip-Justified e raws ctx s v judged (railed v (rw (← same) at q))
