-- ===== src/Gateway/Inline.antt =====
-- scanner.py and nemo.py: the enforcement points that run inside a framework.
use apparitor.Prelude.{ℕ, String, Bool, Option, none, some, List, [], if◌then◌else◌}
use apparitor.Decision.{
  Verdict, VerdictStatus, VerdictResult, allow, human_review, block, skip, score, is_allowed_inline,
  verdict_value, status_value,
}
use apparitor.Engine.Base.{Engine, State}
use apparitor.Engine.Entry.{evaluate_tool_calls}
use apparitor.Exec.{Exec, pure, ◌>>=◌}
use apparitor.Value.{Fields}

-- The types of the scanner's framework that the two tables of scanner.py name.
pub data ScanDecision : Type 0 where
  allowed human_in_the_loop_required blocked : ScanDecision

pub data ScanStatus : Type 0 where
  scan_success scan_error scan_skipped : ScanStatus

pub record ScanResult : Type 0 where
  pub decision : ScanDecision
  pub reason : String
  pub score : ℕ
  pub status : ScanStatus

-- `_DECISION`
unfoldable pub scan_decision : Verdict → ScanDecision
scan_decision allow = allowed
scan_decision skip = allowed
scan_decision human_review = human_in_the_loop_required
scan_decision block = blocked

-- `_STATUS`
unfoldable pub scan_status : VerdictStatus → ScanStatus
scan_status VerdictStatus.success = scan_success
scan_status VerdictStatus.error = scan_error
scan_status VerdictStatus.skipped = scan_skipped

unfoldable pub to_scan_result : VerdictResult → ScanResult
unfolding scan_decision scan_status
to_scan_result v = record {
  decision = scan_decision v.verdict;
  reason = v.reason;
  score = score v;
  status = scan_status v.status;
}

-- `RailOutcome`: whether it blocks, its reason and its metadata.
pub record RailOutcome : Type 0 where
  pub is_blocked : Bool
  pub reason : String
  pub verdict : String
  pub status : String
  pub score : ℕ

unfoldable pub outcome : VerdictResult → RailOutcome
unfolding is_allowed_inline
outcome v = record {
  is_blocked = if is_allowed_inline v then Bool.false else Bool.true;
  reason = v.reason;
  verdict = verdict_value v.verdict;
  status = status_value v.status;
  score = score v;
}

abbrev pub or_empty : Option (List Fields) → List Fields
or_empty none = []
or_empty (some calls) = calls

module _ {W : Type 0} (e : Engine W) where
  -- `scan`, at the calls of the message and the context variable.
  unfoldable pub scan : Option (List Fields) → Fields → Exec (State W) ScanResult
  unfolding evaluate_tool_calls to_scan_result
  scan calls ctx = evaluate_tool_calls e (or_empty calls) ctx >>= λ v. pure (to_scan_result v)

  -- The explicit calls, or those of the rails context.
  abbrev pub calls_from : Option (List Fields) → Option (List Fields) → List Fields
  calls_from (some calls) context = calls
  calls_from none context = or_empty context

  unfoldable pub authorize_tool_calls :
      Option (List Fields) → Option (List Fields) → Fields → Exec (State W) RailOutcome
  unfolding evaluate_tool_calls outcome
  authorize_tool_calls calls context ctx =
      evaluate_tool_calls e (calls_from calls context) ctx >>= λ v. pure (outcome v)
