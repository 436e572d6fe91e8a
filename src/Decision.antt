-- ===== src/Decision.antt =====
-- decision.py: the verdict vocabulary, and how decisions and errors become a verdict.
pub mod Lattice
pub mod Outcomes
pub mod Gateway
use apparitor.Prelude.{
  ℕ, String, ◌≡◌, refl, Bool, true, false, not, ◌&&◌, ◌||◌, Option, none, some, List, length, all,
  ◌==◌, leb, eqb, if◌then◌else◌,
}
use apparitor.Config.{OnError, ScannerConfig, deny}
use apparitor.Metrics.{MetricsSink}
use apparitor.Models.{Subject}
use apparitor.Result.{Result, ok, config_error, raise_if, ◌>>=◌, ◌>>◌}

pub data Verdict : Type 0 where
  allow human_review block skip : Verdict

pub data VerdictStatus : Type 0 where
  success error skipped : VerdictStatus

-- The values of the two enumerations.
abbrev pub verdict_value : Verdict → String
verdict_value allow = "allow"
verdict_value human_review = "human_review"
verdict_value block = "block"
verdict_value skip = "skip"

abbrev pub status_value : VerdictStatus → String
status_value success = "success"
status_value error = "error"
status_value skipped = "skipped"

-- `_SEVERITY`, one higher so that it is a natural number: only its order is used.
unfoldable pub severity : Verdict → ℕ
severity skip = 0
severity allow = 1
severity human_review = 2
severity block = 3

-- `_SCORE`, in halves.
unfoldable pub score_halves : Verdict → ℕ
score_halves skip = 0
score_halves allow = 0
score_halves human_review = 1
score_halves block = 2

pub record VerdictResult : Type 0 where
  pub verdict : Verdict
  pub reason : String
  pub status : VerdictStatus

abbrev pub score : VerdictResult → ℕ
score v = score_halves v.verdict

unfoldable pub escalate : Verdict → Verdict → Verdict
unfolding severity
escalate base target = if leb (severity target) (severity base) then base else target

unfoldable pub map_single : Bool → Bool → Verdict
unfolding escalate
map_single base_decision wants_review =
    let base : Verdict = if base_decision then allow else block in
    if wants_review then escalate base human_review else base

unfoldable pub aggregate : List Bool → ℕ → Verdict
aggregate decisions expected =
    if not (eqb (length decisions) expected) || not (all decisions) then block else allow

unfoldable pub resolve_error : OnError → String → VerdictResult
resolve_error deny reason = record { verdict = block; reason = reason; status = error }
resolve_error on_error reason = record { verdict = human_review; reason = reason; status = error }

abbrev is_error : VerdictStatus → Bool
is_error error = true
is_error _ = false

abbrev is_allow : Verdict → Bool
is_allow allow = true
is_allow _ = false

abbrev is_skip : Verdict → Bool
is_skip skip = true
is_skip _ = false

abbrev is_human_review : Verdict → Bool
is_human_review human_review = true
is_human_review _ = false

unfoldable pub is_allowed_inline : VerdictResult → Bool
is_allowed_inline v = not (is_error v.status) && (is_allow v.verdict || is_skip v.verdict)

unfoldable pub is_allowed_gateway : VerdictResult → Bool
is_allowed_gateway v = not (is_error v.status) && is_allow v.verdict
