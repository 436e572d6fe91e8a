-- ===== src/Decision/Gateway.antt =====
-- decision.py: the helpers that the enforcement points share.
use apparitor.Prelude.{String, Bool, true, false, ◌&&◌, ◌||◌, Option, none, some, ◌==◌, concat}
use apparitor.Config.{ScannerConfig}
use apparitor.Decision.{VerdictResult, is_human_review}
use apparitor.Metrics.{MetricsSink}
use apparitor.Models.{Subject}
use apparitor.Result.{Result, ok, config_error, raise_if, ◌>>◌}

abbrev wants_human : Option VerdictResult → Bool
wants_human none = false
wants_human (some v) = is_human_review v.verdict

unfoldable pub refusal_message : String → Option VerdictResult → String
refusal_message noun verdict = elim (wants_human verdict) [
  | true ↦ concat noun " requires human approval; do not retry"
  | false ↦ concat noun " not authorized"
]

-- `true` says that the warning about the unused ALLOW cache was logged.
abbrev pub check_boundary : Bool → Option Subject → Result Bool
check_boundary cache_enabled none = ok false
check_boundary cache_enabled (some s) = do
  raise_if (s.type == "workload") config_error
  ok cache_enabled

unfoldable pub validate_gateway_subject_config :
    ScannerConfig → String → Bool → Option Subject → Result Bool
validate_gateway_subject_config config subject_type allow_static_subject boundary_subject = do
  raise_if
      (subject_type == "workload" || (allow_static_subject && config.subject_type == "workload"))
      config_error
  check_boundary config.cache_enabled boundary_subject

-- What the sink says of the call is dropped: an exception of it is swallowed.
unfoldable pub record_pre_engine_refusal : {W : Type 0} → MetricsSink W → W → W
record_pre_engine_refusal metrics w = (metrics.record_decision "block" "error" 0 w).1
