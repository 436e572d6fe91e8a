-- ===== src/Engine/Base.antt =====
-- engine.py: the engine's parts, its fault table, its isolated observability.
use Prim.Native.String.{slice, compare}
use Prim.Native.Nat.{Ordering}
use apparitor.Prelude.{
  ℕ, ◌-◌, String, Bool, false, Option, none, some, List, [], ◌∷◌, map, if◌then◌else◌,
}
use apparitor.Backend.{DecisionBackend}
use apparitor.Cache.{DecisionCache}
use apparitor.Config.{ScannerConfig}
use apparitor.Decision.{
  Verdict, VerdictStatus, VerdictResult, allow, human_review, block, skip, success, error, skipped,
  resolve_error, verdict_value, status_value,
}
use apparitor.Exec.{Exec, ◌>>=◌}
use apparitor.Mapping.{ToolCallMapper, Mapped, abstain, one, many}
use apparitor.Metrics.{MetricsSink}
use apparitor.Models.{EvaluationRequest, EvaluationItem, BatchEvaluationRequest, execute_all}
use apparitor.Result.{Exception, client_error, is_service_error, Result, ok}
use apparitor.Models.Dump.{dump_request}
use apparitor.Runtime.{Runtime}
use apparitor.Value.{Value, null, Fields, get, or_null}

-- The decision log's records: a decision with its verdict, status, subjects, correlation id,
-- resources, fingerprints and latency; the legs that a batch denied; the verdicts of a listing.
pub data LogRecord : Type 0 where
  decision :
      Verdict → VerdictStatus → List String → Value → List String → List String → ℕ → LogRecord
  denied_legs : List (String × String × String × String) → LogRecord
  per_item : List Verdict → ℕ → LogRecord

-- The parts that the constructor puts together. `mapper` may read the world, for the context
-- variable; `log` returns `false` if the logger raises.
pub record Engine (W : Type 0) : Type 0 where
  pub config : ScannerConfig
  pub runtime : Runtime
  pub client : DecisionBackend W
  pub mapper : W → ToolCallMapper
  pub review : Option (Fields → Result Bool)
  pub metrics : MetricsSink W
  pub log : LogRecord → W → Bool × W
  pub monotonic : W → ℕ
  pub perf_counter : W → ℕ

pub record State (W : Type 0) : Type 0 where
  pub cache : Option DecisionCache
  pub world : W

abbrev pub allow_reason : String
allow_reason = "authorized by policy"

abbrev pub cached_reason : String
cached_reason = "authorized by policy (cached)"

abbrev pub deny_reason : String
deny_reason = "blocked by authorization policy"

abbrev pub skip_reason : String
skip_reason = "no tool call to authorize"

unfoldable pub reason_for : Verdict → String
reason_for allow = allow_reason
reason_for human_review = "authorization requires human review"
reason_for _ = deny_reason

abbrev pub skip_result : VerdictResult
skip_result = record { verdict = skip; reason = skip_reason; status = skipped }

abbrev pub block_result : VerdictResult
block_result = record { verdict = block; reason = deny_reason; status = error }

-- A clean verdict with its reason.
abbrev pub clean : Verdict → VerdictResult
clean v = record { verdict = v; reason = reason_for v; status = success }

-- `_as_requests`
unfoldable pub as_requests : Mapped → List EvaluationRequest
as_requests abstain = []
as_requests (one r) = r ∷ []
as_requests (many rs) = rs

unfoldable pub to_item : EvaluationRequest → EvaluationItem
to_item r = record {
  subject = some r.subject;
  action = some r.action;
  resource = some r.resource;
  context = r.context;
}

unfoldable pub to_batch : List EvaluationRequest → BatchEvaluationRequest
unfolding to_item
to_batch requests = record {
  subject = none;
  action = none;
  resource = none;
  context = none;
  evaluations = map to_item requests;
  options = some (record { evaluations_semantic = execute_all });
}

unfoldable pub decision_cache_key : Runtime → EvaluationRequest → String
decision_cache_key rt request = rt.sha256 (rt.dumps_compact (dump_request rt request))

unfoldable pub fingerprint : Runtime → EvaluationRequest → String
unfolding decision_cache_key
fingerprint rt request = slice (decision_cache_key rt request) 0 12

-- `sorted({...})`
unfoldable pub sorted_insert : String → List String → List String
sorted_insert x [] = x ∷ []
sorted_insert x (y ∷ ys) = elim (compare x y) [
  | Ordering.lt ↦ x ∷ y ∷ ys
  | Ordering.eq ↦ y ∷ ys
  | Ordering.gt ↦ y ∷ sorted_insert x ys
]

unfoldable pub sorted_set : List String → List String
unfolding sorted_insert
sorted_set [] = []
sorted_set (x ∷ xs) = sorted_insert x (sorted_set xs)

-- `(requests[0].context or {}).get("correlation_id")`
abbrev pub correlation_of : Option Fields → Value
correlation_of none = null
correlation_of (some c) = or_null (get "correlation_id" c)

abbrev pub correlation : List EvaluationRequest → Value
correlation [] = null
correlation (r ∷ rs) = correlation_of r.context

module _ {W : Type 0} (e : Engine W) where
  open e use {config, runtime, metrics}

  abbrev pub set_world : W → State W → State W
  set_world w s = record s { world = w }

  unfoldable pub fault_verdict : Exception → VerdictResult
  fault_verdict (client_error code) = block_result
  fault_verdict exc =
      if is_service_error exc then resolve_error config.on_error deny_reason else block_result

  -- `_wants_review`
  abbrev pub ask_review : Option (Fields → Result Bool) → Option Fields → Result Bool
  ask_review none context = ok false
  ask_review (some p) none = ok false
  ask_review (some p) (some context) = p context

  unfoldable pub wants_review : Option Fields → Result Bool
  wants_review = ask_review e.review

  unfoldable pub log_decision : VerdictResult → List EvaluationRequest → ℕ → W → Bool × W
  unfolding sorted_set fingerprint
  log_decision result requests latency = e.log (
      decision result.verdict result.status (sorted_set (map (λ r. r.subject.id) requests))
        (correlation requests) (map (λ r. r.resource.id) requests)
        (map (fingerprint runtime) requests) latency)

  -- `if requests: self._log(...)`, in a `try` block that drops what it raises
  abbrev pub log_if_any : VerdictResult → List EvaluationRequest → ℕ → W → W
  log_if_any result [] latency w = w
  log_if_any result (r ∷ rs) latency w = (log_decision result (r ∷ rs) latency w).1

  -- A sink that raises ends the `try` block before the log.
  unfoldable pub emit : VerdictResult → List EvaluationRequest → ℕ → State W → State W
  unfolding log_decision
  emit result requests latency s =
      let (recorded, w) =
        metrics.record_decision (verdict_value result.verdict) (status_value result.status) latency
          s.world in
      set_world (if recorded then log_if_any result requests latency w else w) s

  unfoldable pub record_cache : Bool → State W → State W
  record_cache hit s = set_world (metrics.record_cache hit s.world).1 s

  unfoldable pub record_cancelled : State W → State W
  record_cancelled s = set_world (metrics.record_decision "block" "error" 0 s.world).1 s

  -- A call of the decision service, on the world in the state.
  unfoldable pub ask : {A : Type 0} → Exec W A → Exec (State W) A
  ask call s = let (r, w) = call s.world in (r, set_world w s)

  -- `started = perf_counter(); result, requests = await ...; self._emit(...)`
  abbrev pub timed :
      Exec (State W) (VerdictResult × List EvaluationRequest) → Exec (State W) VerdictResult
  timed run s =
      let started = e.perf_counter s.world in
      (run >>= λ (v, requests) s'. (ok v, emit v requests (e.perf_counter s'.world - started) s')) s
