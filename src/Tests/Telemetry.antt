-- ===== src/Tests/Telemetry.antt =====
-- Examples of an engine with two sinks. The world is a clock and what a sink counts.
use apparitor.Prelude.{◌≡◌, Bool, ℕ, refl, ap, ◌+◌, true, false, Option, none, List, map}
use apparitor.Adapters.{NormalizedToolCall}
use apparitor.Engine.Base.{Engine, LogRecord, denied_legs, decision, per_item}
use apparitor.Engine.Each.{evaluate_each}
use apparitor.Engine.Entry.{
  evaluate_tool_calls, evaluate_normalized, evaluate_requests, evaluate_with_boundary,
}
use apparitor.Engine.QuietEach.{quiet-Alike}
use apparitor.Engine.Telemetry.{rewire, LeavesAlone, SeesOnly, Alike}
use apparitor.Mapping.{default_map}
use apparitor.Metrics.{MetricsSink}
use apparitor.Models.{Subject, EvaluationRequest}
use apparitor.Result.{ok}
use apparitor.Tests.{runtime, config, allowed_response}
use apparitor.Value.{Fields}

abbrev clock : ℕ × ℕ → ℕ
clock w = w.0

-- A sink that counts, and one that counts twice and raises.
abbrev counting : MetricsSink (ℕ × ℕ)
counting = record {
  record_decision = λ v t l w. (true, (w.0, w.1 + 1));
  record_cache = λ h w. (true, (w.0, w.1 + 1));
}

abbrev failing : MetricsSink (ℕ × ℕ)
failing = record {
  record_decision = λ v t l w. (false, (w.0, w.1 + 2));
  record_cache = λ h w. (false, (w.0, w.1 + 2));
}

abbrev silent : LogRecord → ℕ × ℕ → Bool × (ℕ × ℕ)
silent r w = (true, w)

abbrev chatty : LogRecord → ℕ × ℕ → Bool × (ℕ × ℕ)
chatty (denied_legs legs) w = (true, (w.0, w.1 + 5))
chatty r w = (false, (w.0, w.1 + 5))

abbrev counted : Engine (ℕ × ℕ)
counted = record {
  config = config;
  runtime = runtime;
  client = record {
    evaluate = λ r w. (ok allowed_response, (w.0 + 1, w.1));
    evaluate_batch = λ b w.
        (ok (record { evaluations = map (λ i. allowed_response) b.evaluations }), (w.0 + 1, w.1));
  };
  mapper = λ w. default_map runtime config none;
  review = none;
  metrics = counting;
  log = silent;
  monotonic = clock;
  perf_counter = clock;
}

abbrev rewired : Engine (ℕ × ℕ)
rewired = rewire counted failing chatty (λ w. w.1)

counted-SeesOnly : SeesOnly clock counted
counted-SeesOnly = record {
  evaluates = λ r w w' h. (refl, ap (λ n. n + 1) h);
  evaluates_batch = λ b w w' h. (refl, ap (λ n. n + 1) h);
  maps = λ w w' h. refl;
  reads_clock = λ w w' h. h;
}

counted-LeavesAlone : LeavesAlone clock counted
counted-LeavesAlone = record {
  counts = λ v t l w. refl;
  counts_cache = λ h w. refl;
  logs = λ r w. refl;
  names_legs = λ legs w. refl;
}

rewired-LeavesAlone : LeavesAlone clock rewired
rewired-LeavesAlone = record {
  counts = λ v t l w. refl;
  counts_cache = λ h w. refl;
  logs = λ r w. elim r as (λ r. clock (chatty r w).1 ≡ clock w) [
    | denied_legs legs ↦ refl
    | decision v t ss c rs fs l ↦ refl
    | per_item vs l ↦ refl
  ];
  names_legs = λ legs w. refl;
}

quiet-Alike_example :
    ((raws : List Fields) (ctx : Fields)
      → Alike clock (evaluate_tool_calls counted raws ctx) (evaluate_tool_calls rewired raws ctx))
    × ((calls : List NormalizedToolCall) (ctx : Fields)
        → Alike clock
            (evaluate_normalized counted calls ctx)
            (evaluate_normalized rewired calls ctx))
    × ((rs : List EvaluationRequest)
        → Alike clock (evaluate_requests counted rs) (evaluate_requests rewired rs))
    × ((r : EvaluationRequest) (boundary : Option Subject)
        → Alike clock
            (evaluate_with_boundary counted r boundary)
            (evaluate_with_boundary rewired r boundary))
    × ((calls : List NormalizedToolCall) (ctx : Fields)
        → Alike clock (evaluate_each counted calls ctx) (evaluate_each rewired calls ctx))
quiet-Alike_example =
    quiet-Alike clock counted failing chatty (λ w. w.1) counted-SeesOnly counted-LeavesAlone
      rewired-LeavesAlone
