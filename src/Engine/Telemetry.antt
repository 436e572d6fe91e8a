-- ===== src/Engine/Telemetry.antt =====
-- engine.py: runs of two engines that differ only in their metrics sink, their logger and the clock
-- that measures latencies.
use apparitor.Prelude.{List, true, ℕ, String, ◌≡◌, refl, Bool}
use apparitor.Engine.Base.{Engine, State, LogRecord, denied_legs}
use apparitor.Exec.{Exec, after, lift, ◌>>=◌}
use apparitor.Metrics.{MetricsSink}
use apparitor.Models.{EvaluationRequest, BatchEvaluationRequest}
use apparitor.Result.{Result, ok, raise, cancelled}

-- The engine with another sink, another logger and another clock for latencies.
abbrev pub rewire :
    {W : Type 0} → Engine W → MetricsSink W → (LogRecord → W → Bool × W) → (W → ℕ) → Engine W
rewire e metrics log perf_counter = record e {
  metrics = metrics;
  log = log;
  perf_counter = perf_counter;
}

-- What of the world the decisions may depend on is a view of it, which a sink and a logger leave as
-- it is; and the logger does not raise where a batch names its denied legs, the one record that the
-- engine does not write in a `try` block.
pub record LeavesAlone {W C : Type 0} (view : W → C) (e : Engine W) : Type 0 where
  pub counts :
      (verdict status : String) (latency : ℕ) (w : W)
      → view (e.metrics.record_decision verdict status latency w).1 ≡ view w
  pub counts_cache : (hit : Bool) (w : W) → view (e.metrics.record_cache hit w).1 ≡ view w
  pub logs : (r : LogRecord) (w : W) → view (e.log r w).1 ≡ view w
  pub names_legs :
      (legs : List (String × String × String × String)) (w : W)
      → (e.log (denied_legs legs) w).0 ≡ true

-- The decision service, the mapper and the cache's clock see the view only.
pub record SeesOnly {W C : Type 0} (view : W → C) (e : Engine W) : Type 0 where
  pub evaluates :
      (r : EvaluationRequest) (w w' : W)
      → view w ≡ view w'
      → ((e.client.evaluate r w).0 ≡ (e.client.evaluate r w').0)
        × (view (e.client.evaluate r w).1 ≡ view (e.client.evaluate r w').1)
  pub evaluates_batch :
      (b : BatchEvaluationRequest) (w w' : W)
      → view w ≡ view w'
      → ((e.client.evaluate_batch b w).0 ≡ (e.client.evaluate_batch b w').0)
        × (view (e.client.evaluate_batch b w).1 ≡ view (e.client.evaluate_batch b w').1)
  pub maps : (w w' : W) → view w ≡ view w' → e.mapper w ≡ e.mapper w'
  pub reads_clock : (w w' : W) → view w ≡ view w' → e.monotonic w ≡ e.monotonic w'

module _ {W C : Type 0} (view : W → C) where
  -- The same cache, and worlds that look the same.
  pub record Same (s s' : State W) : Type 0 where
    pub cache : s.cache ≡ s'.cache
    pub world : view s.world ≡ view s'.world

  -- From states that are the same, the two end alike, in states that are the same.
  abbrev pub Alike : {A : Type 0} → Exec (State W) A → Exec (State W) A → Type 0
  Alike m m' = (s s' : State W) → Same s s' → ((m s).0 ≡ (m' s').0) × Same (m s).1 (m' s').1

  pub lift-Alike : {A : Type 0} (r : Result A) → Alike (lift r) (lift r)
  lift-Alike r s s' same = (refl, same)

  pub after-Alike :
      {A B : Type 0} {f f' : A → Exec (State W) B} (r : Result A)
      → ((a : A) → Alike (f a) (f' a))
      → Alike (after r f) (after r f')
  after-Alike (ok a) k s s' same = k a s s' same
  after-Alike (raise exc) k s s' same = (refl, same)
  after-Alike cancelled k s s' same = (refl, same)

  pub >>=-Alike :
      {A B : Type 0} {m m' : Exec (State W) A} {f f' : A → Exec (State W) B}
      → Alike m m'
      → ((a : A) → Alike (f a) (f' a))
      → Alike (m >>= f) (m' >>= f')
  >>=-Alike {m = m} {m' = m'} {f' = f'} h k s s' same =
      let (r, kept) = h s s' same in rw (← r) (after-Alike (m s).0 k (m s).1 (m' s').1 kept)
