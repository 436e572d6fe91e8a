-- ===== src/Metrics.antt =====
-- metrics.py: the sink that the engine writes to.
pub mod InMemory
pub mod Histogram
use apparitor.Prelude.{ℕ, String, Bool}

-- `MetricsSink`, over the world that a sink may change. `false` says that the call raised.
pub record MetricsSink (W : Type 0) : Type 0 where
  pub record_decision : String → String → ℕ → W → Bool × W
  pub record_cache : Bool → W → Bool × W
