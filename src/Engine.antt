-- ===== src/Engine.antt =====
-- engine.py: `AuthorizationEngine`. The state is the ALLOW cache and the world that the engine acts
-- on: the decision service, the metrics sink, the log and the clocks.
pub mod Base
pub mod Evaluate
pub mod Entry
pub mod Each
pub mod Faults
pub mod Causes
pub mod Cancellation
pub mod Soundness
pub mod Outcomes
pub mod Skips
pub mod Telemetry
pub mod Indifference
pub mod Quiet
pub mod QuietEach
pub mod Interleaving
pub mod Positions
pub mod Listing
pub mod Caching
pub mod EndToEnd
