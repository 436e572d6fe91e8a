-- ===== src/Client/Retries.antt =====
-- client.py: the retry loop makes a bounded number of attempts, each within what is left of the
-- request budget.
use apparitor.Prelude.{ℕ, ◌+◌, ◌≤◌, ◌<◌, List, [], ◌∷◌}
use apparitor.Client.Trace.{Action, attempted, slept, attempts}
use apparitor.Client.Transport.{Network}
use apparitor.Config.{ScannerConfig}
use apparitor.Runtime.{Runtime}
use apparitor.Value.{Value}

-- An action keeps the deadline: it starts before it, and asks for no more than is left. An attempt's
-- timeouts are the configured ones at most.
abbrev pub Keeps : ScannerConfig → ℕ → Action → Type 0
Keeps config deadline (attempted start t) =
    (start < deadline)
    × (start + t.connect ≤ deadline)
    × (t.connect ≤ config.connect_timeout)
    × (start + t.read ≤ deadline)
    × (t.read ≤ config.read_timeout)
    × (start + t.write ≤ deadline)
    × (t.write ≤ config.read_timeout)
    × (start + t.pool ≤ deadline)
    × (t.pool ≤ config.connect_timeout)
Keeps config deadline (slept start d) = (start < deadline) × (start + d ≤ deadline)

abbrev pub AllKeep : ScannerConfig → ℕ → List Action → Type 0
AllKeep config deadline [] = Unit
AllKeep config deadline (action ∷ actions) =
    Keeps config deadline action × AllKeep config deadline actions

module _ {W : Type 0} (rt : Runtime) (config : ScannerConfig) (net : Network W) where
  open net use {clock}

  abbrev Bounded : ℕ → ℕ → W × List Action → Type 0
  Bounded deadline count x = (attempts x.1 ≤ count) × AllKeep config deadline x.1
