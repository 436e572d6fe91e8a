-- ===== src/Decision/Lattice.antt =====
-- The order of severity, and what `escalate` makes of it.
use apparitor.Prelude.{◌≤◌, ◌↔◌, arith}
use apparitor.Decision.{Verdict, severity, escalate}

-- `escalate` is the join of the severity order: a verdict is at least the result exactly when it is
-- at least both arguments.
pub escalate-join :
    (a b c : Verdict)
    → (severity (escalate a b) ≤ severity c)
      ↔ ((severity a ≤ severity c) × (severity b ≤ severity c))
unfolding escalate severity
escalate-join a b c = ground arith
