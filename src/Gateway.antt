-- ===== src/Gateway.antt =====
-- The shared gate of the enforcement points in front of an executor or a handler: `_gate` of
-- fastmcp.py, and `execute` of a2a.py, which has the same steps.
pub mod Fastmcp
pub mod Requests
pub mod Subjects
pub mod A2a
pub mod Inline
pub mod Shield
pub mod Mcp
pub mod Invocation
pub mod Identity
pub mod Construction
pub mod Guarded
pub mod Listing
pub mod Agreement
pub mod Inspection
use apparitor.Prelude.{String, Bool, true, false, Option, none, some}
use apparitor.Decision.{VerdictResult, is_allowed_gateway}
use apparitor.Decision.Gateway.{record_pre_engine_refusal, refusal_message}
use apparitor.Engine.Base.{State, set_world}
use apparitor.Engine.Base
use apparitor.Exec.{Exec}
use apparitor.Result.{Exception, Result, ok, raise, cancelled}

-- The exception class of a refusal at the surface.
pub data SurfaceError : Type 0 where
  tool_error resource_error prompt_error invalid_request : SurfaceError

-- How a guarded call ends: as what is behind the gate ended, or with the surface error, or by a
-- cancellation of the authorization.
pub data Reply {ℓ} (A : Type ℓ) : Type ℓ where
  passed : Result A → Reply A
  refused : SurfaceError → String → Reply A
  interrupted : Reply A

module _ {W : Type 0} (e : Base.Engine W) where
  -- A refusal that the engine has not counted.
  unfoldable pub count_refusal : State W → State W
  unfolding record_pre_engine_refusal
  count_refusal s = set_world e (record_pre_engine_refusal e.metrics s.world) s

  -- What follows the authorization; `none` is a refusal without a trip to the decision service.
  unfoldable pub pass_or_refuse :
      {A : Type 0}
      → SurfaceError
      → String
      → (State W → Result A × State W)
      → Result (Option VerdictResult)
      → State W
      → Reply A × State W
  unfolding count_refusal refusal_message is_allowed_gateway
  pass_or_refuse surface noun call_next (ok none) s =
      (refused surface (refusal_message noun none), count_refusal s)
  pass_or_refuse surface noun call_next (ok (some v)) s =
      let (r, s') = call_next s in
      elim (is_allowed_gateway v) [
        | true ↦ (passed r, s')
        | false ↦ (refused surface (refusal_message noun (some v)), s)
      ]
  pass_or_refuse surface noun call_next (raise exc) s =
      (refused surface (refusal_message noun none), count_refusal s)
  pass_or_refuse surface noun call_next cancelled s = (interrupted, s)

  unfoldable pub gate :
      {A : Type 0}
      → SurfaceError
      → String
      → Exec (State W) (Option VerdictResult)
      → (State W → Result A × State W)
      → State W
      → Reply A × State W
  unfolding pass_or_refuse
  gate surface noun authorize call_next s =
      let (r, s') = authorize s in pass_or_refuse surface noun call_next r s'
