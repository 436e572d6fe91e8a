-- ===== src/Backend.antt =====
-- backends.py: `DecisionBackend`, what the engine needs of whatever decides.
pub mod Opa
pub mod Cedar
pub mod Policies
pub mod Loading
pub mod Gather
pub mod Build
pub mod CedarSafety
use apparitor.Models.{
  EvaluationRequest, EvaluationResponse, BatchEvaluationRequest, BatchEvaluationResponse,
}
use apparitor.Exec.{Exec}

pub record DecisionBackend (W : Type 0) : Type 0 where
  pub evaluate : EvaluationRequest → Exec W EvaluationResponse
  pub evaluate_batch : BatchEvaluationRequest → Exec W BatchEvaluationResponse
