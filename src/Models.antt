-- ===== src/Models.antt =====
-- models.py: the request tuple, the single and batch requests, and the responses.
pub mod Dump
pub mod Responses
use apparitor.Prelude.{String, Bool, Option, List}
use apparitor.Value.{Fields}

pub record Subject : Type 0 where
  pub type : String
  pub id : String
  pub properties : Fields

pub record Action : Type 0 where
  pub name : String
  pub properties : Fields

pub record Resource : Type 0 where
  pub type : String
  pub id : String
  pub properties : Fields

pub data EvaluationSemantic : Type 0 where
  execute_all deny_on_first_deny permit_on_first_permit : EvaluationSemantic

pub record EvaluationRequest : Type 0 where
  pub subject : Subject
  pub action : Action
  pub resource : Resource
  pub context : Option Fields

pub record EvaluationResponse : Type 0 where
  pub decision : Bool
  pub context : Option Fields

pub record EvaluationItem : Type 0 where
  pub subject : Option Subject
  pub action : Option Action
  pub resource : Option Resource
  pub context : Option Fields

pub record EvaluationsOptions : Type 0 where
  pub evaluations_semantic : EvaluationSemantic

pub record BatchEvaluationRequest : Type 0 where
  pub subject : Option Subject
  pub action : Option Action
  pub resource : Option Resource
  pub context : Option Fields
  pub evaluations : List EvaluationItem
  pub options : Option EvaluationsOptions

pub record BatchEvaluationResponse : Type 0 where
  pub evaluations : List EvaluationResponse
