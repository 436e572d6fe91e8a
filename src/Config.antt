-- ===== src/Config.antt =====
-- config.py: the settings that the modelled code reads, with their defaults. Durations are whole
-- numbers of one small unit, microseconds in `default_config`.
pub mod Validation
pub mod Sound
use apparitor.Prelude.{ℕ, String, Bool, true, false, Option, none, List, []}

pub data Backend : Type 0 where
  authzen opa cedar : Backend

pub data OnError : Type 0 where
  deny human_review : OnError

pub record ScannerConfig : Type 0 where
  pub backend : Backend
  pub pdp_url : Option String
  pub evaluation_path : String
  pub batch_path : String
  pub opa_decision_path : String
  pub cedar_policies_path : Option String
  pub cedar_entities_path : Option String
  pub cedar_schema_path : Option String
  pub subject_type : String
  pub agent_id : Option String
  pub action_name : String
  pub resource_type : String
  pub default_headers : List (String × String)
  pub on_error : OnError
  pub request_budget : ℕ
  pub connect_timeout : ℕ
  pub read_timeout : ℕ
  pub max_retries : ℕ
  pub backoff_base : ℕ
  pub backoff_max : ℕ
  pub verify_tls : Bool
  pub allow_insecure_pdp : Bool
  pub cache_enabled : Bool
  pub cache_ttl : ℕ
  pub cache_max_ttl : ℕ
  pub cache_max_entries : ℕ
  pub forward_arguments : Bool
  pub redact_arguments : Bool
  pub max_argument_bytes : ℕ

abbrev pub default_config : ScannerConfig
default_config = record {
  backend = authzen;
  pdp_url = none;
  evaluation_path = "/access/v1/evaluation";
  batch_path = "/access/v1/evaluations";
  opa_decision_path = "apparitor/authz/allow";
  cedar_policies_path = none;
  cedar_entities_path = none;
  cedar_schema_path = none;
  subject_type = "agent";
  agent_id = none;
  action_name = "tool_call.execute";
  resource_type = "tool";
  default_headers = [];
  on_error = deny;
  request_budget = 2_000_000;
  connect_timeout = 1_000_000;
  read_timeout = 2_000_000;
  max_retries = 2;
  backoff_base = 50_000;
  backoff_max = 500_000;
  verify_tls = true;
  allow_insecure_pdp = false;
  cache_enabled = false;
  cache_ttl = 60_000_000;
  cache_max_ttl = 300_000_000;
  cache_max_entries = 10_000;
  forward_arguments = true;
  redact_arguments = true;
  max_argument_bytes = 4096;
}
