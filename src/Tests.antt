-- ===== src/Tests.antt =====
-- Runs of the modelled program at concrete inputs: a runtime, a network and an engine that the
-- examples of the child modules share. The world is a clock.
pub mod Verdicts
pub mod Gates
pub mod Transport
pub mod Components
pub mod Construction
pub mod Services
pub mod Deployment
pub mod Demonstrations
pub mod Telemetry
pub mod Interleaving
use apparitor.Prelude.{
  ℕ, suc, ◌+◌, String, Bool, true, false, Option, none, some, List, [], ◌∷◌, map, ◌==◌,
  if◌then◌else◌,
}
use apparitor.Adapters.{NormalizedToolCall}
use apparitor.Backend.{DecisionBackend}
use apparitor.Client.Transport.{Network, responded}
use apparitor.Client.Url.{Url, IpAddress}
use apparitor.Config.{ScannerConfig, default_config}
use apparitor.Decision.{VerdictResult, allow, success}
use apparitor.Engine.Base.{Engine, State, allow_reason}
use apparitor.Mapping.{default_map}
use apparitor.Models.{Subject, EvaluationRequest, EvaluationResponse}
use apparitor.Result.{Result, ok, raise, value_error, unexpected}
use apparitor.Runtime.{Runtime}
use apparitor.Value.{Value, null, bool, str, arr, obj, nil, cons, Fields, end, field, get, or_null}

abbrev pub text : Value → String
text (str s) = s
text _ = ""

-- A printer that shows only the id of the resource of a dumped request.
abbrev pub id_in : Value → String
id_in (obj fs) = text (or_null (get "id" fs))
id_in v = ""

abbrev pub resource_id : Fields → String
resource_id fs = id_in (or_null (get "resource" fs))

abbrev pub twice : Fields
twice = field "decision" (bool false) (field "decision" (bool true) end)

abbrev pub runtime : Runtime
runtime = record {
  lower = λ s. s;
  loads = λ s.
      if s == "{}"
      then ok (obj end)
      else if s == "allow"
      then ok (obj (field "decision" (bool true) end))
      else if s == "batch"
      then ok
          (obj (field "evaluations" (arr (cons (obj (field "decision" (bool true) end)) nil)) end))
      else if s == "twice"
      then ok (obj twice)
      else raise value_error;
  dumps = λ d. "";
  dumps_compact = resource_id;
  sha256 = λ s. s;
  dump_dict = λ d. d;
  title = λ s. s;
  text_of = text;
  str_of = λ v. ok (text v);
}

abbrev pub allowed_response : EvaluationResponse
allowed_response = record { decision = true; context = none }

-- A service that allows everything, in one tick.
abbrev pub generous : DecisionBackend ℕ
generous = record {
  evaluate = λ r w. (ok allowed_response, w + 1);
  evaluate_batch =
      λ b w. (ok (record { evaluations = map (λ i. allowed_response) b.evaluations }), w + 1);
}

abbrev pub config : ScannerConfig
config = record default_config { agent_id = some "bot" }

abbrev pub engine : Engine ℕ
engine = record {
  config = config;
  runtime = runtime;
  client = generous;
  mapper = λ w. default_map runtime config none;
  review = none;
  metrics = record { record_decision = λ v t l w. (true, w); record_cache = λ h w. (true, w) };
  log = λ r w. (true, w);
  monotonic = λ w. w;
  perf_counter = λ w. w;
}

abbrev pub start : State ℕ
start = record { cache = none; world = 0 }

abbrev pub alice : Subject
alice = record { type = "user"; id = "alice"; properties = end }

abbrev pub bot : Subject
bot = record { type = "agent"; id = "bot"; properties = end }

abbrev pub reading : EvaluationRequest
reading = record {
  subject = alice;
  action = record { name = "read"; properties = end };
  resource = record { type = "file"; id = "a"; properties = end };
  context = none;
}

-- An Anthropic tool call.
abbrev pub raw_call : Fields
raw_call =
    field "type" (str "tool_use")
      (field "name" (str "ls") (field "input" (obj end) (field "id" (str "1") end)))

abbrev pub call : NormalizedToolCall
call = record { name = "ls"; arguments = end; id = str "1" }

abbrev pub authorized : VerdictResult
authorized = record { verdict = allow; reason = allow_reason; status = success }

-- The same engine, with a reader that refuses every text as too deeply nested.
abbrev pub deep_engine : Engine ℕ
deep_engine = record engine { runtime = record runtime { loads = λ s. raise unexpected } }

-- A network that answers every request with one text, at once.
abbrev pub answering : String → Network ℕ
answering body = record {
  post = λ url payload t w. (responded 200 body, w);
  clock = λ w. w;
  sleep = λ d w. (ok tt, w + d);
  uniform = λ b w. (0, w);
}

abbrev pub urlparse : String → Option Url
urlparse s =
    if s == "https://pdp" then some (record { scheme = "https"; hostname = some "pdp" }) else none

abbrev pub ip_address : String → Option IpAddress
ip_address s = none
