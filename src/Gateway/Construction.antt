-- ===== src/Gateway/Construction.antt =====
-- engine.py, scanner.py, nemo.py, fastmcp.py and a2a.py: `build_engine`, and the constructors of the
-- enforcement points.
use apparitor.Prelude.{ℕ, String, Bool, Option, none, some, List}
use apparitor.Backend.Build.{build_backend, resolve_config, initial_cache}
use apparitor.Backend.Policies.{Binding}
use apparitor.Cache.{DecisionCache}
use apparitor.Client.Transport.{Network}
use apparitor.Client.Url.{Url, IpAddress}
use apparitor.Config.{ScannerConfig}
use apparitor.Decision.Gateway.{validate_gateway_subject_config}
use apparitor.Engine.Base.{Engine, LogRecord}
use apparitor.Gateway.A2a.{Executor, checked_label}
use apparitor.Gateway.Requests.{Settings}
use apparitor.Mapping.{ToolCallMapper, default_map, mcp_map}
use apparitor.Metrics.{MetricsSink}
use apparitor.Models.{Subject}
use apparitor.Result.{Result, ok, ◌>>=◌}
use apparitor.Runtime.{Runtime}
use apparitor.Value.{Value, Fields}

-- What the process has around the objects that are constructed. `network` stands for the HTTP client,
-- be it passed in or made, `in_memory` for a new in-memory sink.
pub record Process (W : Type 0) : Type 0 where
  pub runtime : Runtime
  pub network : Network W
  -- `AnyHttpUrl`: the normalised text, or a `ValidationError`, which is a `ValueError`
  pub any_http_url : String → Result String
  pub urlparse : String → Option Url
  pub ip_address : String → Option IpAddress
  pub posts : String → List Fields → W → (List (Result Value) × List ℕ) × W
  pub binding : Binding W
  pub current_subject : W → Option Subject
  pub in_memory : MetricsSink W
  pub log : LogRecord → W → Bool × W
  pub monotonic : W → ℕ
  pub perf_counter : W → ℕ

-- The optional parts of an engine.
pub record Parts (W : Type 0) : Type 0 where
  pub mapper : Option (W → ToolCallMapper)
  pub review : Option (Fields → Result Bool)
  pub metrics : Option (MetricsSink W)

-- An engine and its cache.
abbrev pub Built : Type 0 → Type 0
Built W = Engine W × Option DecisionCache

-- `given or default`
abbrev pub given_or {ℓ} : {A : Type ℓ} → Option A → A → A
given_or none a = a
given_or (some b) a = b

-- The arguments of the FastMCP middleware and of the A2A executor.
pub record MiddlewareArguments : Type 0 where
  pub server_label : Option String
  pub subject_type : String
  pub subject_claim : String
  pub allow_static_subject : Bool
  pub allow_workload_subject : Bool
  pub filter_listings : Bool
  pub gate_resources : Bool
  pub gate_prompts : Bool
  pub boundary_subject : Option Subject

pub record ExecutorArguments : Type 0 where
  pub agent_label : String
  pub subject_type : String
  pub allow_static_subject : Bool
  pub boundary_subject : Option Subject

-- What the two constructors store.
abbrev pub settings_of : ScannerConfig → MiddlewareArguments → Settings
settings_of config args = record {
  config = config;
  server_label = args.server_label;
  subject_type = args.subject_type;
  subject_claim = args.subject_claim;
  allow_static_subject = args.allow_static_subject;
  allow_workload_subject = args.allow_workload_subject;
  filter_listings = args.filter_listings;
  gate_resources = args.gate_resources;
  gate_prompts = args.gate_prompts;
  boundary_subject = args.boundary_subject;
}

abbrev pub executor_of : ScannerConfig → String → ExecutorArguments → Executor
executor_of config label args = record {
  config = config;
  agent_label = label;
  subject_type = args.subject_type;
  allow_static_subject = args.allow_static_subject;
  boundary_subject = args.boundary_subject;
}

module _ {W : Type 0} (process : Process W) where
  open process use {runtime}

  -- `AuthorizationEngine.__init__`, on the backend.
  unfoldable pub build_engine : ScannerConfig → Parts W → Result (Built W)
  unfolding build_backend initial_cache
  build_engine config parts =
      build_backend runtime process.network process.urlparse process.ip_address process.posts
        process.binding config
      >>= λ backend. ok (
        record {
          config = config;
          runtime = runtime;
          client = backend;
          mapper =
              given_or parts.mapper (λ w. default_map runtime config (process.current_subject w));
          review = parts.review;
          metrics = given_or parts.metrics process.in_memory;
          log = process.log;
          monotonic = process.monotonic;
          perf_counter = process.perf_counter;
        },
        initial_cache config,
      )

  -- `AuthZENScanner.__init__` and `NeMoAuthorizationRails.__init__`
  unfoldable pub inline_init :
      Option String → Option ScannerConfig → Parts W → Result (ScannerConfig × Built W)
  unfolding resolve_config build_engine
  inline_init pdp_url config parts = do
    config ← resolve_config process.any_http_url pdp_url config
    built ← build_engine config parts
    ok (config, built)

  -- The default mapper of the middleware is the MCP mapper; the executor has none.
  abbrev pub middleware_parts : ScannerConfig → Parts W → Parts W
  middleware_parts config parts = record parts {
    mapper =
        some (given_or parts.mapper (λ w. mcp_map runtime config none (process.current_subject w)));
  }

  abbrev pub executor_parts : Parts W → Parts W
  executor_parts parts = record parts { mapper = none }

  -- `FastMCPAuthorizationMiddleware.__init__`
  unfoldable pub middleware_init :
      Option String
      → Option ScannerConfig
      → MiddlewareArguments
      → Parts W
      → Result (Settings × Built W)
  unfolding resolve_config validate_gateway_subject_config build_engine
  middleware_init pdp_url config args parts = do
    config ← resolve_config process.any_http_url pdp_url config
    warned ←
        validate_gateway_subject_config config args.subject_type args.allow_static_subject
          args.boundary_subject
    built ← build_engine config (middleware_parts config parts)
    ok (settings_of config args, built)

  -- `A2AAuthorizationExecutor.__init__`
  unfoldable pub executor_init :
      Option String
      → Option ScannerConfig
      → ExecutorArguments
      → Parts W
      → Result (Executor × Built W)
  unfolding resolve_config validate_gateway_subject_config checked_label build_engine
  executor_init pdp_url config args parts = do
    config ← resolve_config process.any_http_url pdp_url config
    warned ←
        validate_gateway_subject_config config args.subject_type args.allow_static_subject
          args.boundary_subject
    label ← checked_label args.agent_label
    built ← build_engine config (executor_parts parts)
    ok (executor_of config label args, built)
