-- ===== src/Tests/Construction.antt =====
-- Examples of what is constructed.
use apparitor.Prelude.{ℕ, ◌≡◌, refl, String, true, false, none, some, List, [], ◌∷◌}
use apparitor.Backend.Cedar.{Cedarpy, allowed}
use apparitor.Backend.Loading.{IsChecked, init-IsChecked}
use apparitor.Backend.Policies
use apparitor.Backend.Policies.{Binding, Loaded, given, read_files}
use apparitor.Client.Authzen
use apparitor.Client.Authzen.{rstrip_slash}
use apparitor.Client.Lifecycle.{HttpLibrary}
use apparitor.Config.{ScannerConfig, cedar}
use apparitor.Engine.Base.{Engine}
use apparitor.Exec.{Exec}
use apparitor.Gateway.Construction.{
  Process, Parts, MiddlewareArguments, middleware_init, settings_of,
}
use apparitor.Gateway.Guarded.{IsGuarded, middleware_init-IsGuarded}
use apparitor.Mapping.{mcp_map}
use apparitor.Result.{ok, raise, config_error}
use apparitor.Tests.{runtime, config, urlparse, ip_address, answering, engine}

abbrev permissive : Cedarpy ℕ
permissive = record {
  is_authorized = λ q w. (ok allowed, w);
  is_authorized_batch = λ qs w. (ok [], w);
}

-- Files that hold `{}`, and a binding that takes everything.
abbrev binding : Binding ℕ
binding = record {
  read_text = λ path. ok "{}";
  format_policies = λ policies. ok tt;
  validate_policies = λ policies schema. ok true;
  engine = λ policies entities schema. permissive;
}

abbrev local : ScannerConfig
local = record config {
  backend = cedar;
  cedar_policies_path = some "p";
  cedar_entities_path = some "e";
}

init-IsChecked_example :
    (given (some "p") ≡ true)
    × (given (some "e") ≡ true)
    × (loaded : Loaded) × (read_files runtime binding local ≡ ok loaded)
    × IsChecked runtime binding loaded
    × (permissive ≡ binding.engine loaded.policies loaded.entities loaded.schema)
unfolding Policies.init
init-IsChecked_example = init-IsChecked runtime binding local permissive refl

abbrev process : Process ℕ
process = record {
  runtime = runtime;
  network = answering "allow";
  any_http_url = λ s. ok s;
  urlparse = urlparse;
  ip_address = ip_address;
  posts = λ url documents w. (([], []), w);
  binding = binding;
  current_subject = λ w. none;
  in_memory = engine.metrics;
  log = λ r w. (true, w);
  monotonic = λ w. w;
  perf_counter = λ w. w;
}

abbrev parts : Parts ℕ
parts = record { mapper = none; review = none; metrics = none }

abbrev arguments : MiddlewareArguments
arguments = record {
  server_label = none;
  subject_type = "user";
  subject_claim = "sub";
  allow_static_subject = false;
  allow_workload_subject = false;
  filter_listings = false;
  gate_resources = true;
  gate_prompts = true;
  boundary_subject = none;
}

abbrev remote : ScannerConfig
remote = record config { pdp_url = some "https://pdp" }

abbrev gateway_engine : Engine ℕ
gateway_engine = record engine {
  config = remote;
  client = Authzen.authzen_client runtime remote (answering "allow") "https://pdp";
  mapper = λ w. mcp_map runtime remote none none;
}

middleware_init-IsGuarded_example : IsGuarded process none (some remote) "user" false none remote
unfolding middleware_init
middleware_init-IsGuarded_example =
    middleware_init-IsGuarded process none (some remote) arguments parts
      (settings_of remote arguments) (gateway_engine, none) refl

-- A client is a text, and the world the list of those that were closed.
abbrev httpx : HttpLibrary (List String)
httpx = record {
  Client = String;
  create = λ options. "own";
  close = λ client w. (ok tt, client ∷ w);
}

abbrev block : Exec (List String) ℕ
block w = (raise config_error, w)
