-- ===== src/Backend/Build.antt =====
-- backends.py, cedar.py and engine.py: `build_backend` with the constructors behind it,
-- `resolve_config`, and the parts that `build_engine` puts together.
use Prim.Native.Char.{code}
use Prim.Native.String.{String, [], ◌∷◌}
use apparitor.Prelude.{ℕ, List, Option, none, some, eqb, if◌then◌else◌, concat, ◌≡◌, ◌≢◌, refl}
use apparitor.Backend.{DecisionBackend}
use apparitor.Backend.Cedar
use apparitor.Backend.Policies
use apparitor.Backend.Policies.{Binding}
use apparitor.Backend.Opa
use apparitor.Cache
use apparitor.Cache.{DecisionCache}
use apparitor.Client.Authzen
use apparitor.Client.Authzen.{base_url, rstrip_slash}
use apparitor.Client.Lifecycle.{base_url-guarded}
use apparitor.Client.Transport.{Network}
use apparitor.Client.Url.{Url, IpAddress, validate_pdp_url}
use apparitor.Config.{ScannerConfig, default_config, Backend, authzen, opa, cedar}
use apparitor.Result.{Result, ok, raise, config_error, ◌>>=◌, >>=-ok}
use apparitor.Runtime.{Runtime}
use apparitor.Value.{Value, Fields}

-- s.lstrip("/")
unfoldable pub lstrip_slash : String → String
lstrip_slash [] = []
lstrip_slash (c ∷ s) = if eqb (code c) b'/' then lstrip_slash s else c ∷ s

-- `"/v1/data/" + config.opa_decision_path.strip("/")`
unfoldable pub opa_path : ScannerConfig → String
unfolding lstrip_slash rstrip_slash concat
opa_path config = concat "/v1/data/" (rstrip_slash (lstrip_slash config.opa_decision_path))

-- `pdp_url` or `config`, and not both. The first argument is the reading of a text as an
-- `AnyHttpUrl`, which `ScannerConfig` does and which may refuse it.
unfoldable pub resolve_config :
    (String → Result String) → Option String → Option ScannerConfig → Result ScannerConfig
resolve_config any_http_url (some url) (some config) = raise config_error
resolve_config any_http_url none (some config) = ok config
resolve_config any_http_url none none = raise config_error
resolve_config any_http_url (some url) none =
    any_http_url url >>= λ normal. ok (record default_config { pdp_url = some normal })

-- The cache of a new engine.
unfoldable pub initial_cache : ScannerConfig → Option DecisionCache
unfolding Cache.init
initial_cache config =
    if config.cache_enabled
    then some (Cache.init config.cache_ttl config.cache_max_ttl config.cache_max_entries)
    else none

-- `posts` is the event loop's run of several posts to a URL at once.
module _ {W : Type 0} (rt : Runtime) (net : Network W) (urlparse : String → Option Url)
    (ip_address : String → Option IpAddress)
    (posts : String → List Fields → W → (List (Result Value) × List ℕ) × W)
    (binding : Binding W) where
  unfoldable pub cedar_backend : ScannerConfig → Result (DecisionBackend W)
  unfolding Policies.init
  cedar_backend config = Policies.init rt binding config >>= λ cedarpy. ok (record {
    evaluate = Cedar.evaluate rt cedarpy;
    evaluate_batch = Cedar.evaluate_batch rt cedarpy;
  })

  abbrev pub backend_at : Backend → ScannerConfig → Result (DecisionBackend W)
  backend_at cedar config = cedar_backend config
  backend_at opa config = do
    base ← base_url urlparse ip_address config
    let url = concat base (opa_path config)
    ok (record {
      evaluate = Opa.evaluate rt config net url (posts url);
      evaluate_batch = Opa.evaluate_batch rt config net url (posts url);
    })
  backend_at authzen config = do
    base ← base_url urlparse ip_address config
    ok (record {
      evaluate = Authzen.evaluate rt config net base;
      evaluate_batch = Authzen.evaluate_batch rt config net base;
    })

  unfoldable pub build_backend : ScannerConfig → Result (DecisionBackend W)
  unfolding cedar_backend base_url opa_path concat
  build_backend config = backend_at config.backend config

  backend_at-guarded :
      (which : Backend) (config : ScannerConfig) (b : DecisionBackend W)
      → backend_at which config ≡ ok b
      → which ≢ cedar
      → (url : String) × (config.pdp_url ≡ some url)
        × (validate_pdp_url urlparse ip_address url config.allow_insecure_pdp ≡ ok tt)
  backend_at-guarded cedar config b h n = absurd (n refl)
  backend_at-guarded opa config b h n =
      let (base, found, h₁) = >>=-ok (base_url urlparse ip_address config) _ h in
      let (url, given, valid, same) = base_url-guarded urlparse ip_address config base found in
      (url, given, valid)
  backend_at-guarded authzen config b h n =
      let (base, found, h₁) = >>=-ok (base_url urlparse ip_address config) _ h in
      let (url, given, valid, same) = base_url-guarded urlparse ip_address config base found in
      (url, given, valid)

  -- A backend that talks over the network is built only if the configuration has a URL and the guard
  -- against internal hosts passed this URL.
  pub build_backend-guarded :
      (config : ScannerConfig) (b : DecisionBackend W)
      → build_backend config ≡ ok b
      → config.backend ≢ cedar
      → (url : String) × (config.pdp_url ≡ some url)
        × (validate_pdp_url urlparse ip_address url config.allow_insecure_pdp ≡ ok tt)
  unfolding build_backend
  build_backend-guarded config b h n = backend_at-guarded config.backend config b h n
