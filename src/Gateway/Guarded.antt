-- ===== src/Gateway/Guarded.antt =====
-- fastmcp.py and a2a.py: what an enforcement point that could be constructed rests on.
use apparitor.Prelude.{
  String, ◌≡◌, ◌≢◌, refl, ◌⊎◌, inl, inr, Bool, true, false, ◌||◌, Option, none, some, arith,
  is_empty, strip, contains, ap, sym,
}
use apparitor.Backend.{DecisionBackend}
use apparitor.Backend.Build.{
  build_backend, backend_at, cedar_backend, resolve_config, build_backend-guarded,
}
use apparitor.Backend.Loading.{IsChecked, init-IsChecked, raise_if-ok}
use apparitor.Backend.Policies
use apparitor.Backend.Policies.{Loaded, read_files}
use apparitor.Client.Url.{validate_pdp_url}
use apparitor.Config.{ScannerConfig, default_config, Backend, authzen, opa, cedar}
use apparitor.Decision.Gateway.{validate_gateway_subject_config}
use apparitor.Decision.Outcomes.{IsAcceptable, validate_gateway_subject_config-ok}
use apparitor.Gateway.A2a.{Executor, checked_label}
use apparitor.Gateway.Construction.{
  Process, Parts, Built, MiddlewareArguments, ExecutorArguments, build_engine, settings_of,
  executor_of, middleware_parts, executor_parts, middleware_init, executor_init,
}
use apparitor.Gateway.Requests.{Settings}
use apparitor.Models.{Subject}
use apparitor.Result.{Result, ok, config_error, raise_if, >>=-ok, ok-injective}

-- The configuration is the one that was passed, or the default one with the URL that was, as
-- `AnyHttpUrl` normalises it; not both were passed.
abbrev pub IsResolved :
    (String → Result String) → Option String → Option ScannerConfig → ScannerConfig → Type 0
IsResolved any_http_url pdp_url config resolved =
    ((pdp_url ≡ none) × (config ≡ some resolved))
    ⊎ ((config ≡ none)
        × (url : String) × (normal : String) × (pdp_url ≡ some url)
        × (any_http_url url ≡ ok normal)
        × (resolved ≡ record default_config { pdp_url = some normal }))

resolve_config-IsResolved :
    (any_http_url : String → Result String) (pdp_url : Option String)
    (config : Option ScannerConfig) {c : ScannerConfig}
    → resolve_config any_http_url pdp_url config ≡ ok c
    → IsResolved any_http_url pdp_url config c
unfolding resolve_config
resolve_config-IsResolved any_http_url (some url) (some config) h = absurd (ground (arith, h))
resolve_config-IsResolved any_http_url none (some config) h = inl (refl, ap some (ok-injective h))
resolve_config-IsResolved any_http_url none none h = absurd (ground (arith, h))
resolve_config-IsResolved any_http_url (some url) none h =
    let (normal, reads, made) = >>=-ok (any_http_url url) _ h in
    inr (refl, url, normal, refl, reads, sym (ok-injective made))

-- None of the subjects that the settings name can be a workload.
abbrev pub NamesNoWorkload : ScannerConfig → String → Bool → Option Subject → Type 0
NamesNoWorkload config subject_type allow_static boundary =
    (subject_type ≢ "workload")
    × (allow_static ≡ true → config.subject_type ≢ "workload")
    × IsAcceptable boundary

checked_label-ok :
    (agent_label : String) {label : String}
    → checked_label agent_label ≡ ok label
    → (label ≡ strip agent_label) × (is_empty label ≡ false) × (contains b'/' label ≡ false)
unfolding checked_label
checked_label-ok agent_label h =
    let (u, guard, h₁) =
      >>=-ok
        (raise_if (is_empty (strip agent_label) || contains b'/' (strip agent_label)) config_error)
        _ h in
    let clean = raise_if-ok _ config_error guard in
    rw (← ok-injective h₁) (refl, ground (arith, clean), ground (arith, clean))

module _ {W : Type 0} (process : Process W) where
  -- A network backend has a URL that the guard passed; a Cedar backend has policies that were read and
  -- checked.
  abbrev pub HasGuardedBackend : ScannerConfig → Type 0
  HasGuardedBackend config =
      (config.backend ≢ cedar
        → (url : String) × (config.pdp_url ≡ some url)
          × (validate_pdp_url process.urlparse process.ip_address url config.allow_insecure_pdp
              ≡ ok tt))
      × (config.backend ≡ cedar
          → (loaded : Loaded) × (read_files process.runtime process.binding config ≡ ok loaded)
            × IsChecked process.runtime process.binding loaded)

  backend_at-IsChecked :
      (which : Backend) (config : ScannerConfig) (b : DecisionBackend W)
      → backend_at process.runtime process.network process.urlparse process.ip_address process.posts
          process.binding which config
        ≡ ok b
      → which ≡ cedar
      → (loaded : Loaded) × (read_files process.runtime process.binding config ≡ ok loaded)
        × IsChecked process.runtime process.binding loaded
  unfolding cedar_backend
  backend_at-IsChecked cedar config b h e =
      let (cedarpy, made, h₁) = >>=-ok (Policies.init process.runtime process.binding config) _ h in
      let (p, q, loaded, files, checked, same) =
        init-IsChecked process.runtime process.binding config cedarpy made in
      (loaded, files, checked)
  backend_at-IsChecked opa config b h e = absurd (ground (arith, e))
  backend_at-IsChecked authzen config b h e = absurd (ground (arith, e))

  build_engine-HasGuardedBackend :
      (config : ScannerConfig) (parts : Parts W) {built : Built W}
      → build_engine process config parts ≡ ok built
      → HasGuardedBackend config
  unfolding build_engine build_backend
  build_engine-HasGuardedBackend config parts h =
      let (b, made, h₁) =
        >>=-ok
          (build_backend process.runtime process.network process.urlparse process.ip_address
            process.posts process.binding config)
          _ h in
      (
        build_backend-guarded process.runtime process.network process.urlparse process.ip_address
            process.posts process.binding config b made,
        backend_at-IsChecked config.backend config b made,
      )

  -- What both constructors check of the configuration that they resolve.
  abbrev pub IsGuarded :
      Option String → Option ScannerConfig → String → Bool → Option Subject → ScannerConfig → Type 0
  IsGuarded pdp_url given subject_type allow_static boundary config =
      IsResolved process.any_http_url pdp_url given config
      × NamesNoWorkload config subject_type allow_static boundary
      × HasGuardedBackend config

  -- The middleware can be constructed only from one of a URL and a configuration, if none of the
  -- subjects that its settings name can be a workload, and on a backend whose URL the guard against
  -- internal hosts passed, or whose policies were read and parse or validate.
  pub middleware_init-IsGuarded :
      (pdp_url : Option String) (given : Option ScannerConfig) (args : MiddlewareArguments)
      (parts : Parts W) (settings : Settings) (built : Built W)
      → middleware_init process pdp_url given args parts ≡ ok (settings, built)
      → IsGuarded pdp_url given args.subject_type args.allow_static_subject args.boundary_subject
          settings.config
  unfolding middleware_init
  middleware_init-IsGuarded pdp_url given args parts settings built h =
      let (c, resolved, h₁) = >>=-ok (resolve_config process.any_http_url pdp_url given) _ h in
      let (warned, valid, h₂) =
        >>=-ok
          (validate_gateway_subject_config c args.subject_type args.allow_static_subject
            args.boundary_subject)
          _ h₁ in
      let (b, made, h₃) =
        >>=-ok (build_engine process c (middleware_parts process c parts))
          (λ b. ok (settings_of c args, b)) h₂ in
      let stored : settings_of c args ≡ settings = ap (λ p. p.0) (ok-injective h₃) in
      rw (← stored) (
        resolve_config-IsResolved process.any_http_url pdp_url given resolved,
        (validate_gateway_subject_config-ok c args.subject_type args.allow_static_subject
              args.boundary_subject).0
            (warned, valid),
        build_engine-HasGuardedBackend c (middleware_parts process c parts) made,
      )

  -- The executor can be constructed only under the same conditions, and if its label is not empty and
  -- has no slash once it is stripped; it stores the stripped one.
  pub executor_init-IsGuarded :
      (pdp_url : Option String) (given : Option ScannerConfig) (args : ExecutorArguments)
      (parts : Parts W) (executor : Executor) (built : Built W)
      → executor_init process pdp_url given args parts ≡ ok (executor, built)
      → IsGuarded pdp_url given args.subject_type args.allow_static_subject args.boundary_subject
          executor.config
        × (executor.agent_label ≡ strip args.agent_label)
        × (is_empty executor.agent_label ≡ false)
        × (contains b'/' executor.agent_label ≡ false)
  unfolding executor_init checked_label
  executor_init-IsGuarded pdp_url given args parts executor built h =
      let (c, resolved, h₁) = >>=-ok (resolve_config process.any_http_url pdp_url given) _ h in
      let (warned, valid, h₂) =
        >>=-ok
          (validate_gateway_subject_config c args.subject_type args.allow_static_subject
            args.boundary_subject)
          _ h₁ in
      let (label, checked, h₃) = >>=-ok (checked_label args.agent_label) _ h₂ in
      let (b, made, h₄) =
        >>=-ok (build_engine process c (executor_parts process parts))
          (λ b. ok (executor_of c label args, b)) h₃ in
      let stored : executor_of c label args ≡ executor = ap (λ p. p.0) (ok-injective h₄) in
      let (stripped, full, whole) = checked_label-ok args.agent_label checked in
      rw (← stored) (
        (
          resolve_config-IsResolved process.any_http_url pdp_url given resolved,
          (validate_gateway_subject_config-ok c args.subject_type args.allow_static_subject
                args.boundary_subject).0
              (warned, valid),
          build_engine-HasGuardedBackend c (executor_parts process parts) made,
        ),
        stripped,
        full,
        whole,
      )
