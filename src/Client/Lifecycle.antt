-- ===== src/Client/Lifecycle.antt =====
-- client.py: `HTTPDecisionTransport.__init__`, `_build_client`, `aclose` and the asynchronous context
-- manager. `httpx` is a parameter: the type of its clients, the constructor and `aclose`.
use apparitor.Prelude.{
  String, ◌≡◌, refl, Bool, true, false, Option, none, some, List, ◌∙◌, subst, arith, Option-cases,
  inl, inr, ◌⊎◌,
}
use apparitor.Client.Authzen.{base_url, rstrip_slash}
use apparitor.Client.Transport.{Timeouts}
use apparitor.Client.Url.{Url, IpAddress, validate_pdp_url}
use apparitor.Config.{ScannerConfig}
use apparitor.Exec.{Exec}
use apparitor.Result.{Result, ok, ◌>>=◌, ◌>>◌, >>=-ok, ok-injective}

-- The arguments of `httpx.AsyncClient`.
pub record ClientOptions : Type 0 where
  pub base_url : String
  pub timeout : Timeouts
  pub verify : Bool
  pub headers : List (String × String)
  pub follow_redirects : Bool

pub record HttpLibrary (W : Type 0) : Type 1 where
  pub Client : Type 0
  pub create : ClientOptions → Client
  pub close : Client → Exec W (Unit {0})

unfoldable pub build_client : ScannerConfig → String → ClientOptions
build_client config base = record {
  base_url = base;
  timeout = record {
    connect = config.connect_timeout;
    read = config.read_timeout;
    write = config.read_timeout;
    pool = config.connect_timeout;
  };
  verify = config.verify_tls;
  headers = config.default_headers;
  follow_redirects = false;
}

-- What the constructor sets.
pub record Transport (Client : Type 0) : Type 0 where
  pub base : String
  pub owns_http : Bool
  pub http : Client

-- The guard has passed the base URL.
pub base_url-guarded :
    (urlparse : String → Option Url) (ip_address : String → Option IpAddress)
    (config : ScannerConfig) (base : String)
    → base_url urlparse ip_address config ≡ ok base
    → (url : String) × (config.pdp_url ≡ some url)
      × (validate_pdp_url urlparse ip_address url config.allow_insecure_pdp ≡ ok tt)
      × (base ≡ rstrip_slash url)
unfolding base_url
base_url-guarded urlparse ip_address config base h = elim (Option-cases config.pdp_url) [
  | inl missing ↦ absurd (ground (arith, rw (missing, base_url) at h))
  | inr (url, given) ↦
      let (u, valid, h₁) =
        >>=-ok (validate_pdp_url urlparse ip_address url config.allow_insecure_pdp) _
          (rw (given, base_url) at h) in
      (url, given, valid, ground (arith, h₁))
]

module _ {W : Type 0} (httpx : HttpLibrary W) (urlparse : String → Option Url)
    (ip_address : String → Option IpAddress) where
  open httpx use {Client, create, close}

  abbrev pub transport_at : ScannerConfig → Option Client → String → Transport Client
  transport_at config none base = record {
    base = base;
    owns_http = true;
    http = create (build_client config base);
  }
  transport_at config (some client) base = record { base = base; owns_http = false; http = client }

  unfoldable pub init : ScannerConfig → Option Client → Result (Transport Client)
  unfolding base_url build_client
  init config http_client =
      base_url urlparse ip_address config >>= λ base. ok (transport_at config http_client base)

  unfoldable pub aclose : Transport Client → Exec W (Unit {0})
  aclose t w = elim t.owns_http [ true ↦ close t.http w | false ↦ (ok tt, w) ]

  -- `async with transport:` closes it however the block ends; a failure to close replaces that.
  unfoldable pub with_transport : {A : Type 0} → Transport Client → Exec W A → Exec W A
  unfolding aclose
  with_transport t block w =
      let (r, w') = block w in let (closed, w'') = aclose t w' in (closed >> r, w'')

  -- What is left of a block around which a client is closed.
  abbrev pub closed_after : {A : Type 0} → Client → Exec W A → Exec W A
  closed_after client block w =
      let (r, w') = block w in let (closed, w'') = close client w' in (closed >> r, w'')

  -- The transport's client is the one that was passed in, and stays open; or it is its own one, which
  -- talks to the transport's base URL, follows no redirect and checks certificates as configured,
  -- and is closed.
  abbrev pub HasClient :
      {A : Type 0} → ScannerConfig → Option Client → Transport Client → Exec W A → W → Type 0
  HasClient config http_client t block w =
      ((http_client ≡ some t.http) × (with_transport t block w ≡ block w))
      ⊎ ((http_client ≡ none)
          × (options : ClientOptions) × (t.http ≡ create options)
          × (options.base_url ≡ t.base)
          × (options.follow_redirects ≡ false)
          × (options.verify ≡ config.verify_tls)
          × (with_transport t block w ≡ closed_after t.http block w))

  transport_at-HasClient :
      {A : Type 0} (config : ScannerConfig) (http_client : Option Client) (base : String)
      (block : Exec W A) (w : W)
      → HasClient config http_client (transport_at config http_client base) block w
  unfolding with_transport build_client
  transport_at-HasClient config none base block w =
      inr (refl, build_client config base, refl, refl, refl, refl, refl)
  transport_at-HasClient config (some client) base block w = inl (refl, refl)

  base-transport_at :
      (config : ScannerConfig) (http_client : Option Client) (base : String)
      → (transport_at config http_client base).base ≡ base
  base-transport_at config none base = refl
  base-transport_at config (some client) base = refl

  -- Where a transport could be made, its base URL is the configured one, which the guard passed. A
  -- client of its own talks to that URL, follows no redirect and checks certificates as configured;
  -- behind a block it is closed, however the block ends. A client that was passed in is left open:
  -- the block ends as it would without the transport.
  pub init-HasClient :
      {A : Type 0} (config : ScannerConfig) (http_client : Option Client) (t : Transport Client)
      (block : Exec W A) (w : W)
      → init config http_client ≡ ok t
      → ((url : String) × (config.pdp_url ≡ some url)
          × (validate_pdp_url urlparse ip_address url config.allow_insecure_pdp ≡ ok tt)
          × (t.base ≡ rstrip_slash url))
        × HasClient config http_client t block w
  unfolding init
  init-HasClient config http_client t block w h =
      let (base, found, h₁) = >>=-ok (base_url urlparse ip_address config) _ h in
      let (url, given, valid, same) = base_url-guarded urlparse ip_address config base found in
      let made : transport_at config http_client base ≡ t = ok-injective h₁ in
      subst
        (λ t.
          ((url : String) × (config.pdp_url ≡ some url)
            × (validate_pdp_url urlparse ip_address url config.allow_insecure_pdp ≡ ok tt)
            × (t.base ≡ rstrip_slash url))
          × HasClient config http_client t block w)
        (made)
        (
          (url, given, valid, base-transport_at config http_client base ∙ same),
          transport_at-HasClient config http_client base block w,
        )
