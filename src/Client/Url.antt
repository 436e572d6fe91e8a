-- ===== src/Client/Url.antt =====
-- client.py: `validate_pdp_url`, the guard against requests to internal hosts. `urlparse` and
-- `ipaddress.ip_address` are arguments; the flags of an address are those of `ipaddress`.
use apparitor.Prelude.{
  String, Bool, true, false, not, ◌||◌, Option, none, some, ◌==◌, ◌≡◌, ◌↔◌, refl, sym, subst, ◌⊎◌,
  inl, inr, arith, eq_iff,
}
use apparitor.Result.{Result, ok, raise, config_error, raise_if, ◌>>◌, >>=-ok}

pub record Url : Type 0 where
  pub scheme : String
  pub hostname : Option String

pub record Address : Type 0 where
  pub is_private : Bool
  pub is_loopback : Bool
  pub is_link_local : Bool
  pub is_reserved : Bool
  pub is_unspecified : Bool
  pub is_multicast : Bool

pub data IpAddress : Type 0 where
  ipv4 : Address → IpAddress
  ipv6 : Address → Option Address → IpAddress

-- An IPv4-mapped IPv6 address stands for the IPv4 one.
abbrev pub unwrap : IpAddress → Address
unwrap (ipv4 a) = a
unwrap (ipv6 a none) = a
unwrap (ipv6 a (some mapped)) = mapped

unfoldable pub is_internal : Address → Bool
is_internal a =
    a.is_private || a.is_loopback || a.is_link_local || a.is_reserved || a.is_unspecified
    || a.is_multicast

abbrev pub host_of : Option String → String
host_of none = ""
host_of (some h) = h

-- A text that is no literal address is a host name, and passes.
abbrev pub check_address : Option IpAddress → Result (Unit {0})
check_address none = ok tt
check_address (some ip) = raise_if (is_internal (unwrap ip)) config_error

module _ (urlparse : String → Option Url) (ip_address : String → Option IpAddress) where
  abbrev pub check_host : String → Result (Unit {0})
  check_host host = do
    raise_if (host == "localhost" || host == "localhost.localdomain") config_error
    check_address (ip_address host)

  abbrev pub check_url : Option Url → Bool → Result (Unit {0})
  check_url none allow_insecure = raise config_error
  check_url (some url) true = ok tt
  check_url (some url) false = do
    raise_if (not (url.scheme == "https")) config_error
    check_host (host_of url.hostname)

  unfoldable pub validate_pdp_url : String → Bool → Result (Unit {0})
  unfolding is_internal
  validate_pdp_url url allow_insecure = check_url (urlparse url) allow_insecure

  -- The host is neither name of the local host, and no internal address.
  abbrev pub IsSafeHost : String → Type 0
  IsSafeHost host =
      ((host == "localhost") ≡ false)
      × ((host == "localhost.localdomain") ≡ false)
      × ((ip_address host ≡ none)
          ⊎ ((ip : IpAddress) × (ip_address host ≡ some ip) × (is_internal (unwrap ip) ≡ false)))

  check_address-ok :
      (r : Option IpAddress)
      → (check_address r ≡ ok tt)
        ↔ ((r ≡ none) ⊎ ((ip : IpAddress) × (r ≡ some ip) × (is_internal (unwrap ip) ≡ false)))
  check_address-ok none = (λ h. inl refl, λ h. refl)
  check_address-ok (some ip) = (
    λ h. inr (ip, refl, ground (arith, h)),
    λ h. elim h [
      | inl n ↦ absurd (ground (arith, n))
      | inr (ip', same, safe) ↦ ground (arith, same, safe)
    ],
  )

  check_host-ok : (host : String) → (check_host host ≡ ok tt) ↔ IsSafeHost host
  check_host-ok host = (
    λ h.
        let (u, names, h₁) =
          >>=-ok (raise_if (host == "localhost" || host == "localhost.localdomain") config_error)
            (λ _. check_address (ip_address host)) h in
        (ground (arith, names), ground (arith, names), (check_address-ok (ip_address host)).0 h₁),
    λ (a, b, c). rw (a, b) ((check_address-ok (ip_address host)).1 c),
  )

  check_url-ok :
      (url : Option Url) (allow_insecure : Bool)
      → (check_url url allow_insecure ≡ ok tt) ↔ (
          (u : Url) × (url ≡ some u)
          × ((allow_insecure ≡ true) ⊎ ((u.scheme ≡ "https") × IsSafeHost (host_of u.hostname))))
  check_url-ok none allow_insecure =
      (λ h. absurd (ground (arith, h)), λ h. absurd (ground (arith, h.1)))
  check_url-ok (some url) true = (λ h. (url, refl, inl refl), λ h. refl)
  check_url-ok (some url) false = (
    λ h.
        let (u, scheme, h₁) =
          >>=-ok (raise_if (not (url.scheme == "https")) config_error)
            (λ _. check_host (host_of url.hostname)) h in
        (
          url,
          refl,
          inr (
            (eq_iff url.scheme "https").0 (ground (arith, scheme)),
            (check_host-ok (host_of url.hostname)).0 h₁,
          ),
        ),
    λ (u, same, safe). elim safe [
      | inl never ↦ absurd (ground (arith, never))
      | inr (scheme, host) ↦
          subst (λ w. check_url w false ≡ ok tt) (sym same)
            (rw ((eq_iff u.scheme "https").1 scheme) ((check_host-ok (host_of u.hostname)).1 host))
    ],
  )

  check_address-raise :
      (r : Option IpAddress) → (check_address r ≡ ok tt) ⊎ (check_address r ≡ raise config_error)
  check_address-raise none = inl refl
  check_address-raise (some ip) = ground arith

  check_host-raise :
      (host : String) → (check_host host ≡ ok tt) ⊎ (check_host host ≡ raise config_error)
  check_host-raise host = ground (arith, check_address-raise (ip_address host))

  check_url-raise :
      (url : Option Url) (allow_insecure : Bool)
      → (check_url url allow_insecure ≡ ok tt) ⊎ (check_url url allow_insecure ≡ raise config_error)
  check_url-raise none allow_insecure = inr refl
  check_url-raise (some url) true = inl refl
  check_url-raise (some url) false = ground (arith, check_host-raise (host_of url.hostname))

  -- The guard passes a URL exactly if it parses and either insecure URLs are allowed, or its scheme is
  -- https, its host is neither name of the local host, and the host, if it is a literal address, has
  -- none of the internal flags once a mapped IPv4 address is unwrapped. Otherwise it raises a
  -- configuration error.
  pub validate_pdp_url-ok :
      (url : String) (allow_insecure : Bool)
      → ((validate_pdp_url url allow_insecure ≡ ok tt) ↔ (
          (u : Url) × (urlparse url ≡ some u)
          × ((allow_insecure ≡ true) ⊎ ((u.scheme ≡ "https") × IsSafeHost (host_of u.hostname)))))
        × ((validate_pdp_url url allow_insecure ≡ ok tt)
            ⊎ (validate_pdp_url url allow_insecure ≡ raise config_error))
  unfolding validate_pdp_url
  validate_pdp_url-ok url allow_insecure =
      (check_url-ok (urlparse url) allow_insecure, check_url-raise (urlparse url) allow_insecure)
