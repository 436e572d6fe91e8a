-- ===== src/Config/Validation.antt =====
-- config.py: what the model accepts. The ranges are those of the `Field` declarations; a number is a
-- whole number of the unit of the configuration, which may be negative, and infinity is left out.
use apparitor.Prelude.{ℕ, String, Option, none, some, List, [], ◌∷◌, leb, if◌then◌else◌}
use apparitor.Prelude.Options.{◌>>=◌}
use apparitor.Config.{ScannerConfig}
use apparitor.Value.{ℤ, pos, negsuc}

-- The numbers that were given, or the defaults.
pub record Numbers : Type 0 where
  pub request_budget : ℤ
  pub connect_timeout : ℤ
  pub read_timeout : ℤ
  pub max_retries : ℤ
  pub backoff_base : ℤ
  pub backoff_max : ℤ
  pub cache_ttl : ℤ
  pub cache_max_ttl : ℤ
  pub cache_max_entries : ℤ
  pub max_argument_bytes : ℤ

-- `Field(ge=k)`; `gt=0` is a least of 1 on whole numbers of a unit.
unfoldable pub at_least : ℕ → ℤ → Option ℕ
at_least k (pos n) = if leb k n then some n else none
at_least k (negsuc n) = none

-- `extra="forbid"`: a name that is no field is refused.
abbrev pub no_extra : List String → Option (Unit {0})
no_extra [] = some tt
no_extra (name ∷ names) = none

-- The settings without a range, the numbers, and the names of the arguments that are no field.
unfoldable pub validate : ScannerConfig → Numbers → List String → Option ScannerConfig
unfolding at_least
validate settings numbers extra = do
  u ← no_extra extra
  request_budget ← at_least 1 numbers.request_budget
  connect_timeout ← at_least 1 numbers.connect_timeout
  read_timeout ← at_least 1 numbers.read_timeout
  max_retries ← at_least 0 numbers.max_retries
  backoff_base ← at_least 0 numbers.backoff_base
  backoff_max ← at_least 0 numbers.backoff_max
  cache_ttl ← at_least 0 numbers.cache_ttl
  cache_max_ttl ← at_least 0 numbers.cache_max_ttl
  cache_max_entries ← at_least 1 numbers.cache_max_entries
  max_argument_bytes ← at_least 0 numbers.max_argument_bytes
  some (record settings {
    request_budget = request_budget;
    connect_timeout = connect_timeout;
    read_timeout = read_timeout;
    max_retries = max_retries;
    backoff_base = backoff_base;
    backoff_max = backoff_max;
    cache_ttl = cache_ttl;
    cache_max_ttl = cache_max_ttl;
    cache_max_entries = cache_max_entries;
    max_argument_bytes = max_argument_bytes;
  })
