-- ===== src/Config/Sound.antt =====
-- config.py: what a validated configuration guarantees.
use apparitor.Prelude.{subst, ℕ, ◌≤◌, ◌<◌, String, ◌≡◌, some, List, arith}
use apparitor.Config.{ScannerConfig}
use apparitor.Config.Validation.{Numbers, at_least, validate, no_extra}
use apparitor.Prelude.Options.{>>=-some, some-injective}
use apparitor.Value.{ℤ, pos, negsuc}

-- The ranges of the fields.
pub record IsValid (c : ScannerConfig) : Type 0 where
  pub budget : 0 < c.request_budget
  pub connect : 0 < c.connect_timeout
  pub read : 0 < c.read_timeout
  pub entries : 0 < c.cache_max_entries

at_least-le : (k : ℕ) (z : ℤ) {n : ℕ} → at_least k z ≡ some n → (k ≤ n) × (z ≡ pos n)
unfolding at_least
at_least-le k (pos m) h = ground arith
at_least-le k (negsuc m) h = absurd (ground (arith, h))

module _ (settings : ScannerConfig) (numbers : Numbers) (extra : List String) where
  pub validate-IsValid : {c : ScannerConfig} → validate settings numbers extra ≡ some c → IsValid c
  unfolding validate
  validate-IsValid {c} h =
      let (u, e, h₀) = >>=-some (no_extra extra) _ h in
      let (a₁, e₁, h₁) = >>=-some (at_least 1 numbers.request_budget) _ h₀ in
      let (a₂, e₂, h₂) = >>=-some (at_least 1 numbers.connect_timeout) _ h₁ in
      let (a₃, e₃, h₃) = >>=-some (at_least 1 numbers.read_timeout) _ h₂ in
      let (a₄, e₄, h₄) = >>=-some (at_least 0 numbers.max_retries) _ h₃ in
      let (a₅, e₅, h₅) = >>=-some (at_least 0 numbers.backoff_base) _ h₄ in
      let (a₆, e₆, h₆) = >>=-some (at_least 0 numbers.backoff_max) _ h₅ in
      let (a₇, e₇, h₇) = >>=-some (at_least 0 numbers.cache_ttl) _ h₆ in
      let (a₈, e₈, h₈) = >>=-some (at_least 0 numbers.cache_max_ttl) _ h₇ in
      let (a₉, e₉, h₉) = >>=-some (at_least 1 numbers.cache_max_entries) _ h₈ in
      let (b, f, done) = >>=-some (at_least 0 numbers.max_argument_bytes) _ h₉ in
      subst IsValid (some-injective done) (record {
        budget = (at_least-le 1 numbers.request_budget e₁).0;
        connect = (at_least-le 1 numbers.connect_timeout e₂).0;
        read = (at_least-le 1 numbers.read_timeout e₃).0;
        entries = (at_least-le 1 numbers.cache_max_entries e₉).0;
      })
