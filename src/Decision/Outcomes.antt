-- ===== src/Decision/Outcomes.antt =====
-- decision.py: the verdicts of responses and the settings of a gateway.
use apparitor.Prelude.{
  refl, not, eqb, ◌||◌, inl, inr, Bool-cases, ◌⊎◌, String, ℕ, Bool, true, false, Option, none, some,
  List, [], ◌∷◌, ◌≡◌, ◌≢◌, ◌↔◌, arith, length, All, all, ◌&&◌, ◌==◌, eq_iff,
}
use apparitor.Config.{ScannerConfig}
use apparitor.Decision.{allow, block, aggregate}
use apparitor.Decision.Gateway.{validate_gateway_subject_config}
use apparitor.Models.{Subject}
use apparitor.Result.{ok}

all-All : (ds : List Bool) → (all ds ≡ true) ↔ All (λ d. d ≡ true) ds
all-All [] = (λ h. tt, λ h. refl)
all-All (d ∷ ds) =
    let (there, back) = all-All ds in
    (λ h. (ground arith, there (ground arith)), λ (a, h). ground (arith, a, back h))

allow_or_block : (ds : List Bool) (n : ℕ) → (aggregate ds n ≡ allow) ⊎ (aggregate ds n ≡ block)
unfolding aggregate
allow_or_block ds n = elim (Bool-cases (not (eqb (length ds) n) || not (all ds))) [
  | inl bad ↦ inr (rw (bad, aggregate) refl)
  | inr good ↦ inl (rw (good, aggregate) refl)
]

-- A batch is an ALLOW exactly if it has as many decisions as there are requests and all of them
-- are allows, and is a BLOCK otherwise.
pub aggregate_lem :
    (ds : List Bool) (n : ℕ)
    → ((aggregate ds n ≡ allow) ↔ ((length ds ≡ n) × All (λ d. d ≡ true) ds))
      × ((aggregate ds n ≡ allow) ⊎ (aggregate ds n ≡ block))
unfolding aggregate
aggregate_lem ds n =
    let (there, back) = all-All ds in
    (
      (λ h. (ground arith, there (ground arith)), λ (a, h). ground (arith, a, back h)),
      allow_or_block ds n,
    )

differs : (a b : String) → a ≢ b → (a == b) ≡ false
differs a b h = elim (Bool-cases (a == b)) [
  | inl same ↦ absurd (h ((eq_iff a b).0 same))
  | inr other ↦ other
]

static-differs : (on : Bool) (a b : String) → (on ≡ true → a ≢ b) → (on && a == b) ≡ false
static-differs true a b h = differs a b (h refl)
static-differs false a b h = refl

abbrev pub IsAcceptable : Option Subject → Type 0
IsAcceptable none = Unit
IsAcceptable (some s) = s.type ≢ "workload"

-- The settings of a gateway are accepted exactly if none of the three subjects that they name can
-- be a workload: the subjects from authentication, the static subject if it is enabled, and the
-- boundary subject if there is one.
pub validate_gateway_subject_config-ok :
    (config : ScannerConfig) (subject_type : String) (allow_static : Bool)
    (boundary : Option Subject)
    → ((b : Bool) × (validate_gateway_subject_config config subject_type allow_static boundary
          ≡ ok b))
      ↔ ((subject_type ≢ "workload")
          × (allow_static ≡ true → config.subject_type ≢ "workload")
          × IsAcceptable boundary)
unfolding validate_gateway_subject_config
validate_gateway_subject_config-ok config subject_type allow_static none = (
  λ (b, h). (
    (λ q. ground (arith, eq_iff subject_type "workload", q, h)),
    (λ on q. ground (arith, eq_iff config.subject_type "workload", q, h, on)),
    tt,
  ),
  λ (a, b, c). (
    false,
    rw
        (
          differs subject_type "workload" a,
          static-differs allow_static config.subject_type "workload" b,
        )
        refl,
  ),
)
validate_gateway_subject_config-ok config subject_type allow_static (some s) = (
  λ (b, h). (
    (λ q. ground (arith, eq_iff subject_type "workload", q, h)),
    (λ on q. ground (arith, eq_iff config.subject_type "workload", q, h, on)),
    (λ q. ground (arith, eq_iff s.type "workload", q, h)),
  ),
  λ (a, b, c). (
    config.cache_enabled,
    rw
        (
          differs subject_type "workload" a,
          static-differs allow_static config.subject_type "workload" b,
          differs s.type "workload" c,
        )
        refl,
  ),
)
