-- ===== src/Backend/CedarSafety.antt =====
-- cedar.py: only an explicit Allow of the engine allows.
use apparitor.Prelude.{Bool, ◌⊎◌, String, true, false, ◌≡◌, refl, ◌↔◌, arith, Bool-cases, inl, inr}
use apparitor.Backend.Cedar.{
  CedarRequest, CedarDecision, allowed, Cedarpy, cedar_request, decide, entity_uid, is_disallowed,
  is_allow, as_malformed, call_with,
}
use apparitor.Models.{EvaluationRequest}
use apparitor.Result.{Result, ok, raise, cancelled, malformed, ◌>>=◌, >>=-ok}
use apparitor.Runtime.{Runtime}

entity_uid-ok :
    (rt : Runtime) (kind identifier u : String)
    → entity_uid rt kind identifier ≡ ok u
    → is_disallowed identifier ≡ false
unfolding entity_uid
entity_uid-ok rt kind identifier u h = elim (Bool-cases (is_disallowed identifier)) [
  | inl bad ↦ absurd (ground arith)
  | inr good ↦ good
]

cedar_request-clean :
    (rt : Runtime) (r : EvaluationRequest) (q : CedarRequest)
    → cedar_request rt r ≡ ok q
    → (is_disallowed r.subject.id ≡ false)
      × (is_disallowed r.action.name ≡ false)
      × (is_disallowed r.resource.id ≡ false)
unfolding cedar_request
cedar_request-clean rt r q h =
    let (p, a, h₁) = >>=-ok (entity_uid rt r.subject.type r.subject.id) _ h in
    let (p', b, h₂) = >>=-ok (entity_uid rt "action" r.action.name) _ h₁ in
    let (p'', c, h₃) = >>=-ok (entity_uid rt r.resource.type r.resource.id) _ h₂ in
    (
      entity_uid-ok rt r.subject.type r.subject.id p a,
      entity_uid-ok rt "action" r.action.name p' b,
      entity_uid-ok rt r.resource.type r.resource.id p'' c,
    )

as_malformed-allow :
    (r : Result CedarDecision)
    → (as_malformed (r >>= λ d. ok (is_allow d)) ≡ ok true) ↔ (r ≡ ok allowed)
as_malformed-allow (ok CedarDecision.allowed) = (λ h. refl, λ h. refl)
as_malformed-allow (ok d) = (λ h. absurd (ground arith), λ h. absurd (ground arith))
as_malformed-allow (raise exc) = (λ h. absurd (ground arith), λ h. absurd (ground arith))
as_malformed-allow cancelled = (λ h. absurd (ground arith), λ h. absurd (ground arith))

-- A decision, a malformed response, or a cancellation.
abbrev pub OnlyMalformed : Result Bool → Type 0
OnlyMalformed r = ((b : Bool) × (r ≡ ok b)) ⊎ (r ≡ raise malformed) ⊎ (r ≡ cancelled)

as_malformed-outcome : (r : Result Bool) → OnlyMalformed (as_malformed r)
as_malformed-outcome (ok b) = inl (b, refl)
as_malformed-outcome (raise exc) = inr (inl refl)
as_malformed-outcome cancelled = inr (inr refl)

module _ {W : Type 0} (rt : Runtime) (cedarpy : Cedarpy W) where
  call-allow :
      (r : Result CedarRequest) (w : W)
      → ((call_with rt cedarpy r cedarpy.is_authorized is_allow w).0 ≡ ok true)
        ↔ ((q : CedarRequest) × (r ≡ ok q) × ((cedarpy.is_authorized q w).0 ≡ ok allowed))
  call-allow (ok q) w =
      let (there, back) = as_malformed-allow (cedarpy.is_authorized q w).0 in
      (
        (λ h. (q, refl, there h)),
        λ (q', same, h). let q'' : q' ≡ q = ground (arith, same) in back (rw q'' at h),
      )
  call-allow (raise exc) w =
      (λ h. absurd (ground arith), λ (q, same, h). absurd (ground (arith, same)))
  call-allow cancelled w =
      (λ h. absurd (ground arith), λ (q, same, h). absurd (ground (arith, same)))

  call-outcome :
      (r : Result CedarRequest) (w : W)
      → OnlyMalformed (call_with rt cedarpy r cedarpy.is_authorized is_allow w).0
  call-outcome (ok q) w =
      as_malformed-outcome ((cedarpy.is_authorized q w).0 >>= λ d. ok (is_allow d))
  call-outcome (raise e) w = inr (inl refl)
  call-outcome cancelled w = inr (inr refl)

  -- The backend allows a request exactly if it can be written as a Cedar request, its three
  -- identifiers have no quote, no backslash and no control character, and the engine's answer is an
  -- explicit Allow. It ends with a decision, a malformed response or a cancellation.
  pub decide_lem :
      (r : EvaluationRequest) (w : W)
      → (((decide rt cedarpy r w).0 ≡ ok true) ↔ (
          (q : CedarRequest) × (cedar_request rt r ≡ ok q)
          × (is_disallowed r.subject.id ≡ false)
          × (is_disallowed r.action.name ≡ false)
          × (is_disallowed r.resource.id ≡ false)
          × ((cedarpy.is_authorized q w).0 ≡ ok allowed)))
        × OnlyMalformed (decide rt cedarpy r w).0
  unfolding decide
  decide_lem r w =
      let (there, back) = call-allow (cedar_request rt r) w in
      (
        (
          λ h.
              let (q, written, answer) = there h in
              let (a, b, c) = cedar_request-clean rt r q written in (q, written, a, b, c, answer),
          λ (q, written, a, b, c, answer). back (q, written, answer),
        ),
        call-outcome (cedar_request rt r) w,
      )
