-- ===== src/Examples/Oversight.antt =====
-- examples/observability/run.py: the verdicts that its decision service and its predicate lead to.
use apparitor.Prelude.{
  String, ◌≡◌, refl, arith, Bool, true, false, none, some, List, ap, sym, ◌∙◌, inl, inr,
  if◌then◌else◌, Bool-cases,
}
use apparitor.Decision.{Verdict, map_single, allow, block, human_review}
use apparitor.Engine.Base.{Engine, State, clean, ask_review, ask, wants_review}
use apparitor.Engine.Evaluate.{decide_single, settle_single}
use apparitor.Examples.Http.{Host, entry}
use apparitor.Examples.MockPdp.{permits, mem}
use apparitor.Examples.Review.{decision, decision_with, needs_review, decided}
use apparitor.Models.{EvaluationRequest, EvaluationResponse}
use apparitor.Models.Dump.{dump_request}
use apparitor.Models.Responses.{validate_response}
use apparitor.Result.{ok, ok-injective}
use apparitor.Prelude.Options.{some-injective}
use apparitor.Runtime.{Runtime}
use apparitor.Value.{Value, null, bool, str, obj, Fields, field, end, get}

-- The response that the client reads.
abbrev response : Bool → Bool → EvaluationResponse
response allowed needed = record {
  decision = allowed;
  context = if needed then some (entry "review" (bool true)) else none;
}

validate_response-decision_with :
    (allowed needed : Bool)
    → validate_response (obj (decision_with allowed needed)) ≡ some (response allowed needed)
unfolding validate_response
validate_response-decision_with allowed true = refl
validate_response-decision_with allowed false = refl

module _ {V : Type 0} (host : Host V) (deny review : List String) where
  -- A rule of the service denies the request; or it permits it and a human must confirm, or not.
  abbrev pub verdict_for : EvaluationRequest → Verdict
  verdict_for r =
      if permits host deny r.subject.id r.action.name r.resource.id
      then if mem r.resource.id review then human_review else allow
      else block

  abbrev resource_fields : Runtime → EvaluationRequest → Fields
  resource_fields rt r = field "type" (str r.resource.type) (
      field "id" (str r.resource.id)
        (field "properties" (obj (rt.dump_dict r.resource.properties)) end))

  -- What the service says of a request.
  decision_lem :
      (rt : Runtime) (r : EvaluationRequest)
      → decision host deny review (obj (dump_request rt r)) null
        ≡ decided host deny review
            (obj (resource_fields rt r))
            (permits host deny r.subject.id r.action.name r.resource.id)
  unfolding decision dump_request
  decision_lem rt r = refl

  -- The response that comes of it, and the verdict of that response.
  response_for :
      (rt : Runtime) (r : EvaluationRequest) (v : Value) (x : EvaluationResponse)
      → decision host deny review (obj (dump_request rt r)) null ≡ ok v
      → validate_response v ≡ some x
      → (allowed : Bool) × (needed : Bool) × (x ≡ response allowed needed)
        × (map_single allowed needed ≡ verdict_for r)
  unfolding get map_single
  response_for rt r v x d h =
      let said = sym (decision_lem rt r) ∙ d in
      elim (Bool-cases (permits host deny r.subject.id r.action.name r.resource.id)) [
        | inl p ↦
            let listed = mem r.resource.id review in
            let value : obj (decision_with true listed) ≡ v = ok-injective (rw p at said) in
            (
              true,
              listed,
              some-injective (
                  sym h
                  ∙ ap validate_response (sym value)
                  ∙ validate_response-decision_with true listed),
              rw p (ground arith),
            )
        | inr p ↦
            let value : obj (decision_with false false) ≡ v = ok-injective (rw p at said) in
            (
              false,
              false,
              some-injective (
                  sym h
                  ∙ ap validate_response (sym value)
                  ∙ validate_response-decision_with false false),
              rw p refl,
            )
      ]

  module _ {W : Type 0} (e : Engine W)
      (reviewed : e.review ≡ some (λ context. ok (needs_review context))) where
    ask_review-response :
        (allowed needed : Bool)
        → ask_review e
            (some (λ context. ok (needs_review context)))
            (response allowed needed).context
          ≡ ok needed
    unfolding needs_review
    ask_review-response allowed true = refl
    ask_review-response allowed false = refl

    settle_single-response :
        (key : String) (allowed needed : Bool) (s : State W)
        → (settle_single e key (response allowed needed) s).0
          ≡ ok (clean (map_single allowed needed))
    unfolding settle_single wants_review
    settle_single-response key allowed needed s =
        rw (reviewed, ask_review-response allowed needed) refl

    -- What the engine makes of the answer to a request that is not in its cache, with
    -- `_needs_review` as its predicate and this decision service behind its client: a BLOCK if a rule
    -- denies the request, and if not a HUMAN_REVIEW if the resource is listed for review, and an
    -- ALLOW if it is not.
    pub decide_single-verdict_for :
        (key : String) (r : EvaluationRequest) (s : State W) (v : Value) (x : EvaluationResponse)
        → (e.client.evaluate r s.world).0 ≡ ok x
        → decision host deny review (obj (dump_request e.runtime r)) null ≡ ok v
        → validate_response v ≡ some x
        → (decide_single e key r s).0 ≡ ok (clean (verdict_for r))
    unfolding decide_single ask
    decide_single-verdict_for key r s v x answered said read =
        let (allowed, needed, same, verdict) = response_for e.runtime r v x said read in
        rw (answered, same, settle_single-response key allowed needed _, verdict) refl
