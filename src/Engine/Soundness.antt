-- ===== src/Engine/Soundness.antt =====
-- What an ALLOW of the engine proves.
use apparitor.Prelude.{
  ℕ, ◌<◌, ◌≡◌, refl, String, Bool, true, false, none, some, List, [], ◌∷◌, map, length, length-map,
  All, all, arith, inl, inr, ◌⊎◌, Bool-cases, Option-cases, leb, ◌∙◌,
}
use apparitor.Cache.{DecisionCache}
use apparitor.Decision.{VerdictResult, allow, aggregate, resolve_error}
use apparitor.Dict.{lookup}
use apparitor.Engine.Base.{
  Engine, State, to_batch, decision_cache_key, wants_review, fault_verdict, timed,
}
use apparitor.Engine.Evaluate.{
  lookup_cache, decide_single, evaluate_single, evaluate_batch, evaluate, evaluate_guarded,
  any_review, settle_batch, settle_single,
}
use apparitor.Engine.Entry.{judge, evaluate_requests}
use apparitor.Exec.{Exec, after-ok}
use apparitor.Models.{EvaluationRequest, EvaluationResponse, BatchEvaluationResponse}
use apparitor.Result.{Result, ok, raise, cancelled, handle}

module _ {W : Type 0} (e : Engine W) where
  -- A response that lets its request pass: an allow that no reviewer wants to see.
  abbrev pub Passes : EvaluationResponse → Type 0
  Passes x = (x.decision ≡ true) × (wants_review e x.context ≡ ok false)

  -- The grounds on which a list of requests may be allowed in a state: one request with an ALLOW in
  -- the cache that has not expired; one request that the decision service passes; or a batch that it
  -- answers with as many responses as there are requests, all of which pass.
  pub data Granted (requests : List EvaluationRequest) (s : State W) : Type 0 where
    from_cache :
        (r : EvaluationRequest) (c : DecisionCache) (expiry : ℕ)
        → requests ≡ r ∷ []
        → s.cache ≡ some c
        → lookup (decision_cache_key e.runtime r) c.entries ≡ some expiry
        → e.monotonic s.world < expiry
        → Granted requests s
    from_service :
        (r : EvaluationRequest) (x : EvaluationResponse)
        → requests ≡ r ∷ []
        → (e.client.evaluate r (lookup_cache e (decision_cache_key e.runtime r) s).1.world).0 ≡ ok x
        → Passes x
        → Granted requests s
    from_batch :
        (response : BatchEvaluationResponse)
        → (e.client.evaluate_batch (to_batch requests) s.world).0 ≡ ok response
        → length response.evaluations ≡ length requests
        → All Passes response.evaluations
        → Granted requests s

  aggregate-allow :
      (ds : List Bool) (n : ℕ) → aggregate ds n ≡ allow → (length ds ≡ n) × (all ds ≡ true)
  unfolding aggregate
  aggregate-allow ds n h = ground arith

  -- Under a batch that is allowed and that nobody wants to review, every response passes.
  all-Passes :
      (xs : List EvaluationResponse)
      → all (map (λ x. x.decision) xs) ≡ true
      → any_review e xs ≡ ok false
      → All Passes xs
  unfolding any_review
  all-Passes [] h k = tt
  all-Passes (x ∷ xs) h k = ground (arith, all-Passes xs)

  settle_batch-allow :
      (requests : List EvaluationRequest) (items : List EvaluationResponse) (s : State W)
      (v : VerdictResult)
      → (settle_batch e requests items s).0 ≡ ok v
      → v.verdict ≡ allow
      → (aggregate (map (λ x. x.decision) items) (length requests) ≡ allow)
        × (any_review e items ≡ ok false)
  unfolding settle_batch
  settle_batch-allow requests items s v h a = ground arith

  length-decisions : (xs : List EvaluationResponse) → length (map (λ x. x.decision) xs) ≡ length xs
  length-decisions xs = length-map (λ x. x.decision) xs

  evaluate_batch-Granted :
      (requests : List EvaluationRequest) (s : State W) (v : VerdictResult)
      → (evaluate_batch e requests s).0 ≡ ok v
      → v.verdict ≡ allow
      → Granted requests s
  unfolding evaluate_batch
  evaluate_batch-Granted requests s v h a =
      let (response, asked, h₁) =
        after-ok (e.client.evaluate_batch (to_batch requests) s.world).0 _ _ h in
      let items = response.evaluations in
      let (passed, unreviewed) = settle_batch-allow requests items _ v h₁ a in
      let (as_many, every) =
        aggregate-allow (map (λ x. x.decision) items) (length requests) passed in
      from_batch response asked (rw length-decisions at as_many) (all-Passes items every unreviewed)

  settle_single-Passes :
      (key : String) (x : EvaluationResponse) (s : State W) (v : VerdictResult)
      → (settle_single e key x s).0 ≡ ok v
      → v.verdict ≡ allow
      → Passes x
  unfolding settle_single
  settle_single-Passes key x s v h a = ground arith

  -- An allowed single decision was passed by the service.
  decide_single-Passes :
      (key : String) (r : EvaluationRequest) (s : State W) (v : VerdictResult)
      → (decide_single e key r s).0 ≡ ok v
      → v.verdict ≡ allow
      → (x : EvaluationResponse) × ((e.client.evaluate r s.world).0 ≡ ok x) × Passes x
  unfolding decide_single
  decide_single-Passes key r s v h a =
      let (x, asked, h₁) = after-ok (e.client.evaluate r s.world).0 _ _ h in
      (x, asked, settle_single-Passes key x _ v h₁ a)

  -- The cache has an ALLOW that has not expired, or the lookup misses.
  lookup_cache-cases :
      (key : String) (s : State W)
      → ((c : DecisionCache) × (expiry : ℕ) × (s.cache ≡ some c)
          × (lookup key c.entries ≡ some expiry)
          × (e.monotonic s.world < expiry))
        ⊎ ((lookup_cache e key s).0 ≡ ok none)
  unfolding lookup_cache
  lookup_cache-cases key s = elim (Option-cases s.cache) [
    | inl off ↦ inr (ground arith)
    | inr (c, on) ↦ elim (Option-cases (lookup key c.entries)) [
      | inl miss ↦ inr (ground arith)
      | inr (expiry, there) ↦ elim (Bool-cases (leb expiry (e.monotonic s.world))) [
        | inl late ↦ inr (ground arith)
        | inr fresh ↦ inl (c, expiry, on, there, ground arith)
      ]
    ]
  ]

  evaluate_single-Granted :
      (r : EvaluationRequest) (s : State W) (v : VerdictResult)
      → (evaluate_single e r s).0 ≡ ok v
      → v.verdict ≡ allow
      → Granted (r ∷ []) s
  unfolding evaluate_single
  evaluate_single-Granted r s v h a =
      let key = decision_cache_key e.runtime r in
      elim (lookup_cache-cases key s) [
        | inl (c, expiry, on, there, fresh) ↦ from_cache r c expiry refl on there fresh
        | inr miss ↦
            let (x, asked, passed) = decide_single-Passes key r _ v (rw miss at h) a in
            from_service r x refl asked passed
      ]

  evaluate-Granted :
      (requests : List EvaluationRequest) (s : State W) (v : VerdictResult)
      → (evaluate e requests s).0 ≡ ok v
      → v.verdict ≡ allow
      → Granted requests s
  unfolding evaluate
  evaluate-Granted [] s v h a = evaluate_batch-Granted [] s v h a
  evaluate-Granted (r ∷ []) s v h a = evaluate_single-Granted r s v h a
  evaluate-Granted (r ∷ q ∷ rs) s v h a = evaluate_batch-Granted (r ∷ q ∷ rs) s v h a

  -- A verdict that is allowed is none of the fault table.
  handle-allow :
      (r : Result VerdictResult) (v : VerdictResult)
      → handle (fault_verdict e) r ≡ ok v
      → v.verdict ≡ allow
      → r ≡ ok v
  unfolding fault_verdict resolve_error
  handle-allow (ok u) v h a = h
  handle-allow (raise exc) v h a = absurd (ground arith)
  handle-allow cancelled v h a = h

  evaluate_guarded-Granted :
      (requests : List EvaluationRequest) (s : State W) (v : VerdictResult)
      → (evaluate_guarded e requests s).0 ≡ ok v
      → v.verdict ≡ allow
      → Granted requests s
  unfolding evaluate_guarded
  evaluate_guarded-Granted requests s v h a =
      evaluate-Granted requests s v (handle-allow (evaluate e requests s).0 v h a) a

  pub judge-Granted :
      (requests : List EvaluationRequest) (s : State W) (v : VerdictResult)
      (rs : List EvaluationRequest)
      → (judge e requests s).0 ≡ ok (v, rs)
      → v.verdict ≡ allow
      → Granted requests s
  unfolding judge
  judge-Granted requests s v rs h a =
      let (u, judged, h₁) = after-ok (evaluate_guarded e requests s).0 _ _ h in
      evaluate_guarded-Granted requests s v (ground (arith, judged, h₁)) a

  pub timed-ok :
      (run : Exec (State W) (VerdictResult × List EvaluationRequest)) (s : State W)
      (v : VerdictResult)
      → (timed e run s).0 ≡ ok v
      → (rs : List EvaluationRequest) × ((run s).0 ≡ ok (v, rs))
  timed-ok run s v h =
      let (p, ran, h₁) = after-ok (run s).0 _ _ h in (p.1, ran ∙ ground (arith, h₁))

  -- An ALLOW for requests, in any state, has one of the grounds: every request was passed by the
  -- decision service, or the only one has a live ALLOW in the cache.
  pub evaluate_requests-Granted :
      (requests : List EvaluationRequest) (s : State W) (v : VerdictResult)
      → (evaluate_requests e requests s).0 ≡ ok v
      → v.verdict ≡ allow
      → Granted requests s
  unfolding evaluate_requests
  evaluate_requests-Granted [] s v h a = absurd (ground arith)
  evaluate_requests-Granted (r ∷ rs) s v h a =
      let (qs, judged) = timed-ok (judge e (r ∷ rs)) s v h in judge-Granted (r ∷ rs) s v qs judged a
