-- ===== src/Engine/Evaluate.antt =====
-- engine.py: the evaluation of requests that are built, `_evaluate_single` to `_evaluate_guarded`.
use apparitor.Prelude.{
  String, Bool, true, false, Option, none, some, List, [], ◌∷◌, map, length, if◌then◌else◌,
}
use apparitor.Cache
use apparitor.Cache.{DecisionCache}
use apparitor.Decision.{
  Verdict, VerdictResult, allow, human_review, success, escalate, map_single, aggregate,
}
use apparitor.Engine.Base.{
  Engine, State, denied_legs, cached_reason, clean, to_batch, decision_cache_key, fault_verdict,
  wants_review, record_cache, record_cancelled, ask, set_world,
}
use apparitor.Exec.{Exec, pure, lift, ◌>>=◌}
use apparitor.Models.{EvaluationRequest, EvaluationResponse}
use apparitor.Result
use apparitor.Result.{Result, ok, raise, cancelled, value_error, unexpected, handle}

-- `bool(hit)`
abbrev pub is_hit : Option Bool → Bool
is_hit none = false
is_hit (some b) = b

module _ {W : Type 0} (e : Engine W) where
  -- The cache's answer for a key, counted; without a cache there is neither.
  unfoldable pub lookup_in : Option DecisionCache → String → Exec (State W) (Option Bool)
  lookup_in none key s = (ok none, s)
  lookup_in (some c) key s =
      let (hit, c') = Cache.get (e.monotonic s.world) key c in
      (ok hit, record_cache e (is_hit hit) (record s { cache = some c' }))

  unfoldable pub lookup_cache : String → Exec (State W) (Option Bool)
  unfolding lookup_in record_cache Cache.get
  lookup_cache key s = lookup_in s.cache key s

  unfoldable pub store_in : Option DecisionCache → String → State W → State W
  store_in none key s = s
  store_in (some c) key s = record s {
    cache = some (Cache.set_allow (e.monotonic s.world) key none c);
  }

  -- `if verdict is ALLOW and self._cache is not None: self._cache.set_allow(key)`
  unfoldable pub store_allow : Verdict → String → State W → State W
  unfolding store_in Cache.set_allow
  store_allow allow key s = store_in s.cache key s
  store_allow _ key s = s

  -- The verdict for a response; an ALLOW is stored under the key.
  unfoldable pub settle_single : String → EvaluationResponse → Exec (State W) VerdictResult
  unfolding wants_review map_single store_allow
  settle_single key response = do
    review ← lift (wants_review e response.context)
    let verdict = map_single response.decision review
    λ s. (ok (clean verdict), store_allow verdict key s)

  -- What follows a miss.
  unfoldable pub decide_single : String → EvaluationRequest → Exec (State W) VerdictResult
  unfolding ask settle_single
  decide_single key request = ask e (e.client.evaluate request) >>= settle_single key

  -- A hit ends the evaluation.
  unfoldable pub by_hit : String → EvaluationRequest → Option Bool → Exec (State W) VerdictResult
  unfolding decide_single
  by_hit key request (some true) =
      pure (record { verdict = allow; reason = cached_reason; status = success })
  by_hit key request _ = decide_single key request

  unfoldable pub evaluate_single : EvaluationRequest → Exec (State W) VerdictResult
  unfolding lookup_cache by_hit decision_cache_key
  evaluate_single request =
      let key = decision_cache_key e.runtime request in lookup_cache key >>= by_hit key request

  -- The requests whose item is a deny. `zip` with `strict=True` raises on different lengths.
  unfoldable pub denied :
      List EvaluationRequest
      → List EvaluationResponse
      → Result (List (String × String × String × String))
  denied [] [] = ok []
  denied (r ∷ rs) (x ∷ xs) = Result.◌>>=◌ (denied rs xs) λ rest. ok (
      if x.decision
      then rest
      else (r.subject.type, r.subject.id, r.action.name, r.resource.id) ∷ rest)
  denied _ _ = raise value_error

  -- `any(self._wants_review(item.context) for item in items)`: the first true one ends it.
  unfoldable pub any_review : List EvaluationResponse → Result Bool
  unfolding wants_review
  any_review [] = ok false
  any_review (x ∷ xs) =
      let rest = any_review xs in
      Result.◌>>=◌ (wants_review e x.context) λ b. elim b [ true ↦ ok true | false ↦ rest ]

  -- The denied legs are named in the log unless the verdict is ALLOW. What the logger raises here is
  -- not caught.
  unfoldable pub log_denied :
      Verdict → List EvaluationRequest → List EvaluationResponse → Exec (State W) (Unit {0})
  unfolding denied
  log_denied allow requests items = pure tt
  log_denied verdict requests items = do
    legs ← lift (denied requests items)
    λ s.
        let (logged, w) = e.log (denied_legs legs) s.world in
        (if logged then ok tt else raise unexpected, set_world e w s)

  -- What follows the response: the aggregate, its log, and the review of each item.
  unfoldable pub settle_batch :
      List EvaluationRequest → List EvaluationResponse → Exec (State W) VerdictResult
  unfolding log_denied any_review aggregate escalate
  settle_batch requests items = do
    let verdict = aggregate (map (λ item. item.decision) items) (length requests)
    _ ← log_denied verdict requests items
    review ← lift (any_review items)
    pure (clean (if review then escalate verdict human_review else verdict))

  unfoldable pub evaluate_batch : List EvaluationRequest → Exec (State W) VerdictResult
  unfolding ask settle_batch to_batch
  evaluate_batch requests = do
    response ← ask e (e.client.evaluate_batch (to_batch requests))
    settle_batch requests response.evaluations

  unfoldable pub evaluate : List EvaluationRequest → Exec (State W) VerdictResult
  unfolding evaluate_single evaluate_batch
  evaluate (r ∷ []) = evaluate_single r
  evaluate requests = evaluate_batch requests

  -- A cancellation is counted before it passes.
  abbrev pub count_cancelled : Result VerdictResult → State W → State W
  count_cancelled cancelled s = record_cancelled e s
  count_cancelled r s = s

  unfoldable pub evaluate_guarded : List EvaluationRequest → Exec (State W) VerdictResult
  unfolding evaluate record_cancelled fault_verdict
  evaluate_guarded requests s =
      let (r, s') = evaluate requests s in (handle (fault_verdict e) r, count_cancelled r s')
