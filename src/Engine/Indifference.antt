-- ===== src/Engine/Indifference.antt =====
-- engine.py: telemetry changes no step behind the entry points.
use apparitor.Prelude.{
  if◌then◌else◌, ℕ, String, ◌≡◌, refl, Bool, true, false, Option, none, some, List, [], ◌∷◌, ap,
  sym, subst, ◌∙◌,
}
use apparitor.Cache
use apparitor.Cache.{DecisionCache}
use apparitor.Decision.{Verdict, VerdictResult, allow, human_review, block, skip}
use apparitor.Engine.Base.{
  Engine, State, LogRecord, to_batch, record_cache, record_cancelled, ask, wants_review,
  fault_verdict,
}
use apparitor.Engine.Evaluate.{
  lookup_in, lookup_cache, store_in, store_allow, settle_single, decide_single, by_hit,
  evaluate_single, denied, log_denied, any_review, settle_batch, evaluate_batch, evaluate,
  evaluate_guarded, count_cancelled,
}
use apparitor.Engine.Telemetry.{rewire, LeavesAlone, SeesOnly, Same, Alike, lift-Alike, >>=-Alike}
use apparitor.Exec.{Exec, lift}
use apparitor.Metrics.{MetricsSink}
use apparitor.Models.{EvaluationRequest, EvaluationResponse}
use apparitor.Result
use apparitor.Result.{Exception, Result, ok, raise, cancelled, unexpected, handle}

module _ {W C : Type 0} (view : W → C) (e : Engine W) (metrics : MetricsSink W)
    (log : LogRecord → W → Bool × W) (perf_counter : W → ℕ) (sees : SeesOnly view e)
    (quiet : LeavesAlone view e)
    (quiet' : LeavesAlone view (rewire e metrics log perf_counter)) where
  abbrev pub e' : Engine W
  e' = rewire e metrics log perf_counter

  pub ask-Alike :
      {A : Type 0} (call : Exec W A)
      → ((w w' : W)
          → view w ≡ view w'
          → ((call w).0 ≡ (call w').0) × (view (call w).1 ≡ view (call w').1))
      → Alike view (ask e call) (ask e' call)
  unfolding ask
  ask-Alike call h s s' same =
      let (r, kept) = h s.world s'.world same.world in
      (r, record { cache = same.cache; world = kept })

  lookup_in-Alike :
      (c : Option DecisionCache) (key : String)
      → Alike view (lookup_in e c key) (lookup_in e' c key)
  unfolding lookup_in record_cache
  lookup_in-Alike none key s s' same = (refl, same)
  lookup_in-Alike (some c) key s s' same =
      let now = sees.reads_clock s.world s'.world same.world in
      (
        ap (λ t. ok (Cache.get t key c).0) now,
        record {
          cache = ap (λ t. some (Cache.get t key c).1) now;
          world = quiet.counts_cache _ s.world ∙ same.world ∙ sym (quiet'.counts_cache _ s'.world);
        },
      )

  lookup_cache-Alike : (key : String) → Alike view (lookup_cache e key) (lookup_cache e' key)
  unfolding lookup_cache
  lookup_cache-Alike key s s' same =
      subst
        (λ c.
          ((lookup_in e s.cache key s).0 ≡ (lookup_in e' c key s').0)
          × Same view (lookup_in e s.cache key s).1 (lookup_in e' c key s').1)
        same.cache (lookup_in-Alike s.cache key s s' same)

  store_in-Same :
      (c : Option DecisionCache) (key : String) (s s' : State W)
      → Same view s s'
      → Same view (store_in e c key s) (store_in e' c key s')
  unfolding store_in
  store_in-Same none key s s' same = same
  store_in-Same (some c) key s s' same = record {
    cache =
        ap (λ t. some (Cache.set_allow t key none c))
          (sees.reads_clock s.world s'.world same.world);
    world = same.world;
  }

  store_allow-Same :
      (v : Verdict) (key : String) (s s' : State W)
      → Same view s s'
      → Same view (store_allow e v key s) (store_allow e' v key s')
  unfolding store_allow
  store_allow-Same allow key s s' same =
      subst (λ c. Same view (store_in e s.cache key s) (store_in e' c key s')) same.cache
        (store_in-Same s.cache key s s' same)
  store_allow-Same human_review key s s' same = same
  store_allow-Same block key s s' same = same
  store_allow-Same skip key s s' same = same

  settle_single-Alike :
      (key : String) (x : EvaluationResponse)
      → Alike view (settle_single e key x) (settle_single e' key x)
  unfolding settle_single wants_review
  settle_single-Alike key x =
      >>=-Alike view (lift-Alike view (wants_review e x.context))
        (λ review s s' same. (refl, store_allow-Same _ key s s' same))

  decide_single-Alike :
      (key : String) (r : EvaluationRequest)
      → Alike view (decide_single e key r) (decide_single e' key r)
  unfolding decide_single
  decide_single-Alike key r =
      >>=-Alike view (ask-Alike (e.client.evaluate r) (sees.evaluates r)) (settle_single-Alike key)

  by_hit-Alike :
      (key : String) (r : EvaluationRequest) (hit : Option Bool)
      → Alike view (by_hit e key r hit) (by_hit e' key r hit)
  unfolding by_hit
  by_hit-Alike key r (some true) = λ s s' same. (refl, same)
  by_hit-Alike key r (some false) = decide_single-Alike key r
  by_hit-Alike key r none = decide_single-Alike key r

  evaluate_single-Alike :
      (r : EvaluationRequest) → Alike view (evaluate_single e r) (evaluate_single e' r)
  unfolding evaluate_single
  evaluate_single-Alike r = >>=-Alike view (lookup_cache-Alike _) (by_hit-Alike _ r)

  any_review-rewire : (xs : List EvaluationResponse) → any_review e xs ≡ any_review e' xs
  unfolding any_review wants_review
  any_review-rewire [] = refl
  any_review-rewire (x ∷ xs) =
      ap
        (λ rest.
          Result.◌>>=◌ (wants_review e x.context) λ b. elim b [ true ↦ ok true | false ↦ rest ])
        (any_review-rewire xs)

  log_denied-Alike :
      (v : Verdict) (rs : List EvaluationRequest) (xs : List EvaluationResponse)
      → Alike view (log_denied e v rs xs) (log_denied e' v rs xs)
  unfolding log_denied
  log_denied-Alike allow rs xs = lift-Alike view (ok tt)
  log_denied-Alike _ rs xs = >>=-Alike view (lift-Alike view (denied e rs xs)) (λ legs s s' same. (
    ap (λ logged. if logged then ok tt else raise unexpected)
        (quiet.names_legs legs s.world ∙ sym (quiet'.names_legs legs s'.world)),
    record {
      cache = same.cache;
      world = quiet.logs _ s.world ∙ same.world ∙ sym (quiet'.logs _ s'.world);
    },
  ))

  settle_batch-Alike :
      (rs : List EvaluationRequest) (xs : List EvaluationResponse)
      → Alike view (settle_batch e rs xs) (settle_batch e' rs xs)
  unfolding settle_batch
  settle_batch-Alike rs xs = >>=-Alike view (log_denied-Alike _ rs xs) (λ u.
      >>=-Alike view
        (subst (λ r. Alike view (lift (any_review e xs)) (lift r)) (any_review-rewire xs)
          (lift-Alike view (any_review e xs)))
        (λ review. lift-Alike view _))

  evaluate_batch-Alike :
      (rs : List EvaluationRequest) → Alike view (evaluate_batch e rs) (evaluate_batch e' rs)
  unfolding evaluate_batch
  evaluate_batch-Alike rs =
      >>=-Alike view (ask-Alike (e.client.evaluate_batch (to_batch rs)) (sees.evaluates_batch _))
        (λ x. settle_batch-Alike rs x.evaluations)

  evaluate-Alike : (rs : List EvaluationRequest) → Alike view (evaluate e rs) (evaluate e' rs)
  unfolding evaluate
  evaluate-Alike [] = evaluate_batch-Alike []
  evaluate-Alike (r ∷ []) = evaluate_single-Alike r
  evaluate-Alike (r ∷ q ∷ rs) = evaluate_batch-Alike (r ∷ q ∷ rs)

  pub record_cancelled-Same :
      (s s' : State W) → Same view s s' → Same view (record_cancelled e s) (record_cancelled e' s')
  unfolding record_cancelled
  record_cancelled-Same s s' same = record {
    cache = same.cache;
    world = quiet.counts _ _ _ s.world ∙ same.world ∙ sym (quiet'.counts _ _ _ s'.world);
  }

  fault_verdict-rewire : (exc : Exception) → fault_verdict e exc ≡ fault_verdict e' exc
  unfolding fault_verdict
  fault_verdict-rewire exc = refl

  guarded-Alike :
      (r : Result VerdictResult)
      → Alike view
          (λ s. (handle (fault_verdict e) r, count_cancelled e r s))
          (λ s. (handle (fault_verdict e') r, count_cancelled e' r s))
  guarded-Alike (ok v) = λ s s' same. (refl, same)
  guarded-Alike (raise exc) = λ s s' same. (ap ok (fault_verdict-rewire exc), same)
  guarded-Alike cancelled = λ s s' same. (refl, record_cancelled-Same s s' same)

  pub evaluate_guarded-Alike :
      (rs : List EvaluationRequest) → Alike view (evaluate_guarded e rs) (evaluate_guarded e' rs)
  unfolding evaluate_guarded
  evaluate_guarded-Alike rs s s' same =
      let (r, kept) = evaluate-Alike rs s s' same in
      subst
        (λ r.
          ((handle (fault_verdict e) (evaluate e rs s).0) ≡ handle (fault_verdict e') r)
          × Same view (count_cancelled e (evaluate e rs s).0 (evaluate e rs s).1)
              (count_cancelled e' r (evaluate e' rs s').1))
        r (guarded-Alike (evaluate e rs s).0 (evaluate e rs s).1 (evaluate e' rs s').1 kept)
