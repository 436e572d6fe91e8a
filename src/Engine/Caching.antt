-- ===== src/Engine/Caching.antt =====
-- What the engine writes to its cache: an ALLOW of the decision service, and nothing else.
use apparitor.Prelude.{
  ℕ, ◌≡◌, refl, String, Bool, true, Option, none, some, List, [], ◌∷◌, arith, inl, inr, ◌⊎◌, eq_iff,
}
use apparitor.Cache.{DecisionCache}
use apparitor.Cache.Bounds.{IsValid, get-IsValid, set_allow-IsValid}
use apparitor.Cache.History.{lookup-get, lookup-set_allow}
use apparitor.Decision.{Verdict, VerdictResult, allow, map_single}
use apparitor.Dict.{lookup}
use apparitor.Engine.Base.{
  Engine, State, decision_cache_key, wants_review, record_cancelled, fault_verdict, emit,
}
use apparitor.Engine.Entry.{judge, evaluate_requests}
use apparitor.Engine.Evaluate.{
  lookup_cache, by_hit, store_allow, settle_single, decide_single, evaluate_single, evaluate_batch,
  log_denied, evaluate, evaluate_guarded, count_cancelled,
}
use apparitor.Exec.{Exec, after}
use apparitor.Models.{EvaluationRequest, EvaluationResponse}
use apparitor.Result.{Result, ok, raise, cancelled, handle}

-- The invariant of the cache, if there is one.
abbrev pub CacheIsValid : Option DecisionCache → Type 0
CacheIsValid none = Unit
CacheIsValid (some c) = IsValid c

-- The expiry at a key.
abbrev pub cached : String → Option DecisionCache → Option ℕ
cached k none = none
cached k (some c) = lookup k c.entries

module _ {W : Type 0} (e : Engine W) where
  abbrev at : Option DecisionCache → W → State W
  at cache w = record { cache = cache; world = w }

  lookup_cache-cached :
      (key k : String) (cache : Option DecisionCache) (w : W) (x : ℕ)
      → CacheIsValid cache
      → CacheIsValid (lookup_cache e key (at cache w)).1.cache
        × (cached k (lookup_cache e key (at cache w)).1.cache ≡ some x → cached k cache ≡ some x)
  unfolding lookup_cache
  lookup_cache-cached key k none w x v = (tt, λ h. h)
  lookup_cache-cached key k (some c) w x v =
      (get-IsValid (e.monotonic w) key c v, λ h. lookup-get (e.monotonic w) k key c x v h)

  store_allow-cached :
      (verdict : Verdict) (key k : String) (cache : Option DecisionCache) (w : W) (x : ℕ)
      → CacheIsValid cache
      → CacheIsValid (store_allow e verdict key (at cache w)).cache
        × (cached k (store_allow e verdict key (at cache w)).cache ≡ some x
            → (cached k cache ≡ some x) ⊎ ((verdict ≡ allow) × (key ≡ k)))
  unfolding store_allow
  store_allow-cached allow key k none w x v = (tt, λ h. inl h)
  store_allow-cached allow key k (some c) w x v = (
    set_allow-IsValid (e.monotonic w) key none c v,
    λ h. elim (lookup-set_allow (e.monotonic w) key k none c x v h) [
      | inl (hit, fresh) ↦ inr (refl, ground (arith, eq_iff key k, hit))
      | inr (miss, before) ↦ inl before
    ],
  )
  store_allow-cached _ key k cache w x v = (v, λ h. inl h)

  module _ (key k : String) (x : ℕ) where
    -- After an evaluation the cache is valid, and an expiry at `k` was there before or is that of an
    -- ALLOW, the outcome of the evaluation, under its key.
    abbrev pub Writes : Option DecisionCache → Result VerdictResult × State W → Type 0
    Writes cache (r, s) =
        CacheIsValid s.cache
        × (cached k s.cache ≡ some x
            → (cached k cache ≡ some x)
              ⊎ ((v : VerdictResult) × (r ≡ ok v) × (v.verdict ≡ allow) × (key ≡ k)))

    Writes-after :
        {A : Type 0} (r : Result A) (f : A → Exec (State W) VerdictResult)
        (cache : Option DecisionCache) (w : W)
        → CacheIsValid cache
        → ((a : A) → Writes cache (f a (at cache w)))
        → Writes cache (after r f (at cache w))
    Writes-after (ok a) f cache w v h = h a
    Writes-after (raise exc) f cache w v h = (v, λ p. inl p)
    Writes-after cancelled f cache w v h = (v, λ p. inl p)

    settle_single-Writes :
        (response : EvaluationResponse) (cache : Option DecisionCache) (w : W)
        → CacheIsValid cache
        → Writes cache (settle_single e key response (at cache w))
    unfolding settle_single
    settle_single-Writes response cache w v =
        Writes-after (wants_review e response.context) _ cache w v λ review.
          let (valid, from) =
            store_allow-cached (map_single response.decision review) key k cache w x v in
          (valid, λ h. elim (from h) [ inl p ↦ inl p | inr (a, q) ↦ inr (_, refl, a, q) ])

    decide_single-Writes :
        (r : EvaluationRequest) (cache : Option DecisionCache) (w : W)
        → CacheIsValid cache
        → Writes cache (decide_single e key r (at cache w))
    unfolding decide_single
    decide_single-Writes r cache w v =
        Writes-after (e.client.evaluate r w).0 (settle_single e key) cache (e.client.evaluate r w).1
          v λ response. settle_single-Writes response cache (e.client.evaluate r w).1 v

    by_hit-Writes :
        (r : EvaluationRequest) (hit : Option Bool) (cache : Option DecisionCache) (w : W)
        → CacheIsValid cache
        → Writes cache (by_hit e key r hit (at cache w))
    unfolding by_hit
    by_hit-Writes r (some true) cache w v = (v, λ p. inl p)
    by_hit-Writes r _ cache w v = decide_single-Writes r cache w v

    -- Whatever was kept from an earlier cache was there before.
    Writes-mono :
        (old new : Option DecisionCache) (out : Result VerdictResult × State W)
        → (cached k new ≡ some x → cached k old ≡ some x)
        → Writes new out
        → Writes old out
    Writes-mono old new out kept (valid, from) =
        (valid, λ h. elim (from h) [ inl p ↦ inl (kept p) | inr q ↦ inr q ])

  evaluate_single-Writes :
      (r : EvaluationRequest) (k : String) (x : ℕ) (cache : Option DecisionCache) (w : W)
      → CacheIsValid cache
      → Writes (decision_cache_key e.runtime r) k x cache (evaluate_single e r (at cache w))
  unfolding evaluate_single
  evaluate_single-Writes r k x cache w v =
      let key = decision_cache_key e.runtime r in
      let looked = lookup_cache e key (at cache w) in
      let (valid, kept) = lookup_cache-cached key k cache w x v in
      Writes-mono key k x cache looked.1.cache (evaluate_single e r (at cache w)) kept (
        Writes-after key k x looked.0 (by_hit e key r) looked.1.cache looked.1.world valid
          λ hit. by_hit-Writes key k x r hit looked.1.cache looked.1.world valid)

  -- A batch neither reads nor writes the cache.
  evaluate_batch-cache :
      (requests : List EvaluationRequest) (s : State W)
      → (evaluate_batch e requests s).1.cache ≡ s.cache
  unfolding evaluate_batch log_denied
  evaluate_batch-cache requests s = ground arith

  -- The same for requests: only the single one of a list of one is ever written.
  abbrev WritesFor :
      List EvaluationRequest
      → String
      → ℕ
      → Option DecisionCache
      → Result VerdictResult × State W
      → Type 0
  WritesFor requests k x cache (r, s) =
      CacheIsValid s.cache
      × (cached k s.cache ≡ some x
          → (cached k cache ≡ some x)
            ⊎ ((q : EvaluationRequest) × (v : VerdictResult) × (requests ≡ q ∷ [])
                × (r ≡ ok v)
                × (v.verdict ≡ allow)
                × (decision_cache_key e.runtime q ≡ k)))

  batch-WritesFor :
      (requests : List EvaluationRequest) (k : String) (x : ℕ) (s : State W)
      → CacheIsValid s.cache
      → WritesFor requests k x s.cache (evaluate_batch e requests s)
  batch-WritesFor requests k x s v = rw evaluate_batch-cache (v, λ h. inl h)

  evaluate-WritesFor :
      (requests : List EvaluationRequest) (k : String) (x : ℕ) (s : State W)
      → CacheIsValid s.cache
      → WritesFor requests k x s.cache (evaluate e requests s)
  unfolding evaluate
  evaluate-WritesFor [] k x s v = batch-WritesFor [] k x s v
  evaluate-WritesFor (r ∷ []) k x s v =
      let (valid, from) = evaluate_single-Writes r k x s.cache s.world v in
      (valid, λ h. elim (from h) [ inl p ↦ inl p | inr (u, o, a, q) ↦ inr (r, u, refl, o, a, q) ])
  evaluate-WritesFor (r ∷ q ∷ rs) k x s v = batch-WritesFor (r ∷ q ∷ rs) k x s v

  -- The fault table and the counting of a cancellation write nothing.
  handle-WritesFor :
      (requests : List EvaluationRequest) (k : String) (x : ℕ) (cache : Option DecisionCache)
      (r : Result VerdictResult) (s : State W)
      → WritesFor requests k x cache (r, s)
      → WritesFor requests k x cache (handle (fault_verdict e) r, count_cancelled e r s)
  unfolding record_cancelled
  handle-WritesFor requests k x cache (ok v) s h = h
  handle-WritesFor requests k x cache (raise exc) s (valid, from) =
      (valid, λ h. elim (from h) [ inl p ↦ inl p | inr (q, v, is, o, a, key) ↦ cc ])
  handle-WritesFor requests k x cache cancelled s h = h

  evaluate_guarded-WritesFor :
      (requests : List EvaluationRequest) (k : String) (x : ℕ) (s : State W)
      → CacheIsValid s.cache
      → WritesFor requests k x s.cache (evaluate_guarded e requests s)
  unfolding evaluate_guarded
  evaluate_guarded-WritesFor requests k x s v =
      handle-WritesFor requests k x s.cache (evaluate e requests s).0 (evaluate e requests s).1
        (evaluate-WritesFor requests k x s v)

  -- The timing and the metrics of an entry point change neither the outcome nor the cache.
  evaluate_requests-guarded :
      (r : EvaluationRequest) (rs : List EvaluationRequest) (s : State W)
      → ((evaluate_requests e (r ∷ rs) s).0 ≡ (evaluate_guarded e (r ∷ rs) s).0)
        × ((evaluate_requests e (r ∷ rs) s).1.cache ≡ (evaluate_guarded e (r ∷ rs) s).1.cache)
  unfolding evaluate_requests judge emit
  evaluate_requests-guarded r rs s = ground arith

  evaluate_requests-WritesFor :
      (requests : List EvaluationRequest) (k : String) (x : ℕ) (s : State W)
      → CacheIsValid s.cache
      → WritesFor requests k x s.cache (evaluate_requests e requests s)
  evaluate_requests-WritesFor [] k x s v = unfold evaluate_requests in (v, λ h. inl h)
  evaluate_requests-WritesFor (r ∷ rs) k x s v =
      let (outcome, cache) = evaluate_requests-guarded r rs s in
      rw (outcome, cache) (evaluate_guarded-WritesFor (r ∷ rs) k x s v)

  -- What is in the cache at a key after an evaluation of requests, if it was valid before: the cache
  -- had the same expiry there before, or there was a single request, its outcome is ALLOW, and the
  -- key is the key of this request; a deny, a review, an error, a cancellation and a batch add
  -- nothing. The cache is still valid.
  pub evaluate_requests-cached :
      (requests : List EvaluationRequest) (k : String) (x : ℕ) (s : State W)
      → CacheIsValid s.cache
      → cached k (evaluate_requests e requests s).1.cache ≡ some x
      → CacheIsValid (evaluate_requests e requests s).1.cache
        × ((cached k s.cache ≡ some x)
            ⊎ ((q : EvaluationRequest) × (v : VerdictResult) × (requests ≡ q ∷ [])
                × ((evaluate_requests e requests s).0 ≡ ok v)
                × (v.verdict ≡ allow)
                × (decision_cache_key e.runtime q ≡ k)))
  evaluate_requests-cached requests k x s valid there =
      let (still, source) = evaluate_requests-WritesFor requests k x s valid in
      (still, source there)
