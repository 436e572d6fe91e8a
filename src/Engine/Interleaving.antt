-- ===== src/Engine/Interleaving.antt =====
-- engine.py: evaluations of single requests that run at the same time over one cache. Between two
-- awaits nothing else runs, so an evaluation is its look into the cache and, behind the answer of the
-- decision service, the end that `settle_single` is.
use apparitor.Prelude.{
  ℕ, ◌+◌, ◌<◌, ◌≡◌, refl, String, Bool, true, false, Option, none, some, arith, inl, inr, ◌⊎◌,
  eq_iff, subst, sym,
}
use apparitor.Cache.{DecisionCache, get, set_allow, effective_ttl}
use apparitor.Cache.Bounds.{IsValid, get-IsValid, set_allow-IsValid}
use apparitor.Cache.History.{lookup-get, lookup-set_allow, get-hit}
use apparitor.Decision.{allow, map_single}
use apparitor.Engine.Base.{Engine, State, clean, ask, wants_review, set_world, decision_cache_key}
use apparitor.Engine.Caching.{cached}
use apparitor.Engine.Evaluate.{
  lookup_cache, store_allow, settle_single, evaluate_single, by_hit, decide_single,
}
use apparitor.Engine.Soundness.{Passes}
use apparitor.Exec.{after, after-state}
use apparitor.Models.{EvaluationRequest, EvaluationResponse}
use apparitor.Result.{Result, ok, raise, cancelled, ok-injective}

-- A cache with this lifetime of its entries, if there is one.
abbrev pub IsSound : ℕ → Option DecisionCache → Type 0
IsSound ttl none = Unit
IsSound ttl (some c) = IsValid c × (c.ttl ≡ ttl)

module _ {W : Type 0} (e : Engine W) where
  -- The states that interleaved evaluations lead to: an evaluation looks into the cache, an answer
  -- to one arrives, or something else changes the world.
  pub data Interleaved (s₀ : State W) : State W → Type 0 where
    begins : Interleaved s₀ s₀
    looks :
        {s : State W} (key : String) → Interleaved s₀ s → Interleaved s₀ (lookup_cache e key s).1
    hears :
        {s : State W} (key : String) (x : EvaluationResponse)
        → Interleaved s₀ s
        → Interleaved s₀ (settle_single e key x s).1
    elsewhere : {s : State W} (w : W) → Interleaved s₀ s → Interleaved s₀ (set_world e w s)

  -- An answer that passes has arrived for the key, so long before the time `expiry`.
  abbrev pub Heard : ℕ → String → ℕ → {s₀ s : State W} → Interleaved s₀ s → Type 0
  Heard ttl key expiry begins = ⊥
  Heard ttl key expiry (looks k past) = Heard ttl key expiry past
  Heard ttl key expiry (hears {s} k x past) =
      ((k ≡ key) × Passes e x × (expiry ≡ e.monotonic s.world + ttl)) ⊎ Heard ttl key expiry past
  Heard ttl key expiry (elsewhere w past) = Heard ttl key expiry past

  abbrev at : Option DecisionCache → W → State W
  at cache w = record { cache = cache; world = w }

  lookup_cache-IsSound :
      (ttl : ℕ) (key : String) (c : Option DecisionCache) (w : W)
      → IsSound ttl c
      → IsSound ttl (lookup_cache e key (at c w)).1.cache
        × ((k : String) (p : ℕ)
            → cached k (lookup_cache e key (at c w)).1.cache ≡ some p
            → cached k c ≡ some p)
  unfolding lookup_cache
  lookup_cache-IsSound ttl key none w sound = (tt, λ k p h. h)
  lookup_cache-IsSound ttl key (some c) w (valid, lives) = (
    (get-IsValid (e.monotonic w) key c valid, unfold get in ground (arith, lives)),
    λ k p h. lookup-get (e.monotonic w) k key c p valid h,
  )

  store_allow-IsSound :
      (ttl : ℕ) (key : String) (c : Option DecisionCache) (w : W)
      → IsSound ttl c
      → IsSound ttl (store_allow e allow key (at c w)).cache
        × ((k : String) (p : ℕ)
            → cached k (store_allow e allow key (at c w)).cache ≡ some p
            → (cached k c ≡ some p) ⊎ ((key ≡ k) × (p ≡ e.monotonic w + ttl)))
  unfolding store_allow
  store_allow-IsSound ttl key none w sound = (tt, λ k p h. inl h)
  store_allow-IsSound ttl key (some c) w (valid, lives) = (
    (set_allow-IsValid (e.monotonic w) key none c valid, unfold set_allow in ground (arith, lives)),
    λ k p h. elim (lookup-set_allow (e.monotonic w) key k none c p valid h) [
      | inl (hit, fresh) ↦
          inr (
            ground (arith, eq_iff key k, hit),
            unfold effective_ttl in ground (arith, fresh, lives),
          )
      | inr (miss, before) ↦ inl before
    ],
  )

  settled :
      (key : String) (decision : Bool) (review : Bool) (s : State W)
      → (store_allow e (map_single decision review) key s ≡ s)
        ⊎ ((decision ≡ true)
            × (review ≡ false)
            × (store_allow e (map_single decision review) key s ≡ store_allow e allow key s))
  unfolding map_single store_allow
  settled key true false s = inr (refl, refl, refl)
  settled key true true s = inl refl
  settled key false true s = inl refl
  settled key false false s = inl refl

  settle_single-cases :
      (key : String) (x : EvaluationResponse) (s : State W)
      → ((settle_single e key x s).1 ≡ s)
        ⊎ (Passes e x × ((settle_single e key x s).1 ≡ store_allow e allow key s))
  unfolding settle_single
  settle_single-cases key x s = by_review (wants_review e x.context) refl
    where
      by_review :
          (r : Result Bool)
          → r ≡ wants_review e x.context
          → ((after r
                (λ review s. (
                  ok (clean (map_single x.decision review)),
                  store_allow e (map_single x.decision review) key s,
                ))
                s).1
              ≡ s)
            ⊎ (Passes e x
                × ((after r
                      (λ review s. (
                        ok (clean (map_single x.decision review)),
                        store_allow e (map_single x.decision review) key s,
                      ))
                      s).1
                    ≡ store_allow e allow key s))
      by_review (ok review) h = elim (settled key x.decision review s) [
        | inl same ↦ inl same
        | inr (a, n, stored) ↦ inr ((a, ground (arith, h, n)), stored)
      ]
      by_review (raise exc) h = inl refl
      by_review cancelled h = inl refl

  module _ (ttl : ℕ) (s₀ : State W) (sound : IsSound ttl s₀.cache)
      (empty : (k : String) → cached k s₀.cache ≡ none) where
    -- The cache stays sound, and each of its entries is that of an answer that passes.
    abbrev Traced : {s : State W} → Interleaved s₀ s → Type 0
    Traced {s} past =
        IsSound ttl s.cache
        × ((k : String) (p : ℕ) → cached k s.cache ≡ some p → Heard ttl k p past)

    hears-Traced :
        {s : State W} (key : String) (x : EvaluationResponse) (past : Interleaved s₀ s)
        → Traced past
        → Traced (hears key x past)
    hears-Traced {s} key x past (valid, heard) = elim (settle_single-cases key x s) [
      | inl same ↦ (
        subst (λ t. IsSound ttl t.cache) (sym same) valid,
        λ k p h. inr (heard k p (subst (λ t. cached k t.cache ≡ some p) same h)),
      )
      | inr (passes, stored) ↦
          let (valid', from) = store_allow-IsSound ttl key s.cache s.world valid in
          (
            subst (λ t. IsSound ttl t.cache) (sym stored) valid',
            λ k p h. elim (from k p (subst (λ t. cached k t.cache ≡ some p) stored h)) [
              | inl before ↦ inr (heard k p before)
              | inr (for_it, expiry) ↦ inl (for_it, passes, expiry)
            ],
          )
    ]

    traced : {s : State W} (past : Interleaved s₀ s) → Traced past
    traced begins = (sound, λ k p h. absurd (ground (arith, empty k, h)))
    traced (looks {s} key past) =
        let (valid, heard) = traced past in
        let (valid', kept) = lookup_cache-IsSound ttl key s.cache s.world valid in
        (valid', λ k p h. heard k p (kept k p h))
    traced (hears key x past) = hears-Traced key x past (traced past)
    traced (elsewhere w past) = traced past

    hit-cached :
        (key : String) (c : Option DecisionCache) (w : W)
        → (lookup_cache e key (at c w)).0 ≡ ok (some true)
        → (expiry : ℕ) × (cached key c ≡ some expiry) × (e.monotonic w < expiry)
    unfolding lookup_cache
    hit-cached key none w h = absurd (ground (arith, h))
    hit-cached key (some c) w h = get-hit (e.monotonic w) key c (ok-injective h)

    -- However evaluations of single requests interleave over a cache that was empty at the start, a
    -- hit for a key proves that an answer that passes has arrived for that very key, in an evaluation
    -- before, and that less than the lifetime of an entry has gone by on the cache's clock since it
    -- arrived.
    pub lookup_cache-Heard :
        (key : String) (s : State W) (past : Interleaved s₀ s)
        → (lookup_cache e key s).0 ≡ ok (some true)
        → (expiry : ℕ) × Heard ttl key expiry past × (e.monotonic s.world < expiry)
    lookup_cache-Heard key s past hit =
        let (expiry, stored, fresh) = hit-cached key s.cache s.world hit in
        (expiry, (traced past).1 key expiry stored, fresh)

  by_hit-Interleaved :
      (s₀ s : State W) (key : String) (r : EvaluationRequest) (hit : Option Bool)
      → Interleaved s₀ s
      → Interleaved s₀ (by_hit e key r hit s).1
  unfolding by_hit decide_single ask
  by_hit-Interleaved s₀ s key r (some true) past = past
  by_hit-Interleaved s₀ s key r _ past =
      let (answer, w) = e.client.evaluate r s.world in
      after-state (Interleaved s₀) answer (settle_single e key) (set_world e w s) (elsewhere w past)
        (λ x. hears key x (elsewhere w past))

  -- An evaluation that runs alone is one of the interleavings.
  pub evaluate_single-Interleaved :
      (s₀ s : State W) (r : EvaluationRequest)
      → Interleaved s₀ s
      → Interleaved s₀ (evaluate_single e r s).1
  unfolding evaluate_single
  evaluate_single-Interleaved s₀ s r past =
      let key = decision_cache_key e.runtime r in
      after-state (Interleaved s₀) (lookup_cache e key s).0 (by_hit e key r)
        (lookup_cache e key s).1 (looks key past)
        (λ hit. by_hit-Interleaved s₀ _ key r hit (looks key past))
