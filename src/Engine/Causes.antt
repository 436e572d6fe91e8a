-- ===== src/Engine/Causes.antt =====
-- engine.py: what cancels the evaluation of requests that are built.
use apparitor.Prelude.{
  refl, ◌≡◌, true, false, Bool, Option, none, some, List, [], ◌∷◌, if◌then◌else◌, String,
}
use apparitor.Adapters.{NormalizedToolCall}
use apparitor.Cache.{DecisionCache}
use apparitor.Decision.{Verdict, allow, block, human_review, skip}
use apparitor.Engine.Base.{
  Engine, State, ask, ask_review, wants_review, to_batch, decision_cache_key, denied_legs,
}
use apparitor.Engine.Evaluate.{
  evaluate, evaluate_batch, evaluate_single, decide_single, settle_single, lookup_cache, lookup_in,
  by_hit, any_review, denied, log_denied, settle_batch,
}
use apparitor.Exec.{Exec, after}
use apparitor.Models.{EvaluationRequest, EvaluationResponse}
use apparitor.Result
use apparitor.Result.{Exception, Result, ok, raise, cancelled, config_error, handle}
use apparitor.Value.{Fields}

-- A part of the engine that was cancelled: the mapper at a call, the decision service at a request
-- or a batch, or the review predicate at a context.
pub data CancelledBy {W : Type 0} (e : Engine W) : Type 0 where
  by_mapper :
      (w : W) (call : NormalizedToolCall) (ctx : Fields)
      → e.mapper w call ctx ≡ cancelled
      → CancelledBy e
  by_evaluate :
      (r : EvaluationRequest) (w : W) → (e.client.evaluate r w).0 ≡ cancelled → CancelledBy e
  by_evaluate_batch :
      (rs : List EvaluationRequest) (w : W)
      → (e.client.evaluate_batch (to_batch rs) w).0 ≡ cancelled
      → CancelledBy e
  by_review :
      (p : Fields → Result Bool) (context : Fields)
      → e.review ≡ some p
      → p context ≡ cancelled
      → CancelledBy e

-- A cancellation has a cause.
abbrev pub Caused {ℓ} : {A : Type ℓ} → Type 0 → Result A → Type 0
Caused C (ok a) = Unit
Caused C (raise exc) = Unit
Caused C cancelled = C

pub caused {ℓ} : {A : Type ℓ} (C : Type 0) (r : Result A) → (r ≡ cancelled → C) → Caused C r
caused C (ok a) k = tt
caused C (raise exc) k = tt
caused C cancelled k = k refl

pub >>=-Caused :
    {A B : Type 0} (C : Type 0) (r : Result A) (f : A → Result B)
    → Caused C r
    → ((a : A) → Caused C (f a))
    → Caused C (Result.◌>>=◌ r f)
>>=-Caused C (ok a) f h k = k a
>>=-Caused C (raise exc) f h k = tt
>>=-Caused C cancelled f h k = h

pub after-Caused :
    {S A B : Type 0} (C : Type 0) (r : Result A) (f : A → Exec S B) (s : S)
    → Caused C r
    → ((a : A) (t : S) → Caused C (f a t).0)
    → Caused C (after r f s).0
after-Caused C (ok a) f s h k = k a s
after-Caused C (raise exc) f s h k = tt
after-Caused C cancelled f s h k = h

or-Caused :
    (C : Type 0) (b : Bool) (r : Result Bool)
    → Caused C r
    → Caused C (elim b [ true ↦ ok true | false ↦ r ])
or-Caused C true r h = tt
or-Caused C false r h = h

logged-Caused :
    (C : Type 0) (logged : Bool) (exc : Exception)
    → Caused {A = Unit {0}} C (if logged then ok tt else raise exc)
logged-Caused C true exc = tt
logged-Caused C false exc = tt

module _ {W : Type 0} (e : Engine W) where
  abbrev C : Type 0
  C = CancelledBy e

  ask_review-Caused :
      (review : Option (Fields → Result Bool)) (context : Option Fields)
      → e.review ≡ review
      → Caused C (ask_review e review context)
  ask_review-Caused none context h = tt
  ask_review-Caused (some p) none h = tt
  ask_review-Caused (some p) (some context) h = caused C (p context) (by_review p context h)

  wants_review-Caused : (context : Option Fields) → Caused C (wants_review e context)
  unfolding wants_review
  wants_review-Caused context = ask_review-Caused e.review context refl

  any_review-Caused : (xs : List EvaluationResponse) → Caused C (any_review e xs)
  unfolding any_review
  any_review-Caused [] = tt
  any_review-Caused (x ∷ xs) =
      >>=-Caused C (wants_review e x.context) _ (wants_review-Caused x.context)
        (λ b. or-Caused C b (any_review e xs) (any_review-Caused xs))

  settle_single-Caused :
      (key : String) (x : EvaluationResponse) (s : State W) → Caused C (settle_single e key x s).0
  unfolding settle_single
  settle_single-Caused key x s =
      after-Caused C (wants_review e x.context) _ s (wants_review-Caused x.context) (λ b t. tt)

  decide_single-Caused :
      (key : String) (r : EvaluationRequest) (s : State W) → Caused C (decide_single e key r s).0
  unfolding decide_single ask
  decide_single-Caused key r s =
      after-Caused C (e.client.evaluate r s.world).0 _ _
        (caused C (e.client.evaluate r s.world).0 (by_evaluate r s.world))
        (λ x t. settle_single-Caused key x t)

  by_hit-Caused :
      (key : String) (r : EvaluationRequest) (hit : Option Bool) (s : State W)
      → Caused C (by_hit e key r hit s).0
  unfolding by_hit
  by_hit-Caused key r (some true) s = tt
  by_hit-Caused key r (some false) s = decide_single-Caused key r s
  by_hit-Caused key r none s = decide_single-Caused key r s

  lookup_in-Caused :
      (cache : Option DecisionCache) (key : String) (s : State W)
      → Caused C (lookup_in e cache key s).0
  unfolding lookup_in
  lookup_in-Caused none key s = tt
  lookup_in-Caused (some c) key s = tt

  lookup_cache-Caused : (key : String) (s : State W) → Caused C (lookup_cache e key s).0
  unfolding lookup_cache
  lookup_cache-Caused key s = lookup_in-Caused s.cache key s

  evaluate_single-Caused :
      (r : EvaluationRequest) (s : State W) → Caused C (evaluate_single e r s).0
  unfolding evaluate_single
  evaluate_single-Caused r s =
      let key = decision_cache_key e.runtime r in
      after-Caused C (lookup_cache e key s).0 _ _ (lookup_cache-Caused key s)
        (λ hit t. by_hit-Caused key r hit t)

  denied-Caused :
      (rs : List EvaluationRequest) (xs : List EvaluationResponse) → Caused C (denied e rs xs)
  unfolding denied
  denied-Caused [] [] = tt
  denied-Caused [] (x ∷ xs) = tt
  denied-Caused (r ∷ rs) [] = tt
  denied-Caused (r ∷ rs) (x ∷ xs) =
      >>=-Caused C (denied e rs xs) _ (denied-Caused rs xs) (λ rest. tt)

  named-Caused :
      (rs : List EvaluationRequest) (xs : List EvaluationResponse) (s : State W)
      → Caused C (log_denied e block rs xs s).0
  unfolding log_denied
  named-Caused rs xs s =
      after-Caused C (denied e rs xs) _ s (denied-Caused rs xs)
        (λ legs t. logged-Caused C (e.log (denied_legs legs) t.world).0 _)

  log_denied-Caused :
      (v : Verdict) (rs : List EvaluationRequest) (xs : List EvaluationResponse) (s : State W)
      → Caused C (log_denied e v rs xs s).0
  unfolding log_denied
  log_denied-Caused allow rs xs s = tt
  log_denied-Caused block rs xs s = named-Caused rs xs s
  log_denied-Caused human_review rs xs s = named-Caused rs xs s
  log_denied-Caused skip rs xs s = named-Caused rs xs s

  settle_batch-Caused :
      (rs : List EvaluationRequest) (xs : List EvaluationResponse) (s : State W)
      → Caused C (settle_batch e rs xs s).0
  unfolding settle_batch
  settle_batch-Caused rs xs s =
      after-Caused C (log_denied e _ rs xs s).0 _ _ (log_denied-Caused _ rs xs s)
        (λ u t. after-Caused C (any_review e xs) _ t (any_review-Caused xs) (λ b t'. tt))

  evaluate_batch-Caused :
      (rs : List EvaluationRequest) (s : State W) → Caused C (evaluate_batch e rs s).0
  unfolding evaluate_batch ask
  evaluate_batch-Caused rs s =
      after-Caused C (e.client.evaluate_batch (to_batch rs) s.world).0 _ _
        (caused C (e.client.evaluate_batch (to_batch rs) s.world).0 (by_evaluate_batch rs s.world))
        (λ response t. settle_batch-Caused rs response.evaluations t)

  pub evaluate-Caused : (rs : List EvaluationRequest) (s : State W) → Caused C (evaluate e rs s).0
  unfolding evaluate
  evaluate-Caused [] s = evaluate_batch-Caused [] s
  evaluate-Caused (r ∷ []) s = evaluate_single-Caused r s
  evaluate-Caused (r ∷ q ∷ rs) s = evaluate_batch-Caused (r ∷ q ∷ rs) s
