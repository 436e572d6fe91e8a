-- ===== src/Engine/Outcomes.antt =====
-- engine.py: what is true of every verdict that `_evaluate_guarded` returns.
use apparitor.Prelude.{
  ℕ, String, Bool, true, false, Option, none, some, List, [], ◌∷◌, ◌≡◌, ◌≢◌, refl, arith, subst,
  map, length, if◌then◌else◌,
}
use apparitor.Decision.{
  Verdict, VerdictResult, allow, human_review, block, skip, success, aggregate, map_single,
  escalate,
}
use apparitor.Engine.Base.{
  Engine, State, clean, cached_reason, fault_verdict, ask, wants_review, decision_cache_key,
  to_batch,
}
use apparitor.Engine.Evaluate.{
  evaluate_single, decide_single, settle_single, evaluate_batch, settle_batch, evaluate,
  evaluate_guarded, by_hit, lookup_cache, log_denied, any_review,
}
use apparitor.Engine.Entry.{judge}
use apparitor.Exec.{Exec, after}
use apparitor.Models.{EvaluationRequest, EvaluationResponse}
use apparitor.Result.{Result, ok, raise, cancelled, handle, Exception}

-- What a value that is returned satisfies.
abbrev pub Ends {ℓ κ} : {A : Type ℓ} → (A → Type κ) → Result A → Type κ
Ends P (ok a) = P a
Ends P (raise exc) = Unit
Ends P cancelled = Unit

pub Ends-ok {ℓ κ} : {A : Type ℓ} (P : A → Type κ) (r : Result A) {a : A} → Ends P r → r ≡ ok a → P a
Ends-ok P (ok b) h same = let q : b ≡ _ = ground (arith, same) in subst P q h
Ends-ok P (raise exc) h same = absurd (ground (arith, same))
Ends-ok P cancelled h same = absurd (ground (arith, same))

after-Ends :
    {S A B : Type 0} (P : B → Type 0) (r : Result A) (f : A → Exec S B) (s : S)
    → ((a : A) (t : S) → Ends P (f a t).0)
    → Ends P (after r f s).0
after-Ends P (ok a) f s k = k a s
after-Ends P (raise exc) f s k = tt
after-Ends P cancelled f s k = tt

after-Ends-ok :
    {S A B : Type 0} (Q : A → Type 0) (P : B → Type 0) (r : Result A) (f : A → Exec S B) (s : S)
    → Ends Q r
    → ((a : A) (t : S) → Q a → Ends P (f a t).0)
    → Ends P (after r f s).0
after-Ends-ok Q P (ok a) f s h k = k a s h
after-Ends-ok Q P (raise exc) f s h k = tt
after-Ends-ok Q P cancelled f s h k = tt

single_verdict : (d b : Bool) → map_single d b ≢ skip
unfolding map_single escalate
single_verdict d b h = ground arith

aggregate-ne-skip : (ds : List Bool) (n : ℕ) → aggregate ds n ≢ skip
unfolding aggregate
aggregate-ne-skip ds n h = ground arith

batch_verdict :
    (v : Verdict) (b : Bool) → v ≢ skip → (if b then escalate v human_review else v) ≢ skip
unfolding escalate
batch_verdict allow b n h = ground arith
batch_verdict human_review b n h = ground arith
batch_verdict block b n h = ground arith
batch_verdict skip b n h = n refl

module _ {W : Type 0} (e : Engine W) (P : VerdictResult → Type 0)
    (on_clean : (v : Verdict) → v ≢ skip → P (clean v))
    (on_hit : P (record { verdict = allow; reason = cached_reason; status = success }))
    (on_fault : (exc : Exception) → P (fault_verdict e exc)) where
  handle-Ends : (r : Result VerdictResult) → Ends P r → Ends P (handle (fault_verdict e) r)
  handle-Ends (ok v) h = h
  handle-Ends (raise exc) h = on_fault exc
  handle-Ends cancelled h = tt

  settle_single-Ends :
      (key : String) (x : EvaluationResponse) (s : State W) → Ends P (settle_single e key x s).0
  unfolding settle_single
  settle_single-Ends key x s =
      after-Ends P (wants_review e x.context) _ s (λ b t. on_clean _ (single_verdict x.decision b))

  decide_single-Ends :
      (key : String) (r : EvaluationRequest) (s : State W) → Ends P (decide_single e key r s).0
  unfolding decide_single ask
  decide_single-Ends key r s =
      after-Ends P (e.client.evaluate r s.world).0 _ _ (settle_single-Ends key)

  by_hit-Ends :
      (key : String) (r : EvaluationRequest) (hit : Option Bool) (s : State W)
      → Ends P (by_hit e key r hit s).0
  unfolding by_hit
  by_hit-Ends key r (some true) s = on_hit
  by_hit-Ends key r (some false) s = decide_single-Ends key r s
  by_hit-Ends key r none s = decide_single-Ends key r s

  settle_batch-Ends :
      (rs : List EvaluationRequest) (items : List EvaluationResponse) (s : State W)
      → Ends P (settle_batch e rs items s).0
  unfolding settle_batch
  settle_batch-Ends rs items s =
      after-Ends P (log_denied e (aggregate (map (λ x. x.decision) items) (length rs)) rs items s).0
        _ _
        (λ u t. after-Ends P (any_review e items) _ t (λ b t'. on_clean _ (
          batch_verdict (aggregate (map (λ x. x.decision) items) (length rs)) b
            (aggregate-ne-skip (map (λ x. x.decision) items) (length rs)))))

  evaluate_batch-Ends :
      (rs : List EvaluationRequest) (s : State W) → Ends P (evaluate_batch e rs s).0
  unfolding evaluate_batch ask
  evaluate_batch-Ends rs s =
      after-Ends P (e.client.evaluate_batch (to_batch rs) s.world).0 _ _
        (λ response t. settle_batch-Ends rs response.evaluations t)

  evaluate-Ends : (rs : List EvaluationRequest) (s : State W) → Ends P (evaluate e rs s).0
  unfolding evaluate evaluate_single
  evaluate-Ends (r ∷ []) s =
      after-Ends P (lookup_cache e (decision_cache_key e.runtime r) s).0 _ _
        (by_hit-Ends (decision_cache_key e.runtime r) r)
  evaluate-Ends [] s = evaluate_batch-Ends [] s
  evaluate-Ends (q ∷ r ∷ rs) s = evaluate_batch-Ends (q ∷ r ∷ rs) s

  -- The guarded verdict has every property that the clean verdicts other than SKIP, the cached ALLOW
  -- and the fault table have.
  pub judge-Ends : (rs : List EvaluationRequest) (s : State W) → Ends (λ p. P p.0) (judge e rs s).0
  unfolding judge evaluate_guarded
  judge-Ends rs s =
      after-Ends-ok P (λ p. P p.0) (handle (fault_verdict e) (evaluate e rs s).0) _ _
        (handle-Ends (evaluate e rs s).0 (evaluate-Ends rs s)) (λ v t h. h)
