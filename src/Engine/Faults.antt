-- ===== src/Engine/Faults.antt =====
-- Faults of the engine fail closed: the fault table, and that no exception leaves the entry points.
use apparitor.Prelude.{refl, ◌⊎◌, inl, inr, ◌≡◌, ◌≢◌, ◌↔◌, ◌-◌, true, false, List, [], ◌∷◌, arith}
use apparitor.Adapters.{NormalizedToolCall}
use apparitor.Config.{OnError}
use apparitor.Decision.{
  Verdict, VerdictResult, resolve_error, human_review, block, error, is_allowed_inline,
  is_allowed_gateway,
}
use apparitor.Engine.Base.{Engine, State, fault_verdict, timed, emit}
use apparitor.Engine.Evaluate.{evaluate, evaluate_guarded}
use apparitor.Engine.Entry.{decide, judge, decide_requests, evaluate_normalized, evaluate_requests}
use apparitor.Exec.{Exec, after}
use apparitor.Models.{EvaluationRequest}
use apparitor.Result.{
  Exception, Result, ok, raise, cancelled, config_error, is_service_error, handle,
}
use apparitor.Value.{Fields}

-- What the fault table promises: an error status, and never a pass.
pub record IsClosed (v : VerdictResult) : Type 0 where
  pub failed : v.status ≡ error
  pub inline : is_allowed_inline v ≡ false
  pub gateway : is_allowed_gateway v ≡ false

-- The outcome is no exception.
abbrev pub Returns {ℓ} : {A : Type ℓ} → Result A → Type 0
Returns (ok a) = Unit
Returns (raise exc) = ⊥
Returns cancelled = Unit

review_or_block : (v : Verdict) → (v ≢ human_review → v ≡ block) → (v ≡ human_review) ⊎ (v ≡ block)
review_or_block human_review h = inl refl
review_or_block v h = inr (h (λ q. ground (arith, q)))

module _ {W : Type 0} (e : Engine W) where
  fault_verdict-IsClosed : (exc : Exception) → IsClosed (fault_verdict e exc)
  unfolding fault_verdict resolve_error is_allowed_inline is_allowed_gateway
  fault_verdict-IsClosed exc = ground arith

  fault_verdict-verdict :
      (exc : Exception)
      → ((fault_verdict e exc).verdict ≡ human_review)
        ↔ ((is_service_error exc ≡ true) × (e.config.on_error ≡ OnError.human_review))
  unfolding fault_verdict resolve_error
  fault_verdict-verdict exc = ground arith

  fault_verdict-block :
      (exc : Exception)
      → (fault_verdict e exc).verdict ≢ human_review
      → (fault_verdict e exc).verdict ≡ block
  unfolding fault_verdict resolve_error
  fault_verdict-block exc = ground arith

  -- Every exception becomes a verdict with status ERROR that neither enforcement predicate passes. It asks
  -- for human review exactly for a service error under `on_error = human_review`, and is a BLOCK
  -- otherwise.
  pub fault_verdict_lem :
      (exc : Exception)
      → IsClosed (fault_verdict e exc)
        × (((fault_verdict e exc).verdict ≡ human_review)
            ↔ ((is_service_error exc ≡ true) × (e.config.on_error ≡ OnError.human_review)))
        × (((fault_verdict e exc).verdict ≡ human_review) ⊎ ((fault_verdict e exc).verdict ≡ block))
  fault_verdict_lem exc = (
    fault_verdict-IsClosed exc,
    fault_verdict-verdict exc,
    review_or_block (fault_verdict e exc).verdict (fault_verdict-block exc),
  )

  handle-Returns : (r : Result VerdictResult) → Returns (handle (fault_verdict e) r)
  handle-Returns (ok a) = tt
  handle-Returns (raise exc) = tt
  handle-Returns cancelled = tt

  evaluate_guarded-Returns :
      (requests : List EvaluationRequest) (s : State W) → Returns (evaluate_guarded e requests s).0
  unfolding evaluate_guarded
  evaluate_guarded-Returns requests s = handle-Returns (evaluate e requests s).0

  timed-Returns :
      (run : Exec (State W) (VerdictResult × List EvaluationRequest)) (s : State W)
      → Returns (run s).0
      → Returns (timed e run s).0
  timed-Returns run s = go (run s).0 (run s).1
    where
      go :
          (r : Result (VerdictResult × List EvaluationRequest)) (s' : State W)
          → Returns r
          → Returns
              (after r
                (λ (p : VerdictResult × List EvaluationRequest) (t : State W).
                  (ok p.0, emit e p.0 p.1 (e.perf_counter t.world - e.perf_counter s.world) t))
                s').0
      go (ok p) s' h = tt
      go (raise exc) s' h = h
      go cancelled s' h = tt

  after-Returns :
      {A B : Type 0} (r : Result A) (f : A → Exec (State W) B) (s : State W)
      → Returns r
      → ((a : A) (t : State W) → Returns (f a t).0)
      → Returns (after r f s).0
  after-Returns (ok a) f s h k = k a s
  after-Returns (raise exc) f s h k = h
  after-Returns cancelled f s h k = tt

  judge-Returns : (requests : List EvaluationRequest) (s : State W) → Returns (judge e requests s).0
  unfolding judge
  judge-Returns requests s =
      after-Returns (evaluate_guarded e requests s).0 _ _ (evaluate_guarded-Returns requests s)
        (λ a t. tt)

  decide_requests-Returns :
      (r : Result (List EvaluationRequest)) (s : State W) → Returns (decide_requests e r s).0
  unfolding decide_requests
  decide_requests-Returns (ok []) s = tt
  decide_requests-Returns (ok (r ∷ rs)) s = judge-Returns (r ∷ rs) s
  decide_requests-Returns (raise config_error) s = tt
  decide_requests-Returns (raise exc) s = tt
  decide_requests-Returns cancelled s = tt

  evaluate_normalized-Returns :
      (calls : List NormalizedToolCall) (ctx : Fields) (s : State W)
      → Returns (evaluate_normalized e calls ctx s).0
  unfolding evaluate_normalized
  evaluate_normalized-Returns [] ctx s = tt
  evaluate_normalized-Returns (call ∷ calls) ctx s =
      timed-Returns (decide e (call ∷ calls) ctx) s (unfold decide in decide_requests-Returns _ s)

  evaluate_requests-Returns :
      (requests : List EvaluationRequest) (s : State W) → Returns (evaluate_requests e requests s).0
  unfolding evaluate_requests
  evaluate_requests-Returns [] s = tt
  evaluate_requests-Returns (r ∷ rs) s =
      timed-Returns (judge e (r ∷ rs)) s (judge-Returns (r ∷ rs) s)

  -- No exception leaves the entry points for normalised calls and for requests.
  pub entry-Returns :
      (calls : List NormalizedToolCall) (ctx : Fields) (requests : List EvaluationRequest)
      (s : State W)
      → Returns (evaluate_normalized e calls ctx s).0 × Returns (evaluate_requests e requests s).0
  entry-Returns calls ctx requests s =
      (evaluate_normalized-Returns calls ctx s, evaluate_requests-Returns requests s)
