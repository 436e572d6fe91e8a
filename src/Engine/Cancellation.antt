-- ===== src/Engine/Cancellation.antt =====
-- engine.py: how the entry points end, with a verdict or with a cancellation that a part was given.
use apparitor.Prelude.{refl, ◌⊎◌, inl, inr, ◌≡◌, List, [], ◌∷◌}
use apparitor.Adapters.{NormalizedToolCall}
use apparitor.Decision.{VerdictResult}
use apparitor.Engine.Base.{Engine, State, fault_verdict, timed}
use apparitor.Engine.Evaluate.{evaluate, evaluate_guarded}
use apparitor.Engine.Entry.{
  build_requests, decide, judge, decide_requests, evaluate_normalized, evaluate_requests,
}
use apparitor.Engine.Faults.{Returns, entry-Returns}
use apparitor.Exec.{Exec}
use apparitor.Models.{EvaluationRequest}
use apparitor.Result.{Result, ok, raise, cancelled, config_error, handle}
use apparitor.Value.{Fields}
use apparitor.Engine.Causes.{
  CancelledBy, by_mapper, Caused, caused, >>=-Caused, after-Caused, evaluate-Caused,
}

-- A verdict, or a cancellation that a part was given.
abbrev pub Ends : {W : Type 0} → Engine W → Result VerdictResult → Type 0
Ends e r = ((v : VerdictResult) × (r ≡ ok v)) ⊎ ((r ≡ cancelled) × CancelledBy e)

Returns-Ends :
    {W : Type 0} (e : Engine W) (r : Result VerdictResult)
    → Returns r
    → Caused (CancelledBy e) r
    → Ends e r
Returns-Ends e (ok v) h c = inl (v, refl)
Returns-Ends e (raise exc) h c = absurd h
Returns-Ends e cancelled h c = inr (refl, c)

module _ {W : Type 0} (e : Engine W) where
  abbrev C : Type 0
  C = CancelledBy e

  handle-Caused : (r : Result VerdictResult) → Caused C r → Caused C (handle (fault_verdict e) r)
  handle-Caused (ok a) h = tt
  handle-Caused (raise exc) h = tt
  handle-Caused cancelled h = h

  judge-Caused : (rs : List EvaluationRequest) (s : State W) → Caused C (judge e rs s).0
  unfolding judge evaluate_guarded
  judge-Caused rs s =
      after-Caused C (evaluate_guarded e rs s).0 _ _
        (handle-Caused (evaluate e rs s).0 (evaluate-Caused e rs s)) (λ a t. tt)

  build_requests-Caused :
      (w : W) (calls : List NormalizedToolCall) (ctx : Fields)
      → Caused C (build_requests (e.mapper w) calls ctx)
  unfolding build_requests
  build_requests-Caused w [] ctx = tt
  build_requests-Caused w (call ∷ calls) ctx =
      >>=-Caused C (e.mapper w call ctx) _ (caused C (e.mapper w call ctx) (by_mapper w call ctx))
        (λ m.
          >>=-Caused C (build_requests (e.mapper w) calls ctx) _ (build_requests-Caused w calls ctx)
            (λ rs. tt))

  decide_requests-Caused :
      (r : Result (List EvaluationRequest)) (s : State W)
      → Caused C r
      → Caused C (decide_requests e r s).0
  unfolding decide_requests
  decide_requests-Caused (ok []) s h = tt
  decide_requests-Caused (ok (r ∷ rs)) s h = judge-Caused (r ∷ rs) s
  decide_requests-Caused (raise config_error) s h = tt
  decide_requests-Caused (raise exc) s h = tt
  decide_requests-Caused cancelled s h = h

  timed-Caused :
      (run : Exec (State W) (VerdictResult × List EvaluationRequest)) (s : State W)
      → Caused C (run s).0
      → Caused C (timed e run s).0
  timed-Caused run s h = after-Caused C (run s).0 _ (run s).1 h (λ p t. tt)

  evaluate_normalized-Caused :
      (calls : List NormalizedToolCall) (ctx : Fields) (s : State W)
      → Caused C (evaluate_normalized e calls ctx s).0
  unfolding evaluate_normalized decide
  evaluate_normalized-Caused [] ctx s = tt
  evaluate_normalized-Caused (call ∷ calls) ctx s =
      timed-Caused (decide e (call ∷ calls) ctx) s
        (decide_requests-Caused _ s (build_requests-Caused s.world (call ∷ calls) ctx))

  evaluate_requests-Caused :
      (requests : List EvaluationRequest) (s : State W)
      → Caused C (evaluate_requests e requests s).0
  unfolding evaluate_requests
  evaluate_requests-Caused [] s = tt
  evaluate_requests-Caused (r ∷ rs) s = timed-Caused (judge e (r ∷ rs)) s (judge-Caused (r ∷ rs) s)

  -- The entry points for normalised calls and for requests end with a verdict, whatever the mapper,
  -- the decision service, the review predicate, the sink and the log of decisions raise; or else
  -- they are cancelled, and then the mapper, the service or the predicate was cancelled at some input.
  -- The operator's warnings are taken to be logged without an exception.
  pub entry-Ends :
      (calls : List NormalizedToolCall) (ctx : Fields) (requests : List EvaluationRequest)
      (s : State W)
      → Ends e (evaluate_normalized e calls ctx s).0 × Ends e (evaluate_requests e requests s).0
  entry-Ends calls ctx requests s =
      let (normalized, built) = entry-Returns e calls ctx requests s in
      (
        Returns-Ends e (evaluate_normalized e calls ctx s).0 normalized
            (evaluate_normalized-Caused calls ctx s),
        Returns-Ends e (evaluate_requests e requests s).0 built
            (evaluate_requests-Caused requests s),
      )
