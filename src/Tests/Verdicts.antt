-- ===== src/Tests/Verdicts.antt =====
-- Examples of the engine's verdicts.
use apparitor.Prelude.{false, ℕ, ◌≡◌, ◌≢◌, refl, ◌↔◌, ◌⊎◌, some, List, [], ◌∷◌, true, length}
use apparitor.Adapters.{NormalizedToolCall}
use apparitor.Adapters.Refusals.{Escapes, evaluate_tool_calls-Raises}
use apparitor.Cache
use apparitor.Config.{OnError}
use apparitor.Decision.{VerdictResult, allow, block, human_review}
use apparitor.Engine.Base.{
  decision_cache_key, skip_result, State, Engine, fault_verdict, clean, to_batch,
}
use apparitor.Engine.Caching.{CacheIsValid, cached, evaluate_requests-cached}
use apparitor.Engine.Each.{Group, map_groups, evaluate_each}
use apparitor.Engine.Entry.{
  evaluate_tool_calls, normalize_raw, build_requests, evaluate_normalized, evaluate_requests,
  evaluate_with_boundary,
}
use apparitor.Engine.Cancellation.{Ends, entry-Ends}
use apparitor.Engine.EndToEnd.{
  Recognised, evaluate_tool_calls-Granted, evaluate_with_boundary-Granted,
}
use apparitor.Engine.Faults.{IsClosed, fault_verdict_lem}
use apparitor.Engine.Listing.{AllHidden, evaluate_each-Positional}
use apparitor.Engine.Positions.{Positional, flat}
use apparitor.Mapping.{abstain}
use apparitor.Engine.Soundness.{Granted}
use apparitor.Mapping.Dual.{same_principal}
use apparitor.Models.{EvaluationRequest, BatchEvaluationResponse}
use apparitor.Result.{ok, traverse, timeout, is_service_error, unexpected}
use apparitor.Tests.{
  runtime, engine, start, raw_call, authorized, call, reading, bot, alice, deep_engine,
}
use apparitor.Value.{end, Fields, field, str}

evaluate_tool_calls-Granted_example :
    (calls : List NormalizedToolCall) × (requests : List EvaluationRequest) × Recognised runtime
      (raw_call ∷ [])
      calls
    × (traverse (normalize_raw runtime) (raw_call ∷ []) ≡ ok calls)
    × (build_requests (engine.mapper 0) calls end ≡ ok requests)
    × (requests ≢ [])
    × Granted engine requests start
unfolding evaluate_tool_calls traverse apparitor.Value.get apparitor.Mapping.default_map
    apparitor.Engine.Base.reason_for
evaluate_tool_calls-Granted_example =
    evaluate_tool_calls-Granted engine (raw_call ∷ []) end start authorized refl refl

evaluate_with_boundary-Granted_example :
    (same_principal alice bot ≡ false)
    × Granted engine (reading ∷ record reading { subject = bot } ∷ []) start
unfolding evaluate_with_boundary apparitor.Engine.Base.reason_for
evaluate_with_boundary-Granted_example =
    evaluate_with_boundary-Granted engine reading bot start authorized refl refl

fault_verdict_lem_example :
    IsClosed (fault_verdict engine timeout)
    × (((fault_verdict engine timeout).verdict ≡ human_review)
        ↔ ((is_service_error timeout ≡ true) × (engine.config.on_error ≡ OnError.human_review)))
    × (((fault_verdict engine timeout).verdict ≡ human_review)
        ⊎ ((fault_verdict engine timeout).verdict ≡ block))
fault_verdict_lem_example = fault_verdict_lem engine timeout

entry-Ends_example :
    Ends engine (evaluate_normalized engine (call ∷ []) end start).0
    × Ends engine (evaluate_requests engine (reading ∷ []) start).0
entry-Ends_example = entry-Ends engine (call ∷ []) end (reading ∷ []) start

evaluate_each-Positional_example :
    (length (clean allow ∷ []) ≡ length (call ∷ []))
    × (AllHidden (clean allow ∷ [])
        ⊎ ((gs : List Group) × (map_groups (engine.mapper 0) (call ∷ []) end ≡ ok gs)
            × (response : BatchEvaluationResponse) × ((engine.client.evaluate_batch
                  (to_batch (flat gs))
                  0).0
                ≡ ok response)
            × Positional engine gs response.evaluations (clean allow ∷ [])))
unfolding evaluate_each apparitor.Mapping.default_map apparitor.Value.get
evaluate_each-Positional_example =
    evaluate_each-Positional engine (call ∷ []) end start (clean allow ∷ []) refl

abbrev cached_start : State ℕ
cached_start = record { cache = some (Cache.init 60 300 10_000); world = 0 }

evaluate_requests-cached_example :
    CacheIsValid (evaluate_requests engine (reading ∷ []) cached_start).1.cache
    × ((cached "a" cached_start.cache ≡ some 61)
        ⊎ ((q : EvaluationRequest) × (v : VerdictResult) × (reading ∷ [] ≡ q ∷ [])
            × ((evaluate_requests engine (reading ∷ []) cached_start).0 ≡ ok v)
            × (v.verdict ≡ allow)
            × (decision_cache_key runtime q ≡ "a")))
unfolding evaluate_requests apparitor.Dict.lookup Cache.init apparitor.Dict.insert
    apparitor.Value.get apparitor.Models.Dump.dump_request
evaluate_requests-cached_example =
    evaluate_requests-cached engine (reading ∷ []) "a" 61 cached_start
      (Cache.Bounds.init-IsValid 60 300 10_000) refl

evaluate_tool_calls-Raises_example : Escapes deep_engine.runtime unexpected
unfolding evaluate_tool_calls traverse apparitor.Value.get
evaluate_tool_calls-Raises_example =
    evaluate_tool_calls-Raises deep_engine
      (field "type" (str "tool_use") (field "name" (str "ls") (field "input" (str "deep") end))
        ∷ [])
      end start unexpected refl

-- The same engine, with a mapper that has no request for any call.
abbrev silent : Engine ℕ
silent = record engine { mapper = λ w call ctx. ok abstain }
