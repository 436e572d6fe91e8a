-- ===== src/Engine/Entry.antt =====
-- engine.py: the entry points that return one verdict.
use apparitor.Prelude.{true, false, Option, none, some, List, [], ◌∷◌, ◌++◌}
use apparitor.Adapters.{Adapter, NormalizedToolCall, detect_adapter, normalize}
use apparitor.Decision.{VerdictResult}
use apparitor.Engine.Base.{
  Engine, State, block_result, skip_result, as_requests, fault_verdict, emit, timed,
}
use apparitor.Engine.Evaluate.{evaluate_guarded}
use apparitor.Exec.{Exec, pure, lift, ◌>>=◌}
use apparitor.Mapping.{ToolCallMapper}
use apparitor.Mapping.Dual.{build_boundary_leg}
use apparitor.Models.{Subject, EvaluationRequest}
use apparitor.Result
use apparitor.Result.{
  Exception, Result, ok, raise, cancelled, config_error, unparseable, is_value_error, traverse,
}
use apparitor.Runtime.{Runtime}
use apparitor.Value.{Fields}

-- `except ValueError as exc: raise _UnparseableToolCall`
abbrev pub as_unparseable {ℓ} : {A : Type ℓ} → Result A → Result A
as_unparseable (raise exc) = elim (is_value_error exc) [
  | true ↦ raise unparseable
  | false ↦ raise exc
]
as_unparseable r = r

abbrev pub normalize_with : Runtime → Option Adapter → Fields → Result NormalizedToolCall
normalize_with rt none raw = raise unparseable
normalize_with rt (some adapter) raw = as_unparseable (normalize rt adapter raw)

unfoldable pub normalize_raw : Runtime → Fields → Result NormalizedToolCall
unfolding detect_adapter normalize
normalize_raw rt raw = normalize_with rt (detect_adapter raw) raw

-- `requests.extend(_as_requests(mapper.map(call, ctx)))` for each call.
unfoldable pub build_requests :
    ToolCallMapper → List NormalizedToolCall → Fields → Result (List EvaluationRequest)
unfolding as_requests
build_requests mapper [] ctx = ok []
build_requests mapper (call ∷ calls) ctx =
    let rest = build_requests mapper calls ctx in
    Result.◌>>=◌ (mapper call ctx) λ m. Result.◌>>=◌ rest λ rs. ok (as_requests m ++ rs)

module _ {W : Type 0} (e : Engine W) where
  -- The guarded verdict, beside the requests that it is about.
  unfoldable pub judge :
      List EvaluationRequest → Exec (State W) (VerdictResult × List EvaluationRequest)
  unfolding evaluate_guarded
  judge requests = do v ← evaluate_guarded e requests; pure (v, requests)

  -- The end of `_decide`, from what the mapper made of the calls.
  unfoldable pub decide_requests :
      Result (List EvaluationRequest) → Exec (State W) (VerdictResult × List EvaluationRequest)
  unfolding judge fault_verdict
  decide_requests (ok []) = pure (skip_result, [])
  decide_requests (ok (r ∷ rs)) = judge (r ∷ rs)
  decide_requests (raise config_error) = pure (block_result, [])
  decide_requests (raise exc) = pure (fault_verdict e exc, [])
  decide_requests cancelled = lift cancelled

  unfoldable pub decide :
      List NormalizedToolCall → Fields → Exec (State W) (VerdictResult × List EvaluationRequest)
  unfolding decide_requests build_requests
  decide calls ctx s = decide_requests (build_requests (e.mapper s.world) calls ctx) s

  -- An empty or missing list is `[]`; a missing context is the empty one.
  unfoldable pub evaluate_normalized :
      List NormalizedToolCall → Fields → Exec (State W) VerdictResult
  unfolding decide emit
  evaluate_normalized [] ctx = pure skip_result
  evaluate_normalized (call ∷ calls) ctx = timed e (decide (call ∷ calls) ctx)

  unfoldable pub evaluate_requests : List EvaluationRequest → Exec (State W) VerdictResult
  unfolding judge emit
  evaluate_requests [] = pure skip_result
  evaluate_requests (r ∷ rs) = timed e (judge (r ∷ rs))

  -- What follows the normalisation of the calls.
  unfoldable pub evaluate_parsed :
      Result (List NormalizedToolCall) → Fields → Exec (State W) VerdictResult
  unfolding evaluate_normalized emit
  evaluate_parsed (ok calls) ctx s = evaluate_normalized calls ctx s
  evaluate_parsed (raise unparseable) ctx s = (ok block_result, emit e block_result [] 0 s)
  evaluate_parsed (raise exc) ctx s = (raise exc, s)
  evaluate_parsed cancelled ctx s = (cancelled, s)

  unfoldable pub evaluate_tool_calls : List Fields → Fields → Exec (State W) VerdictResult
  unfolding evaluate_parsed normalize_raw
  evaluate_tool_calls [] ctx = pure skip_result
  evaluate_tool_calls (raw ∷ raws) ctx =
      evaluate_parsed (traverse (normalize_raw e.runtime) (raw ∷ raws)) ctx

  -- The boundary leg joins the batch, unless the collapse guard refuses.
  unfoldable pub evaluate_legs :
      EvaluationRequest → Result EvaluationRequest → Exec (State W) (Option VerdictResult)
  unfolding evaluate_requests
  evaluate_legs request (ok leg) = do v ← evaluate_requests (request ∷ leg ∷ []); pure (some v)
  evaluate_legs request (raise config_error) = pure none
  evaluate_legs request (raise exc) = lift (raise exc)
  evaluate_legs request cancelled = lift cancelled

  unfoldable pub evaluate_with_boundary :
      EvaluationRequest → Option Subject → Exec (State W) (Option VerdictResult)
  unfolding evaluate_legs build_boundary_leg
  evaluate_with_boundary request none = do v ← evaluate_requests (request ∷ []); pure (some v)
  evaluate_with_boundary request (some boundary) =
      evaluate_legs request (build_boundary_leg request boundary request.subject)
