-- ===== src/Examples/Verdicts.antt =====
-- examples/three-peps/demo.py: the scanner's lane and the rail's lane have the same results.
use apparitor.Prelude.{String, ◌≡◌, ◌≢◌, refl, arith, List, [], ◌∷◌, ap}
use apparitor.Adapters.{NormalizedToolCall}
use apparitor.Dict.{insert}
use apparitor.Decision.{
  Verdict, allow, human_review, block, skip, VerdictStatus, VerdictResult, skipped, error, success,
}
use apparitor.Engine.Base.{Engine, State}
use apparitor.Engine.Entry.{build_requests, evaluate_tool_calls, normalize_raw}
use apparitor.Engine.Skips.{evaluate_tool_calls-skip}
use apparitor.Examples.Lanes.{
  Case, Results, imported, scan_bucket, rail_bucket, run_cases, openai_call, scan_case, rail_case,
  lane_llamafirewall, lane_nemo,
}
use apparitor.Exec.{after_cong, pure, lift, ◌>>=◌}
use apparitor.Gateway.Agreement.{evaluate_tool_calls-Coherent}
use apparitor.Gateway.Inline.{to_scan_result, outcome, scan, authorize_tool_calls}
use apparitor.Result.{Result, ok, raise, cancelled, traverse, >>=-ok}
use apparitor.Value.{Fields, end}

same_bucket :
    (verdict : Verdict) (reason : String) (status : VerdictStatus)
    → (status ≡ error → (verdict ≢ allow) × (verdict ≢ skip))
    → status ≢ skipped
    → scan_bucket (to_scan_result (record { verdict = verdict; reason = reason; status = status }))
      ≡ rail_bucket (outcome (record { verdict = verdict; reason = reason; status = status }))
unfolding scan_bucket rail_bucket to_scan_result outcome
same_bucket verdict reason skipped h n = absurd (n refl)
same_bucket allow reason success h n = refl
same_bucket human_review reason success h n = refl
same_bucket block reason success h n = refl
same_bucket skip reason success h n = refl
same_bucket allow reason error h n = absurd ((h refl).0 refl)
same_bucket skip reason error h n = absurd ((h refl).1 refl)
same_bucket human_review reason error h n = refl
same_bucket block reason error h n = refl

same_end :
    {S : Type 0} (r : Result VerdictResult) (s : S)
    → ((v : VerdictResult) → r ≡ ok v → scan_bucket (to_scan_result v) ≡ rail_bucket (outcome v))
    → ((lift r >>= λ v. pure (to_scan_result v)) >>= λ x. pure (scan_bucket x)) s
      ≡ ((lift r >>= λ v. pure (outcome v)) >>= λ o. pure (rail_bucket o)) s
same_end (ok v) s h = ap (λ b. (ok b, s)) (h v refl)
same_end (raise exc) s h = refl
same_end cancelled s h = refl

module _ {W : Type 0} (e : Engine W) (dumps : Fields → String) where
  -- The mapper makes at least one request of each call that it maps.
  abbrev pub MapsAll : Type 0
  MapsAll =
      (w : W) (call : NormalizedToolCall) → build_requests (e.mapper w) (call ∷ []) end ≢ ok []

  one_call :
      (raw : Fields) (calls : List NormalizedToolCall)
      → traverse (normalize_raw e.runtime) (raw ∷ []) ≡ ok calls
      → (call : NormalizedToolCall) × (calls ≡ call ∷ [])
  unfolding traverse
  one_call raw calls h =
      let (call, first, rest) = >>=-ok (normalize_raw e.runtime raw) _ h in
      (call, ground (arith, rest))

  module _ (maps : MapsAll) where
    not_skipped :
        (raw : Fields) (s : State W) (v : VerdictResult)
        → (evaluate_tool_calls e (raw ∷ []) end s).0 ≡ ok v
        → v.status ≢ skipped
    not_skipped raw s v h q =
        let coherent = evaluate_tool_calls-Coherent e (raw ∷ []) end s v h in
        let (calls, parsed, built) =
          evaluate_tool_calls-skip e (raw ∷ []) end s v h (coherent.on_skip q) in
        let (call, same) = one_call raw calls parsed in maps s.world call (rw same at built)

    -- One case: the two enforcement points put it into the same bucket, and leave the same state.
    case_agree : (c : Case) (s : State W) → scan_case e dumps c s ≡ rail_case e dumps c s
    unfolding scan_case rail_case scan authorize_tool_calls
    case_agree c s =
        let raw = openai_call dumps c.name c.arguments in
        let (r, s') = evaluate_tool_calls e (raw ∷ []) end s in
        same_end r s' (λ v judged.
          let coherent = evaluate_tool_calls-Coherent e (raw ∷ []) end s v judged in
          same_bucket v.verdict v.reason v.status coherent.on_fault (not_skipped raw s v judged))

    cases_agree :
        (cases : List Case) (results : Results) (s : State W)
        → run_cases (scan_case e dumps) cases results s
          ≡ run_cases (rail_case e dumps) cases results s
    unfolding run_cases
    cases_agree [] results s = refl
    cases_agree (c ∷ cases) results s = rw (case_agree c s) (
        after_cong (rail_case e dumps c s).0 (rail_case e dumps c s).1
          (λ got s'. cases_agree cases (insert c.name got results) s'))

    -- With a mapper that makes a request of each call, the lane of the scanner and the lane of the
    -- rail, from one state of the engine and with their imports there, end alike: with the same
    -- bucket for each case or the same exception, and in the same state.
    pub lanes-agree :
        (cases : List Case) (s : State W)
        → lane_llamafirewall e dumps cases imported s ≡ lane_nemo e dumps cases imported s
    unfolding lane_llamafirewall lane_nemo
    lanes-agree cases s = rw (cases_agree cases [] s) refl
