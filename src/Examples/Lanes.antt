-- ===== src/Examples/Lanes.antt =====
-- examples/three-peps/demo.py: the same calls through three enforcement points. A lane is the run of
-- the cases through one of them, on an engine that is an argument: how a lane builds its engine and
-- closes it is left out. `json.dumps` and the client of the FastMCP server are parameters.
use apparitor.Prelude.{
  not, ℕ, suc, String, Bool, true, false, ◌||◌, Option, none, some, List, [], ◌∷◌, ◌==◌, length,
  ltb, eqb, ◌&&◌, if◌then◌else◌, concat,
}
use apparitor.Dict.{lookup, insert}
use apparitor.Engine.Base.{Engine, State}
use apparitor.Exec.{Exec, pure, lift, ◌>>=◌}
use apparitor.Gateway.Inline.{
  ScanDecision, allowed, human_in_the_loop_required, blocked, scan_success, ScanResult, RailOutcome,
  scan, authorize_tool_calls,
}
use apparitor.Result
use apparitor.Result.{Result, ok, raise, cancelled, unexpected}
use apparitor.Value.{str, obj, Fields, end, field}

-- A row of `_CASES`.
pub record Case : Type 0 where
  pub name : String
  pub arguments : Fields
  pub want : String

abbrev pub Results : Type 0
Results = List (String × String)

abbrev pub decision_bucket : ScanDecision → String
decision_bucket allowed = "ALLOW"
decision_bucket human_in_the_loop_required = "REVIEW"
decision_bucket blocked = "BLOCK"

unfoldable pub scan_bucket : ScanResult → String
scan_bucket r = elim r.status [ scan_success ↦ decision_bucket r.decision | _ ↦ "ERROR" ]

unfoldable pub rail_bucket : RailOutcome → String
rail_bucket o =
    if o.is_blocked
    then (if o.status == "error"
        then "ERROR"
        else if o.verdict == "human_review"
        then "REVIEW"
        else "BLOCK")
    else "ALLOW"

-- How the imports of a lane end; an `ImportError` may name the module that is missing.
pub data Import : Type 0 where
  imported missing_dependency : Import
  import_error : Option String → Import

-- `s.startswith(p)`
unfoldable pub starts_with : String → String → Bool
starts_with s String.[] = true
starts_with String.[] (String.◌∷◌ d p) = false
starts_with (String.◌∷◌ c s) (String.◌∷◌ d p) =
    (String.◌∷◌ c String.[] == String.◌∷◌ d String.[]) && starts_with s p

unfoldable pub missing_optional : Option String → String → Bool
unfolding starts_with concat
missing_optional none root = false
missing_optional (some name) root = name == root || starts_with name (concat root ".")

module _ {S : Type 0} where
  -- `results[name] = ...` for each of the cases.
  unfoldable pub run_cases : (Case → Exec S String) → List Case → Results → Exec S Results
  unfolding insert
  run_cases bucket [] results = pure results
  run_cases bucket (c ∷ cases) results =
      bucket c >>= λ got. run_cases bucket cases (insert c.name got results)

  abbrev pub run_lane : Exec S Results → Exec S (Option Results)
  run_lane lane = lane >>= λ results. pure (some results)

  -- The lane behind its imports; `none` is a lane that is skipped.
  abbrev pub guarded : String → Import → Exec S Results → Exec S (Option Results)
  guarded root imported lane = run_lane lane
  guarded root missing_dependency lane = pure none
  guarded root (import_error name) lane = elim (missing_optional name root) [
    | true ↦ pure none
    | false ↦ lift (raise unexpected)
  ]

  -- The same where only the adapter's own signal counts.
  abbrev pub guarded_strictly : Import → Exec S Results → Exec S (Option Results)
  guarded_strictly imported lane = run_lane lane
  guarded_strictly missing_dependency lane = pure none
  guarded_strictly (import_error name) lane = lift (raise unexpected)

-- `_openai_call`
unfoldable pub openai_call : (Fields → String) → String → Fields → Fields
openai_call dumps name args = field "type" (str "function") (
    field "function" (obj (field "name" (str name) (field "arguments" (str (dumps args)) end))) end)

module _ {W : Type 0} (e : Engine W) (dumps : Fields → String) where
  unfoldable pub scan_case : Case → Exec (State W) String
  unfolding scan scan_bucket openai_call
  scan_case c =
      scan e (some (openai_call dumps c.name c.arguments ∷ [])) end >>= λ r. pure (scan_bucket r)

  unfoldable pub rail_case : Case → Exec (State W) String
  unfolding authorize_tool_calls rail_bucket openai_call
  rail_case c =
      authorize_tool_calls e (some (openai_call dumps c.name c.arguments ∷ [])) none end >>= λ o.
      pure (rail_bucket o)

  unfoldable pub lane_llamafirewall : List Case → Import → Exec (State W) (Option Results)
  unfolding run_cases scan_case missing_optional
  lane_llamafirewall cases i = guarded "llamafirewall" i (run_cases scan_case cases [])

  unfoldable pub lane_nemo : List Case → Import → Exec (State W) (Option Results)
  unfolding run_cases rail_case
  lane_nemo cases i = guarded_strictly i (run_cases rail_case cases [])

-- `client.call_tool`: `false` is a `ToolError`.
module _ {S : Type 0} (call_tool : String → Fields → Exec S Bool) where
  unfoldable pub call_case : Case → Exec S String
  call_case c =
      call_tool c.name c.arguments >>= λ returned. pure (if returned then "ALLOW" else "BLOCK")

  unfoldable pub lane_fastmcp : List Case → Import → Exec S (Option Results)
  unfolding run_cases call_case missing_optional
  lane_fastmcp cases i = guarded "fastmcp" i (run_cases call_case cases [])

-- One case: a result that is missing is a `KeyError`.
abbrev pub compare : String → Option String → ℕ → Result ℕ
compare want none n = raise unexpected
compare want (some got) n = ok (if got == want then n else suc n)

-- The counters of `main`.
pub record Tally : Type 0 where
  pub ran : ℕ
  pub mismatches : ℕ

-- The loop over the cases, which goes on with the count of the mismatches so far.
unfoldable pub count_mismatches : List Case → Results → ℕ → Result ℕ
unfolding lookup
count_mismatches [] results n = ok n
count_mismatches (c ∷ cases) results n =
    Result.◌>>=◌ (compare c.want (lookup c.name results) n) (count_mismatches cases results)

abbrev pub count_lane : List Case → Option Results → Tally → Result Tally
count_lane cases none t = ok t
count_lane cases (some results) t =
    Result.◌>>=◌ (count_mismatches cases results t.mismatches)
      (λ n. ok (record { ran = suc t.ran; mismatches = n }))

-- The end of `main`, for the number of lanes.
unfoldable pub exit_code : Bool → ℕ → Tally → ℕ
exit_code require_all lanes t =
    if not (eqb t.mismatches 0) || eqb t.ran 0
    then 1
    else if require_all && ltb t.ran lanes
    then 1
    else 0

module _ {S : Type 0} (cases : List Case) where
  unfoldable pub run_lanes : List (Exec S (Option Results)) → Tally → Exec S Tally
  unfolding count_mismatches
  run_lanes [] t = pure t
  run_lanes (lane ∷ lanes) t =
      lane >>= λ o. lift (count_lane cases o t) >>= λ t'. run_lanes lanes t'

  -- The flags say that cedarpy is there, and that all lanes are required.
  unfoldable pub main : Bool → Bool → List (Exec S (Option Results)) → Exec S ℕ
  unfolding run_lanes exit_code
  main has_cedarpy require_all lanes =
      if has_cedarpy
      then (run_lanes lanes (record { ran = 0; mismatches = 0 }) >>= λ t.
          pure (exit_code require_all (length lanes) t))
      else pure 1
