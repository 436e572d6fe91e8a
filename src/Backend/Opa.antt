-- ===== src/Backend/Opa.antt =====
-- backends.py: `OPABackend`, which asks the Data API once for each entry of a batch.
use apparitor.Prelude.{ℕ, String, Bool, Option, none, some, List, [], ◌∷◌, map, get_elem?}
use apparitor.Backend.{DecisionBackend}
use apparitor.Client.Transport.{Network, post}
use apparitor.Config.{ScannerConfig}
use apparitor.Exec.{Exec, lift, ◌>>=◌}
use apparitor.Mapping.{or_else}
use apparitor.Models.{
  EvaluationRequest, EvaluationResponse, EvaluationItem, BatchEvaluationRequest,
  BatchEvaluationResponse,
}
use apparitor.Result
use apparitor.Result.{Result, ok, raise, cancelled, malformed, value_error, traverse}
use apparitor.Models.Dump.{dump_request}
use apparitor.Runtime.{Runtime}
use apparitor.Value.{Value, bool, obj, Fields, end, field, get}

-- Only a member "result" that is a Boolean is a decision.
abbrev pub as_decision : Option Value → Result Bool
as_decision (some (bool b)) = ok b
as_decision _ = raise malformed

unfoldable pub extract_decision : Value → Result Bool
unfolding get
extract_decision (obj fs) = as_decision (get "result" fs)
extract_decision _ = raise malformed

-- A missing part is a `ValidationError`, which is a `ValueError`.
abbrev pub required {ℓ} : {A : Type ℓ} → Option A → Result A
required none = raise value_error
required (some a) = ok a

-- An entry's own part outranks the request's, whatever it holds.
unfoldable pub merge_batch_item : EvaluationItem → BatchEvaluationRequest → Result EvaluationRequest
merge_batch_item item request =
    Result.◌>>=◌ (required (or_else item.subject request.subject)) λ principal.
      Result.◌>>=◌ (required (or_else item.action request.action)) λ action.
        Result.◌>>=◌ (required (or_else item.resource request.resource)) λ resource. ok (record {
          subject = principal;
          action = action;
          resource = resource;
          context = or_else item.context request.context;
        })

unfoldable pub batch_inputs : Runtime → BatchEvaluationRequest → Result (List Fields)
unfolding merge_batch_item traverse
batch_inputs rt request =
    traverse (λ item. Result.◌>>=◌ (merge_batch_item item request) λ r. ok (dump_request rt r))
      request.evaluations

abbrev pub itself {ℓ} : {A : Type ℓ} → A → A
itself a = a

-- What an awaitable that ends makes of the others' end: a failure is passed on at once.
abbrev pub past {ℓ κ} : {A : Type ℓ} {B : Type κ} → Option (Result A) → Result B → Result B
past none others = others
past (some (ok a)) others = others
past (some (raise exc)) others = raise exc
past (some cancelled) others = cancelled

-- `asyncio.gather` without `return_exceptions`: the awaitables end in the order `order`, the first
-- one that fails ends the whole, and otherwise their values come back in the order of the calls.
unfoldable pub gather {ℓ} : {A : Type ℓ} → List ℕ → List (Result A) → Result (List A)
unfolding traverse
gather [] outcomes = traverse itself outcomes
gather (i ∷ order) outcomes = past (get_elem? outcomes i) (gather order outcomes)

abbrev pub response_of : Bool → EvaluationResponse
response_of decision = record { decision = decision; context = none }

abbrev pub document : Fields → Fields
document input = field "input" (obj input) end

-- The decisions of the bodies that came back.
unfoldable pub gather_decisions : List (Result Value) × List ℕ → Result BatchEvaluationResponse
unfolding gather extract_decision
gather_decisions (bodies, order) =
    Result.◌>>=◌ (gather order (map (λ r. Result.◌>>=◌ r extract_decision) bodies))
      λ decisions. ok (record { evaluations = map response_of decisions })

-- `posts` is the event loop's run of `_post` on several documents at once: how each ended, and in
-- which order they ended.
module _ {W : Type 0} (rt : Runtime) (config : ScannerConfig) (net : Network W) (url : String)
    (posts : List Fields → W → (List (Result Value) × List ℕ) × W) where
  unfoldable pub evaluate : EvaluationRequest → Exec W EvaluationResponse
  unfolding post extract_decision
  evaluate request = do
    body ← post rt config net url (document (dump_request rt request))
    decision ← lift (extract_decision body)
    lift (ok (response_of decision))

  abbrev pub query_all : Result (List Fields) → Exec W BatchEvaluationResponse
  query_all (ok inputs) w =
      let (ended, w') = posts (map document inputs) w in (gather_decisions ended, w')
  query_all (raise exc) w = (raise exc, w)
  query_all cancelled w = (cancelled, w)

  unfoldable pub evaluate_batch : BatchEvaluationRequest → Exec W BatchEvaluationResponse
  unfolding gather_decisions batch_inputs
  evaluate_batch request = query_all (batch_inputs rt request)

  abbrev pub opa_backend : DecisionBackend W
  opa_backend = record { evaluate = evaluate; evaluate_batch = evaluate_batch }
