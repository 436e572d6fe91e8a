-- ===== src/Backend/Cedar.antt =====
-- cedar.py: `CedarBackend`, an engine in the process.
use Prim.Native.Char.{code}
use Prim.Native.String.{String, [], ◌∷◌}
use apparitor.Prelude.{
  Bool, true, false, ◌||◌, Option, none, some, List, map, ◌==◌, eqb, leb, if◌then◌else◌, concat,
}
use apparitor.Backend.Opa.{merge_batch_item, response_of}
use apparitor.Exec.{Exec, ◌>>=◌}
use apparitor.Models.{
  EvaluationRequest, EvaluationResponse, BatchEvaluationRequest, BatchEvaluationResponse,
}
use apparitor.Result
use apparitor.Result.{Result, ok, raise, cancelled, malformed, value_error, raise_if, traverse}
use apparitor.Runtime.{Runtime}
use apparitor.Value.{Fields, end}

-- `any(c == '"' or c == "\\" or ord(c) <= 0x1F for c in identifier)`
unfoldable pub is_disallowed : String → Bool
is_disallowed [] = false
is_disallowed (c ∷ s) =
    (eqb (code c) 0x22 || eqb (code c) 0x5c || leb (code c) 0x1f) || is_disallowed s

-- `_TYPE_MAP.get(kind, kind.title())`
unfoldable pub entity_type : Runtime → String → String
entity_type rt kind =
    if kind == "agent" then "Agent" else if kind == "tool" then "Tool" else rt.title kind

unfoldable pub entity_uid : Runtime → String → String → Result String
unfolding is_disallowed entity_type concat
entity_uid rt kind identifier =
    Result.◌>>=◌ (raise_if (is_disallowed identifier) value_error)
      λ _. ok (concat (entity_type rt kind) (concat "::\"" (concat identifier "\"")))

pub record CedarRequest : Type 0 where
  pub principal : String
  pub action : String
  pub resource : String
  pub context : Fields

pub data CedarDecision : Type 0 where
  allowed denied no_decision : CedarDecision

-- The binding, at the policies, entities and schema that the constructor has loaded.
pub record Cedarpy (W : Type 0) : Type 0 where
  pub is_authorized : CedarRequest → Exec W CedarDecision
  pub is_authorized_batch : List CedarRequest → Exec W (List CedarDecision)

-- `result.decision == cedarpy.Decision.Allow`
abbrev pub is_allow : CedarDecision → Bool
is_allow allowed = true
is_allow _ = false

abbrev or_end : Option Fields → Fields
or_end none = end
or_end (some fs) = fs

unfoldable pub cedar_request : Runtime → EvaluationRequest → Result CedarRequest
unfolding entity_uid
cedar_request rt req = Result.◌>>=◌ (entity_uid rt req.subject.type req.subject.id) λ principal.
    Result.◌>>=◌ (entity_uid rt "action" req.action.name) λ action.
      Result.◌>>=◌ (entity_uid rt req.resource.type req.resource.id) λ resource. ok (record {
        principal = principal;
        action = action;
        resource = resource;
        context = or_end req.context;
      })

-- `except Exception as exc: raise MalformedPDPResponseError`
abbrev pub as_malformed {ℓ} : {A : Type ℓ} → Result A → Result A
as_malformed (raise exc) = raise malformed
as_malformed r = r

module _ {W : Type 0} (rt : Runtime) (cedarpy : Cedarpy W) where
  -- A call of the binding on what was built, and what is made of its result.
  abbrev pub call_with : {A B C : Type 0} → Result A → (A → Exec W B) → (B → C) → Exec W C
  call_with (ok a) call f w =
      let (r, w') = call a w in (as_malformed (Result.◌>>=◌ r λ b. ok (f b)), w')
  call_with (raise exc) call f w = (raise malformed, w)
  call_with cancelled call f w = (cancelled, w)

  unfoldable pub decide : EvaluationRequest → Exec W Bool
  unfolding cedar_request
  decide request = call_with (cedar_request rt request) (cedarpy.is_authorized) is_allow

  unfoldable pub decide_batch : BatchEvaluationRequest → Exec W (List Bool)
  unfolding cedar_request merge_batch_item traverse
  decide_batch request =
      call_with
        (traverse (λ item. Result.◌>>=◌ (merge_batch_item item request) (cedar_request rt))
          request.evaluations)
        (cedarpy.is_authorized_batch) (map is_allow)

  unfoldable pub evaluate : EvaluationRequest → Exec W EvaluationResponse
  unfolding decide
  evaluate request = decide request >>= λ decision w. (ok (response_of decision), w)

  unfoldable pub evaluate_batch : BatchEvaluationRequest → Exec W BatchEvaluationResponse
  unfolding decide_batch
  evaluate_batch request = decide_batch request >>= λ decisions w.
      (ok (record { evaluations = map response_of decisions }), w)
