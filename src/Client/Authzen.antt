-- ===== src/Client/Authzen.antt =====
-- client.py: the constructor of `HTTPDecisionTransport`, and `AuthZENClient` on top of it.
use Prim.Native.Char.{Char, code}
use Prim.Native.String.{String, [], ◌∷◌}
use apparitor.Prelude.{Option, none, some, eqb, if◌then◌else◌, concat}
use apparitor.Backend.{DecisionBackend}
use apparitor.Client.Json.{parse_response, parse_batch_response}
use apparitor.Client.Transport.{Network, post}
use apparitor.Client.Url.{Url, IpAddress, validate_pdp_url}
use apparitor.Config.{ScannerConfig}
use apparitor.Exec.{Exec, lift, ◌>>=◌}
use apparitor.Models.{
  EvaluationRequest, EvaluationResponse, BatchEvaluationRequest, BatchEvaluationResponse,
}
use apparitor.Result
use apparitor.Result.{Result, ok, raise, config_error}
use apparitor.Models.Dump.{dump_request, dump_batch}
use apparitor.Runtime.{Runtime}

-- One character in front of a rest without trailing slashes; a slash goes too if nothing is behind it.
abbrev pub drop_slash : Char → String → String
drop_slash c [] = if eqb (code c) b'/' then [] else c ∷ []
drop_slash c (d ∷ r) = c ∷ d ∷ r

-- s.rstrip("/")
unfoldable pub rstrip_slash : String → String
rstrip_slash [] = []
rstrip_slash (c ∷ s) = drop_slash c (rstrip_slash s)

-- The base URL that the constructor fixes, once the guard has passed the configured one.
unfoldable pub base_url :
    (String → Option Url) → (String → Option IpAddress) → ScannerConfig → Result String
unfolding validate_pdp_url rstrip_slash
base_url urlparse ip_address config = elim config.pdp_url [
  | none ↦ raise config_error
  | some url ↦
      Result.◌>>=◌ (validate_pdp_url urlparse ip_address url config.allow_insecure_pdp)
        λ _. ok (rstrip_slash url)
]

module _ {W : Type 0} (rt : Runtime) (config : ScannerConfig) (net : Network W)
    (base : String) where
  unfoldable pub evaluate : EvaluationRequest → Exec W EvaluationResponse
  unfolding post parse_response concat
  evaluate request = do
    body ← post rt config net (concat base config.evaluation_path) (dump_request rt request)
    lift (parse_response body)

  unfoldable pub evaluate_batch : BatchEvaluationRequest → Exec W BatchEvaluationResponse
  unfolding post parse_batch_response concat
  evaluate_batch request = do
    body ← post rt config net (concat base config.batch_path) (dump_batch rt request)
    lift (parse_batch_response body)

  abbrev pub authzen_client : DecisionBackend W
  authzen_client = record { evaluate = evaluate; evaluate_batch = evaluate_batch }
