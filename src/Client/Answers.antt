-- ===== src/Client/Answers.antt =====
-- client.py: where a response of the AuthZEN client comes from.
use apparitor.Prelude.{
  ℕ, zero, suc, ◌+◌, ◌≤◌, ◌<◌, ◌≡◌, refl, String, Bool, Option, none, some, arith, concat,
}
use apparitor.Client.Authzen.{evaluate, evaluate_batch}
use apparitor.Client.Json.{strict_json, parse_response, parse_batch_response, or_malformed}
use apparitor.Client.Strict.{HasUniqueKeys, strict_json_unique}
use apparitor.Models.Responses.{
  validate_response, validate_batch_response, Reports, ReportsBatch, validate_response-Reports,
  validate_batch_response-ReportsBatch,
}
use apparitor.Client.Rounds.{round_cases, attempt_at}
use apparitor.Client.Transport.{
  Timeouts, Attempt, responded, timed_out, transport_failed, failed, interrupted, Network, done,
  handle_status, after_attempt, post_loop, post, finished, of_fuel, backoff, capped_timeouts,
}
use apparitor.Config.{ScannerConfig}
use apparitor.Exec.{after-ok}
use apparitor.Models.{
  EvaluationRequest, EvaluationResponse, BatchEvaluationRequest, BatchEvaluationResponse,
}
use apparitor.Result.{Result, ok, raise, cancelled}
use apparitor.Models.Dump.{dump_request, dump_batch}
use apparitor.Runtime.{Runtime}
use apparitor.Value.{Value, Fields}

handle_status-ok :
    (rt : Runtime) (code : ℕ) (content : String) (v : Value)
    → handle_status rt code content ≡ ok v
    → (200 ≤ code) × (code < 300) × (strict_json rt content ≡ ok v)
unfolding handle_status
handle_status-ok rt code content v h = (ground arith, ground arith, ground arith)

-- The attempt came back with a success, and its body reads as the value.
abbrev pub Reads : Runtime → Attempt → Value → Type 0
Reads rt a v =
    (code : ℕ) × (content : String) × (a ≡ responded code content)
    × (200 ≤ code)
    × (code < 300)
    × (strict_json rt content ≡ ok v)

after_attempt-Reads :
    (rt : Runtime) (a : Attempt) (retry : Bool) (v : Value)
    → after_attempt rt a retry ≡ done (ok v)
    → Reads rt a v
unfolding after_attempt
after_attempt-Reads rt (responded code content) retry v h =
    let status : handle_status rt code content ≡ ok v = ground (arith, h) in
    let (from, to, parsed) = handle_status-ok rt code content v status in
    (code, content, refl, from, to, parsed)
after_attempt-Reads rt timed_out retry v h = absurd (ground (arith, h))
after_attempt-Reads rt transport_failed retry v h = absurd (ground (arith, h))
after_attempt-Reads rt (failed exc) retry v h = absurd (ground (arith, h))
after_attempt-Reads rt interrupted retry v h = absurd (ground (arith, h))

finished-some : (r : Result Value) (v : Value) → finished r ≡ ok (some v) → r ≡ ok v
finished-some (ok u) v h = ground (arith, h)
finished-some (raise exc) v h = absurd (ground (arith, h))
finished-some cancelled v h = absurd (ground (arith, h))

module _ {W : Type 0} (rt : Runtime) (config : ScannerConfig) (net : Network W) where
  -- An attempt for the payload at the URL, in some state, reads as the value.
  abbrev pub Answered : String → Fields → Value → Type 0
  Answered url payload v = (t : Timeouts) × (w : W) × Reads rt (net.post url payload t w).0 v

  post_loop-Answered :
      (fuel : ℕ) (url : String) (payload : Fields) (deadline attempt : ℕ) (w : W) (v : Value)
      → (post_loop rt config net fuel url payload deadline attempt w).0 ≡ ok (some v)
      → Answered url payload v
  post_loop-Answered zero url payload deadline attempt w v h =
      let k : ◌≡◌ {A = Result (Option Value)} (ok none) (ok (some v)) = unfold post_loop in h in
      absurd (ground (arith, k))
  post_loop-Answered (suc fuel) url payload deadline attempt w v h =
      round_cases rt config net (λ out. out.0 ≡ ok (some v) → Answered url payload v) fuel url
        payload deadline attempt w (λ late k. absurd (ground (arith, k)))
        (λ soon r n k.
          let same : r ≡ ok v = finished-some r v k in
          (
            capped_timeouts rt config net _,
            w,
            after_attempt-Reads rt (attempt_at rt config net url payload deadline w).0 _ v
                (rw same at n),
          ))
        (λ soon left k.
          let w' = (attempt_at rt config net url payload deadline w).1 in
          let (u, slept, k₁) = after-ok (backoff rt config net attempt deadline w').0 _ _ k in
          post_loop-Answered fuel url payload deadline (attempt + 1) _ v k₁)
        h

  of_fuel-some : (r : Option Value) (w : W) (v : Value) → (of_fuel r w).0 ≡ ok v → r ≡ some v
  of_fuel-some none w v h = absurd (ground (arith, h))
  of_fuel-some (some u) w v h = ground (arith, h)

  post-Answered :
      (url : String) (payload : Fields) (w : W) (v : Value)
      → (post rt config net url payload w).0 ≡ ok v
      → Answered url payload v
  unfolding post
  post-Answered url payload w v h =
      let (r, looped, h₁) =
        after-ok
          (post_loop rt config net (suc config.max_retries) url payload
            (net.clock w + config.request_budget) 0 w).0
          _ _ h in
      post_loop-Answered (suc config.max_retries) url payload (net.clock w + config.request_budget)
        0 w v (rw (of_fuel-some r _ v h₁) at looped)

  or_malformed-some : {A : Type 0} (o : Option A) (a : A) → or_malformed o ≡ ok a → o ≡ some a
  or_malformed-some none a h = absurd (ground (arith, h))
  or_malformed-some (some b) a h = ground (arith, h)

  reads-HasUniqueKeys :
      (url : String) (payload : Fields) (v : Value) → Answered url payload v → HasUniqueKeys v
  reads-HasUniqueKeys url payload v (t, w, (code, content, e, from, to, read)) =
      strict_json_unique rt content v read

  -- A response of the client: an attempt for the dumped request, at the evaluation path behind the
  -- base URL, came back with a status from 200 to 299, and its body passed the strict reader as an
  -- object with no key twice at any depth, whose member `decision` is the Boolean of the response.
  pub evaluate-Answered :
      (base : String) (r : EvaluationRequest) (w : W) (x : EvaluationResponse)
      → (evaluate rt config net base r w).0 ≡ ok x
      → (v : Value) × Answered (concat base config.evaluation_path) (dump_request rt r) v
        × HasUniqueKeys v
        × Reports v x.decision
  unfolding evaluate parse_response
  evaluate-Answered base r w x h =
      let url = concat base config.evaluation_path in
      let (v, posted, h₁) = after-ok (post rt config net url (dump_request rt r) w).0 _ _ h in
      let answered = post-Answered url (dump_request rt r) w v posted in
      (
        v,
        answered,
        reads-HasUniqueKeys url (dump_request rt r) v answered,
        validate_response-Reports v x (or_malformed-some (validate_response v) x h₁),
      )

  -- A batch response of the client was read in the same way, at the batch path, from an object that
  -- has no evaluations, if the response has none, or a list of them, which has one object for each
  -- decision of the response, in their order, with the Boolean of the decision.
  pub evaluate_batch-Answered :
      (base : String) (r : BatchEvaluationRequest) (w : W) (x : BatchEvaluationResponse)
      → (evaluate_batch rt config net base r w).0 ≡ ok x
      → (v : Value) × Answered (concat base config.batch_path) (dump_batch rt r) v
        × HasUniqueKeys v
        × ReportsBatch v x
  unfolding evaluate_batch parse_batch_response
  evaluate_batch-Answered base r w x h =
      let url = concat base config.batch_path in
      let (v, posted, h₁) = after-ok (post rt config net url (dump_batch rt r) w).0 _ _ h in
      let answered = post-Answered url (dump_batch rt r) w v posted in
      (
        v,
        answered,
        reads-HasUniqueKeys url (dump_batch rt r) v answered,
        validate_batch_response-ReportsBatch v x
            (or_malformed-some (validate_batch_response v) x h₁),
      )
