-- ===== src/Client/Recovery.antt =====
-- client.py: the retry loop gets through to a service that recovers in time.
use apparitor.Prelude.{
  ℕ, zero, suc, ◌+◌, ◌≤◌, ◌<◌, ◌≡◌, refl, String, Bool, true, false, some, arith, leb,
}
use apparitor.Client.Json.{strict_json}
use apparitor.Client.Rounds.{attempt_at, next_at}
use apparitor.Client.Transport.{
  Attempt, responded, timed_out, transport_failed, Network, done, again, is_retry_status,
  handle_status, after_attempt, should_retry, backoff, post_loop, post,
}
use apparitor.Config.{ScannerConfig}
use apparitor.Exec.{after}
use apparitor.Result.{ok}
use apparitor.Runtime.{Runtime}
use apparitor.Value.{Value, Fields}

-- A failure that is worth another attempt.
pub data IsTransient : Attempt → Type 0 where
  busy :
      (code : ℕ) (content : String)
      → is_retry_status code ≡ true
      → IsTransient (responded code content)
  slow : IsTransient timed_out
  broken : IsTransient transport_failed

IsTransient-again : (rt : Runtime) (a : Attempt) → IsTransient a → after_attempt rt a true ≡ again
unfolding after_attempt
IsTransient-again rt a (busy code content h) = rw h refl
IsTransient-again rt a slow = refl
IsTransient-again rt a broken = refl

success-done :
    (rt : Runtime) (code : ℕ) (content : String) (retry : Bool) {v : Value}
    → 200 ≤ code
    → code < 300
    → strict_json rt content ≡ ok v
    → after_attempt rt (responded code content) retry ≡ done (ok v)
unfolding after_attempt is_retry_status handle_status
success-done rt code content retry from to parsed = ground arith

module _ {W : Type 0} (rt : Runtime) (config : ScannerConfig) (net : Network W) (url : String)
    (payload : Fields) (deadline : ℕ) (v : Value) where
  open net use {clock}

  abbrev attempt_from : W → Attempt × W
  attempt_from w = attempt_at rt config net url payload deadline w

  -- From the attempt with this number on, the service recovers in time: either the attempt comes back
  -- with a success whose body reads as the value; or it fails for the time being, a retry is left, the
  -- deadline is not reached, the backoff ends, and the service recovers from the next attempt on.
  pub data Recovers : ℕ → W → Type 0 where
    answers :
        (attempt : ℕ) (w : W) (code : ℕ) (content : String)
        → clock w < deadline
        → (attempt_from w).0 ≡ responded code content
        → 200 ≤ code
        → code < 300
        → strict_json rt content ≡ ok v
        → Recovers attempt w
    fails :
        (attempt : ℕ) (w w' : W)
        → clock w < deadline
        → IsTransient (attempt_from w).0
        → attempt < config.max_retries
        → clock (attempt_from w).1 < deadline
        → backoff rt config net attempt deadline (attempt_from w).1 ≡ (ok tt, w')
        → Recovers (attempt + 1) w'
        → Recovers attempt w

  post_loop-Recovers :
      (fuel attempt : ℕ) (w : W)
      → Recovers attempt w
      → attempt ≤ config.max_retries
      → config.max_retries < fuel + attempt
      → (post_loop rt config net fuel url payload deadline attempt w).0 ≡ ok (some v)
  unfolding post_loop
  post_loop-Recovers zero attempt w r le lt = absurd (omega arith)
  post_loop-Recovers (suc fuel) attempt w (answers _ _ code content soon e from to parsed) le lt =
      let early : leb deadline (clock w) ≡ false = ground arith in
      let n : next_at rt config net url payload deadline attempt w ≡ done (ok v) =
        rw e (success-done rt code content _ from to parsed) in
      rw (early, n) refl
  post_loop-Recovers (suc fuel) attempt w (fails _ _ w' soon transient left still slept r) le lt =
      let early : leb deadline (clock w) ≡ false = ground arith in
      let retry : should_retry rt config net attempt deadline (attempt_from w).1 ≡ true =
        unfold should_retry in ground arith in
      let n : next_at rt config net url payload deadline attempt w ≡ again =
        rw retry (IsTransient-again rt (attempt_from w).0 transient) in
      rw (early, n)
        (rw (slept, after) (post_loop-Recovers fuel (attempt + 1) w' r (omega arith) (omega arith)))

-- A POST succeeds if the service recovers in time: if a success follows on at most `max_retries`
-- failures that are worth another attempt, and each attempt begins before the budget is spent, then
-- the body of the success is returned.
pub post-Recovers :
    {W : Type 0} (rt : Runtime) (config : ScannerConfig) (net : Network W) (url : String)
    (payload : Fields) (v : Value) (w : W)
    → Recovers rt config net url payload (net.clock w + config.request_budget) v 0 w
    → (post rt config net url payload w).0 ≡ ok v
unfolding post
post-Recovers rt config net url payload v w r =
    let looped =
      post_loop-Recovers rt config net url payload (net.clock w + config.request_budget) v
        (suc config.max_retries) 0 w r (omega arith) (omega arith) in
    rw (looped, after) refl
