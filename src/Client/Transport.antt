-- ===== src/Client/Transport.antt =====
-- client.py: `HTTPDecisionTransport`, a POST with bounded retries within the request budget.
use apparitor.Prelude.{
  ℕ, zero, suc, ◌+◌, ◌-◌, ◌*◌, ◌^◌, String, Bool, ◌&&◌, ◌||◌, Option, none, some, ltb, leb, eqb,
  min, if◌then◌else◌,
}
use apparitor.Client.Json.{strict_json}
use apparitor.Config.{ScannerConfig}
use apparitor.Exec.{Exec, ◌>>=◌}
use apparitor.Result.{
  Exception, Result, ok, raise, cancelled, client_error, unavailable, timeout, unexpected,
}
use apparitor.Runtime.{Runtime}
use apparitor.Value.{Value, Fields}

pub record Timeouts : Type 0 where
  pub connect : ℕ
  pub read : ℕ
  pub write : ℕ
  pub pool : ℕ

-- How one attempt ends: with a status code and a body, or with an `httpx.TimeoutException`, another
-- `httpx.TransportError`, any other exception, or a cancellation.
pub data Attempt : Type 0 where
  responded : ℕ → String → Attempt
  timed_out : Attempt
  transport_failed : Attempt
  failed : Exception → Attempt
  interrupted : Attempt

-- The HTTP client, the clock of the event loop, `asyncio.sleep` and `random.uniform(0, bound)`.
pub record Network (W : Type 0) : Type 0 where
  pub post : String → Fields → Timeouts → W → Attempt × W
  pub clock : W → ℕ
  pub sleep : ℕ → Exec W (Unit {0})
  pub uniform : ℕ → W → ℕ × W

-- `_RETRY_STATUS`
unfoldable pub is_retry_status : ℕ → Bool
is_retry_status code = eqb code 429 || eqb code 502 || eqb code 503 || eqb code 504

unfoldable pub handle_status : Runtime → ℕ → String → Result Value
unfolding strict_json
handle_status rt code content =
    if leb 200 code && ltb code 300
    then strict_json rt content
    else if leb 300 code && ltb code 400
    then raise unavailable
    else if leb 400 code && ltb code 500
    then raise (client_error (some code))
    else raise unavailable

-- What an attempt leads to: an outcome, or another round.
pub data Next : Type 0 where
  done : Result Value → Next
  again : Next

unfoldable pub after_attempt : Runtime → Attempt → Bool → Next
unfolding is_retry_status handle_status
after_attempt rt (responded code content) retry =
    if is_retry_status code && retry then again else done (handle_status rt code content)
after_attempt rt timed_out retry = if retry then again else done (raise timeout)
after_attempt rt transport_failed retry = if retry then again else done (raise unavailable)
after_attempt rt (failed exc) retry = done (raise exc)
after_attempt rt interrupted retry = done cancelled

abbrev pub finished : Result Value → Result (Option Value)
finished (ok v) = ok (some v)
finished (raise exc) = raise exc
finished cancelled = cancelled

-- The last round is the one with the attempt number `max_retries`, so the fuel does not run out.
abbrev pub of_fuel : {W : Type 0} → Option Value → Exec W Value
of_fuel none w = (raise unexpected, w)
of_fuel (some v) w = (ok v, w)

module _ {W : Type 0} (rt : Runtime) (config : ScannerConfig) (net : Network W) where
  open net use {clock}

  unfoldable pub capped_timeouts : ℕ → Timeouts
  capped_timeouts remaining = record {
    connect = min config.connect_timeout remaining;
    read = min config.read_timeout remaining;
    write = min config.read_timeout remaining;
    pool = min config.connect_timeout remaining;
  }

  unfoldable pub should_retry : ℕ → ℕ → W → Bool
  should_retry attempt deadline w = ltb attempt config.max_retries && ltb (clock w) deadline

  -- The exponential delay before its jitter.
  unfoldable pub base_delay : ℕ → ℕ
  base_delay attempt = min (config.backoff_base * 2 ^ attempt) config.backoff_max

  unfoldable pub backoff : ℕ → ℕ → Exec W (Unit {0})
  unfolding base_delay
  backoff attempt deadline w =
      let (jitter, w') = net.uniform config.backoff_base w in
      if leb deadline (clock w')
      then (ok tt, w')
      else net.sleep (min (base_delay attempt + jitter) (deadline - clock w')) w'

  -- The loop on fuel; `none` means that the fuel ran out.
  unfoldable pub post_loop : ℕ → String → Fields → ℕ → ℕ → Exec W (Option Value)
  unfolding capped_timeouts should_retry after_attempt backoff
  post_loop zero url payload deadline attempt w = (ok none, w)
  post_loop (suc fuel) url payload deadline attempt w =
      let next_round = post_loop fuel url payload deadline (attempt + 1) in
      if leb deadline (clock w)
      then (raise timeout, w)
      else let (result, w') = net.post url payload (capped_timeouts (deadline - clock w)) w in
        elim (after_attempt rt result (should_retry attempt deadline w')) [
          | done r ↦ (finished r, w')
          | again ↦ (backoff attempt deadline >>= λ _. next_round) w'
        ]

  -- `_post`, at the absolute URL.
  unfoldable pub post : String → Fields → Exec W Value
  unfolding post_loop
  post url payload w =
      (post_loop (suc config.max_retries) url payload (clock w + config.request_budget) 0
          >>= of_fuel)
        w
