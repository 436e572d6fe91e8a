-- ===== src/Client/Rounds.antt =====
-- client.py: one round of the retry loop, and that the loop ends.
use apparitor.Prelude.{
  ℕ, zero, suc, ◌+◌, ◌-◌, ◌≤◌, ◌<◌, ◌≡◌, ◌≢◌, refl, String, Bool, true, Option, none, arith, leb,
  inl, inr, ◌⊎◌, Bool-cases,
}
use apparitor.Client.Transport.{
  Attempt, Network, Next, done, again, capped_timeouts, should_retry, backoff, after_attempt,
  post_loop, finished,
}
use apparitor.Config.{ScannerConfig}
use apparitor.Exec.{after-ok, ◌>>=◌}
use apparitor.Result.{Result, ok, raise, cancelled, timeout}
use apparitor.Runtime.{Runtime}
use apparitor.Value.{Value, Fields}

pub Next-cases : (n : Next) → (n ≡ again) ⊎ ((r : Result Value) × (n ≡ done r))
Next-cases (done r) = inr (r, refl)
Next-cases again = inl refl

-- Another round needs a retry.
again-retry :
    (rt : Runtime) (a : Attempt) (retry : Bool) → after_attempt rt a retry ≡ again → retry ≡ true
unfolding after_attempt
again-retry rt a retry h = ground arith

finished-ne-none : (r : Result Value) → finished r ≢ ok none
finished-ne-none (ok v) h = cc
finished-ne-none (raise exc) h = cc
finished-ne-none cancelled h = cc

module _ {W : Type 0} (rt : Runtime) (config : ScannerConfig) (net : Network W) where
  open net use {clock}

  retry-lt :
      (attempt deadline : ℕ) (w : W)
      → should_retry rt config net attempt deadline w ≡ true
      → attempt < config.max_retries
  unfolding should_retry
  retry-lt attempt deadline w h = ground arith

  abbrev pub attempt_at : String → Fields → ℕ → W → Attempt × W
  attempt_at url payload deadline w =
      net.post url payload (capped_timeouts rt config net (deadline - clock w)) w

  abbrev pub next_at : String → Fields → ℕ → ℕ → W → Next
  next_at url payload deadline attempt w =
      let (a, w') = attempt_at url payload deadline w in
      after_attempt rt a (should_retry rt config net attempt deadline w')

  -- One round of the loop: it is too late, or the attempt ends the loop, or it is repeated after the
  -- backoff.
  pub round_cases :
      (P : Result (Option Value) × W → Type 0) (fuel : ℕ) (url : String) (payload : Fields)
      (deadline attempt : ℕ) (w : W)
      → (deadline ≤ clock w → P (raise timeout, w))
      → (clock w < deadline
          → (r : Result Value) → next_at url payload deadline attempt w ≡ done r
          → P (finished r, (attempt_at url payload deadline w).1))
      → (clock w < deadline
          → attempt < config.max_retries
          → P (
              (backoff rt config net attempt deadline >>= λ _.
              post_loop rt config net fuel url payload deadline (attempt + 1))
                (attempt_at url payload deadline w).1))
      → P (post_loop rt config net (suc fuel) url payload deadline attempt w)
  unfolding post_loop
  round_cases P fuel url payload deadline attempt w late ended repeated =
      elim (Bool-cases (leb deadline (clock w))) [
        | inl e ↦ rw e (late (ground arith))
        | inr e ↦
            let soon : clock w < deadline = ground (arith, e) in
            elim (Next-cases (next_at url payload deadline attempt w)) [
              | inl n ↦
                  rw (e, n)
                    (repeated soon (
                      retry-lt attempt deadline (attempt_at url payload deadline w).1
                        (again-retry rt (attempt_at url payload deadline w).0 _ n)))
              | inr (r, n) ↦ rw (e, n) (ended soon r n)
            ]
      ]

  -- The fuel lasts while it exceeds the retries that are left.
  post_loop-ne-none :
      (fuel : ℕ) (url : String) (payload : Fields) (deadline attempt : ℕ) (w : W)
      → attempt ≤ config.max_retries
      → config.max_retries < fuel + attempt
      → (post_loop rt config net fuel url payload deadline attempt w).0 ≢ ok none
  post_loop-ne-none zero url payload deadline attempt w le lt = absurd (omega arith)
  post_loop-ne-none (suc fuel) url payload deadline attempt w le lt =
      round_cases (λ out. out.0 ≢ ok none) fuel url payload deadline attempt w (λ late h. cc (h))
        (λ soon r n. finished-ne-none r)
        (λ soon left h.
          let w' = (attempt_at url payload deadline w).1 in
          let (u, slept, h₁) = after-ok (backoff rt config net attempt deadline w').0 _ _ h in
          post_loop-ne-none fuel url payload deadline (attempt + 1) _ (omega arith) (omega arith)
            h₁)

  -- The loop of a POST ends within `max_retries + 1` rounds, whatever the network does: the fuel that
  -- `post` gives it does not run out, so it ends with a body, an exception or a cancellation.
  pub post_loop-ends :
      (url : String) (payload : Fields) (deadline : ℕ) (w : W)
      → (post_loop rt config net (suc config.max_retries) url payload deadline 0 w).0 ≢ ok none
  post_loop-ends url payload deadline w =
      post_loop-ne-none (suc config.max_retries) url payload deadline 0 w (omega arith)
        (omega arith)
