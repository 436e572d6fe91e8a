-- ===== src/Client/Trace.antt =====
-- client.py: what a POST asks of the network, recorded beside what it does.
use apparitor.Prelude.{
  ℕ, zero, suc, ◌+◌, ◌≡◌, refl, String, Option, none, some, List, [], ◌∷◌, leb, Bool-cases, subst,
  inl, inr,
}
use apparitor.Client.Rounds.{Next-cases, attempt_at, next_at}
use apparitor.Client.Transport.{
  Timeouts, Network, backoff, post_loop, post, of_fuel, finished, capped_timeouts, should_retry,
  after_attempt, done, again,
}
use apparitor.Config.{ScannerConfig}
use apparitor.Exec.{Exec, after, ◌>>=◌}
use apparitor.Result.{Result, ok, raise, cancelled}
use apparitor.Runtime.{Runtime}
use apparitor.Value.{Value, Fields}

-- An attempt with its timeouts, or a sleep with its length, and the time at which it started.
pub data Action : Type 0 where
  attempted : ℕ → Timeouts → Action
  slept : ℕ → ℕ → Action

-- The network that also records what is asked of it, the last action first.
abbrev pub traced : {W : Type 0} → Network W → Network (W × List Action)
traced net = record {
  post = λ url payload t x.
      let (a, w) = net.post url payload t x.0 in (a, (w, attempted (net.clock x.0) t ∷ x.1));
  clock = λ x. net.clock x.0;
  sleep = λ d x. let (r, w) = net.sleep d x.0 in (r, (w, slept (net.clock x.0) d ∷ x.1));
  uniform = λ b x. let (j, w) = net.uniform b x.0 in (j, (w, x.1));
}

abbrev pub attempts : List Action → ℕ
attempts [] = 0
attempts (attempted start t ∷ actions) = suc (attempts actions)
attempts (slept start d ∷ actions) = attempts actions

-- The outcome and the world of the network itself, without the record.
abbrev pub erase {ℓ} : {W : Type 0} {A : Type ℓ} → A × (W × List Action) → A × W
erase out = (out.0, out.1.0)

after-erase :
    {W A B : Type 0} (r : Result A) (f : A → Exec (W × List Action) B) (g : A → Exec W B)
    (x : W × List Action)
    → ((a : A) (y : W × List Action) → erase (f a y) ≡ g a y.0)
    → erase (after r f x) ≡ after r g x.0
after-erase (ok a) f g x h = h a x
after-erase (raise exc) f g x h = refl
after-erase cancelled f g x h = refl

-- Chains whose steps agree but for the record agree but for the record.
chain-erase :
    {W A B : Type 0} (m : Exec (W × List Action) A) (n : Exec W A)
    (f : A → Exec (W × List Action) B) (g : A → Exec W B) (x : W × List Action)
    → erase (m x) ≡ n x.0
    → ((a : A) (y : W × List Action) → erase (f a y) ≡ g a y.0)
    → erase ((m >>= f) x) ≡ (n >>= g) x.0
chain-erase m n f g x first h =
    subst (λ out. erase ((m >>= f) x) ≡ after out.0 g out.1) first
      (after-erase (m x).0 f g (m x).1 h)

module _ {W : Type 0} (rt : Runtime) (config : ScannerConfig) (net : Network W) where
  backoff-traced :
      (attempt deadline : ℕ) (x : W × List Action)
      → erase (backoff rt config (traced net) attempt deadline x)
        ≡ backoff rt config net attempt deadline x.0
  unfolding backoff apparitor.Client.Transport.base_delay
  backoff-traced attempt deadline x =
      elim (Bool-cases (leb deadline (net.clock (net.uniform config.backoff_base x.0).1))) [
        | inl e ↦ rw e refl
        | inr e ↦ rw e refl
      ]

  post_loop-traced :
      (fuel : ℕ) (url : String) (payload : Fields) (deadline attempt : ℕ) (x : W × List Action)
      → erase (post_loop rt config (traced net) fuel url payload deadline attempt x)
        ≡ post_loop rt config net fuel url payload deadline attempt x.0
  unfolding post_loop capped_timeouts should_retry
  post_loop-traced zero url payload deadline attempt x = refl
  post_loop-traced (suc fuel) url payload deadline attempt x =
      elim (Bool-cases (leb deadline (net.clock x.0))) [
        | inl e ↦ rw e refl
        | inr e ↦ elim (Next-cases (next_at rt config net url payload deadline attempt x.0)) [
          | inl n ↦
              rw (e, n)
                (chain-erase (backoff rt config (traced net) attempt deadline)
                  (backoff rt config net attempt deadline)
                  (λ _. post_loop rt config (traced net) fuel url payload deadline (attempt + 1))
                  (λ _. post_loop rt config net fuel url payload deadline (attempt + 1))
                  (attempt_at rt config (traced net) url payload deadline x).1
                  (backoff-traced attempt deadline _)
                  (λ _ y. post_loop-traced fuel url payload deadline (attempt + 1) y))
          | inr (r, n) ↦ rw (e, n) refl
        ]
      ]

  of_fuel-traced : (r : Option Value) (x : W × List Action) → erase (of_fuel r x) ≡ of_fuel r x.0
  of_fuel-traced none x = refl
  of_fuel-traced (some v) x = refl

  -- The record changes neither the outcome nor the world.
  pub post-traced :
      (url : String) (payload : Fields) (x : W × List Action)
      → erase (post rt config (traced net) url payload x) ≡ post rt config net url payload x.0
  unfolding post
  post-traced url payload x =
      let deadline = net.clock x.0 + config.request_budget in
      chain-erase (post_loop rt config (traced net) (suc config.max_retries) url payload deadline 0)
        (post_loop rt config net (suc config.max_retries) url payload deadline 0) of_fuel of_fuel x
        (post_loop-traced (suc config.max_retries) url payload deadline 0 x) of_fuel-traced
