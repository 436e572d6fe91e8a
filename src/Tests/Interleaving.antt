-- ===== src/Tests/Interleaving.antt =====
-- An example of evaluations that interleave: two look into the cache, the answer to one arrives, then
-- a tick, and a third one looks.
use apparitor.Prelude.{ℕ, [], ◌∷◌, ◌<◌, refl, some}
use apparitor.Cache.{init}
use apparitor.Cache.Bounds.{init-IsValid}
use apparitor.Engine.Base.{State}
use apparitor.Engine.Interleaving.{
  Interleaved, begins, looks, hears, elsewhere, Heard, lookup_cache-Heard,
}
use apparitor.Tests.{engine, allowed_response}

abbrev cold : State ℕ
cold = record { cache = some (init 10 20 5); world = 0 }

abbrev warm : State ℕ
warm = record { cache = some (record (init 10 20 5) { entries = ("k", 10) ∷ [] }); world = 1 }

abbrev past : Interleaved engine cold warm
unfolding apparitor.Engine.Evaluate.settle_single apparitor.Engine.Evaluate.lookup_cache
    apparitor.Dict.lookup init apparitor.Dict.insert
past = elsewhere 1 (hears "k" allowed_response (looks "j" (looks "k" begins)))

lookup_cache-Heard_example : (expiry : ℕ) × Heard engine 10 "k" expiry past × (1 < expiry)
unfolding init apparitor.Dict.lookup apparitor.Engine.Evaluate.lookup_cache
lookup_cache-Heard_example =
    lookup_cache-Heard engine 10 cold (init-IsValid 10 20 5, refl) (λ k. refl) "k" warm past refl
