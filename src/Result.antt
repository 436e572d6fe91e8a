-- ===== src/Result.antt =====
-- errors.py, and how a call ends: with a value, with an exception, or cancelled. A message is for
-- the operator's log and no code reads it, so an exception is its class; `client_error` keeps its
-- `status_code`; `unparseable` is the engine's own `_UnparseableToolCall`, `os_error` and
-- `runtime_error` are the interpreter's. `cancelled` is `asyncio.CancelledError`, which
-- `except Exception` does not catch.
use apparitor.Prelude.{arith, ◌≡◌, refl, ℕ, Option, List, [], ◌∷◌, Bool, true, false}

pub data Exception : Type 0 where
  config_error : Exception
  client_error : Option ℕ → Exception
  unavailable : Exception
  timeout : Exception
  malformed : Exception
  value_error : Exception
  unparseable : Exception
  os_error : Exception
  runtime_error : Exception
  unexpected : Exception

-- `isinstance(exc, AuthZENServiceError)`
abbrev pub is_service_error : Exception → Bool
is_service_error unavailable = true
is_service_error timeout = true
is_service_error malformed = true
is_service_error _ = false

-- `isinstance(exc, ValueError)`: `AuthZENConfigError` inherits it.
abbrev pub is_value_error : Exception → Bool
is_value_error config_error = true
is_value_error value_error = true
is_value_error _ = false

pub data Result {ℓ} (A : Type ℓ) : Type ℓ where
  ok : A → Result A
  raise : Exception → Result A
  cancelled : Result A

module _ {ℓ κ} {X : Type ℓ} {Y : Type κ} where
  infixl 5 ◌>>=◌ ◌>>◌
  abbrev pub ◌>>=◌ : Result X → (X → Result Y) → Result Y
  cancelled >>= next = cancelled
  raise exc >>= next = raise exc
  ok x >>= next = next x

  abbrev pub ◌>>◌ : Result X → Result Y → Result Y
  first >> second = first >>= λ _. second

  -- A chain that returns has a first step that returned.
  pub >>=-ok :
      (first : Result X) (next : X → Result Y) {y : Y}
      → (first >>= next) ≡ ok y
      → (x : X) × (first ≡ ok x) × (next x ≡ ok y)
  >>=-ok (ok x) next h = (x, refl, h)
  >>=-ok (raise exc) next h = cc
  >>=-ok cancelled next h = cc

pub ok-injective {ℓ} : {A : Type ℓ} {a b : A} → ok a ≡ ok b → a ≡ b
ok-injective h = ground (arith, h)

-- `except Exception as exc: return handler(exc)`; a cancellation passes.
abbrev pub handle {ℓ} : {A : Type ℓ} → (Exception → A) → Result A → Result A
handle handler (ok a) = ok a
handle handler (raise e) = ok (handler e)
handle handler cancelled = cancelled

-- `if b: raise e`
abbrev pub raise_if : Bool → Exception → Result (Unit {0})
raise_if true e = raise e
raise_if false e = ok tt

-- `[f(x) for x in xs]`, where a call may raise.
unfoldable pub traverse {ℓ κ} :
    {A : Type ℓ} {B : Type κ} → (A → Result B) → List A → Result (List B)
traverse f [] = ok []
traverse f (x ∷ xs) = do y ← f x; ys ← traverse f xs; ok (y ∷ ys)
