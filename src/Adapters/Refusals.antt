-- ===== src/Adapters/Refusals.antt =====
-- adapters.py and engine.py: how a tool call that cannot be read ends.
use apparitor.Prelude.{
  String, Bool, true, false, not, Option, none, some, List, [], ◌∷◌, ◌≡◌, refl, ◌⊎◌, inl, inr,
  arith, Bool-cases, subst,
}
use apparitor.Adapters.{
  Adapter, anthropic, openai, langchain, coerce_args, as_arguments, build_call, normalize_function,
  normalize, NormalizedToolCall, detect_adapter,
}
use apparitor.Engine.Base.{Engine, State}
use apparitor.Engine.Entry.{
  normalize_with, normalize_raw, evaluate_tool_calls, evaluate_parsed, evaluate_normalized,
  as_unparseable,
}
use apparitor.Engine.Faults.{entry-Returns, Returns}
use apparitor.Result.{
  Exception, Result, ok, raise, cancelled, value_error, unparseable, is_value_error, traverse,
  raise_if, ◌>>=◌,
}
use apparitor.Runtime.{Runtime}
use apparitor.Value.Dicts.{as_dict}
use apparitor.Value.{Value, null, str, obj, Fields, get, or_null, truthy}

-- The JSON reader raises the exception on some text, or `str` on some value.
abbrev pub FromInterpreter : Runtime → Exception → Type 0
FromInterpreter rt exc =
    ((text : String) × (rt.loads text ≡ raise exc)) ⊎ ((v : Value) × (rt.str_of v ≡ raise exc))

-- The exception is a `ValueError`, or one of these.
abbrev pub FromReader : Runtime → Exception → Type 0
FromReader rt exc = (exc ≡ value_error) ⊎ FromInterpreter rt exc

-- An outcome that, if it is an exception, satisfies `P`.
abbrev pub Raises {ℓ} : {A : Type ℓ} → (Exception → Type 0) → Result A → Type 0
Raises P (ok a) = Unit
Raises P (raise exc) = P exc
Raises P cancelled = Unit

>>=-Raises {ℓ κ} :
    {A : Type ℓ} {B : Type κ} (P : Exception → Type 0) (r : Result A) (f : A → Result B)
    → Raises P r
    → ((a : A) → Raises P (f a))
    → Raises P (r >>= f)
>>=-Raises P (ok a) f h k = k a
>>=-Raises P (raise exc) f h k = h
>>=-Raises P cancelled f h k = tt

Raises-self {ℓ} :
    {A : Type ℓ} (P : Exception → Type 0) (r : Result A)
    → ((exc : Exception) → r ≡ raise exc → P exc)
    → Raises P r
Raises-self P (ok a) h = tt
Raises-self P (raise exc) h = h exc refl
Raises-self P cancelled h = tt

Raises-raise {ℓ} :
    {A : Type ℓ} (P : Exception → Type 0) (r : Result A)
    → Raises P r
    → (exc : Exception) → r ≡ raise exc
    → P exc
Raises-raise P (ok a) h exc same = absurd (ground (arith, same))
Raises-raise P (raise e) h exc same = let q : e ≡ exc = ground (arith, same) in subst P q h
Raises-raise P cancelled h exc same = absurd (ground (arith, same))

Returns-Raises {ℓ} : {A : Type ℓ} (P : Exception → Type 0) (r : Result A) → Returns r → Raises P r
Returns-Raises P (ok a) h = tt
Returns-Raises P (raise exc) h = absurd h
Returns-Raises P cancelled h = tt

as_arguments-Raises : (rt : Runtime) (v : Value) → Raises (FromReader rt) (as_arguments v)
as_arguments-Raises rt (obj fs) = tt
as_arguments-Raises rt v = inl refl

coerce_args-Raises : (rt : Runtime) (v : Value) → Raises (FromReader rt) (coerce_args rt v)
unfolding coerce_args
coerce_args-Raises rt null = tt
coerce_args-Raises rt (obj fs) = tt
coerce_args-Raises rt (str s) =
    >>=-Raises (FromReader rt) (rt.loads s) (λ v. as_arguments (as_dict v))
      (Raises-self (FromReader rt) (rt.loads s) (λ exc h. inr (inl (s, h))))
      (λ v. as_arguments-Raises rt (as_dict v))
coerce_args-Raises rt v = inl refl

raise_if-Raises : (rt : Runtime) (b : Bool) → Raises (FromReader rt) (raise_if b value_error)
raise_if-Raises rt true = inl refl
raise_if-Raises rt false = tt

build_call-Raises :
    (rt : Runtime) (name arguments id : Value)
    → Raises (FromReader rt) (build_call rt name arguments id)
build_call-Raises rt name arguments id =
    >>=-Raises (FromReader rt) (raise_if (not (truthy name)) value_error) _
      (raise_if-Raises rt (not (truthy name)))
      (λ u.
        >>=-Raises (FromReader rt) (rt.str_of name) _
          (Raises-self (FromReader rt) (rt.str_of name) (λ exc h. inr (inr (name, h))))
          (λ text.
            >>=-Raises (FromReader rt) (coerce_args rt arguments) _
              (coerce_args-Raises rt arguments) (λ a. tt)))

normalize_function-Raises :
    (rt : Runtime) (fn : Option Value) (id : Value)
    → Raises (FromReader rt) (normalize_function rt fn id)
normalize_function-Raises rt (some (obj fn)) id =
    build_call-Raises rt (or_null (get "name" fn)) (or_null (get "arguments" fn)) id
normalize_function-Raises rt none id = inl refl
normalize_function-Raises rt (some v) id = inl refl

normalize-Raises :
    (rt : Runtime) (adapter : Adapter) (raw : Fields)
    → Raises (FromReader rt) (normalize rt adapter raw)
unfolding normalize
normalize-Raises rt anthropic raw =
    build_call-Raises rt (or_null (get "name" raw)) (or_null (get "input" raw))
      (or_null (get "id" raw))
normalize-Raises rt openai raw =
    normalize_function-Raises rt (get "function" raw) (or_null (get "id" raw))
normalize-Raises rt langchain raw =
    build_call-Raises rt (or_null (get "name" raw)) (or_null (get "args" raw))
      (or_null (get "id" raw))

-- Such an exception that is no `ValueError`.
abbrev pub Escapes : Runtime → Exception → Type 0
Escapes rt exc = FromInterpreter rt exc × (is_value_error exc ≡ false)

abbrev Caught : Runtime → Exception → Type 0
Caught rt exc = (exc ≡ unparseable) ⊎ Escapes rt exc

as_unparseable-Raises {ℓ} :
    {A : Type ℓ} (rt : Runtime) (r : Result A)
    → Raises (FromReader rt) r
    → Raises (Caught rt) (as_unparseable r)
as_unparseable-Raises rt (ok a) h = tt
as_unparseable-Raises rt cancelled h = tt
as_unparseable-Raises rt (raise exc) h = elim (Bool-cases (is_value_error exc)) [
  | inl y ↦ rw (y, as_unparseable) (inl refl)
  | inr n ↦
      rw (n, as_unparseable)
        (elim h [ inl q ↦ absurd (ground (arith, q, n)) | inr raised ↦ inr (raised, n) ])
]

normalize_with-Raises :
    (rt : Runtime) (adapter : Option Adapter) (raw : Fields)
    → Raises (Caught rt) (normalize_with rt adapter raw)
normalize_with-Raises rt none raw = inl refl
normalize_with-Raises rt (some adapter) raw =
    as_unparseable-Raises rt (normalize rt adapter raw) (normalize-Raises rt adapter raw)

normalize_raw-Raises : (rt : Runtime) (raw : Fields) → Raises (Caught rt) (normalize_raw rt raw)
unfolding normalize_raw
normalize_raw-Raises rt raw = normalize_with-Raises rt (detect_adapter raw) raw

traverse-Raises :
    (rt : Runtime) (raws : List Fields) → Raises (Caught rt) (traverse (normalize_raw rt) raws)
unfolding traverse
traverse-Raises rt [] = tt
traverse-Raises rt (raw ∷ raws) =
    >>=-Raises (Caught rt) (normalize_raw rt raw) _ (normalize_raw-Raises rt raw) (λ c.
      >>=-Raises (Caught rt) (traverse (normalize_raw rt) raws) _ (traverse-Raises rt raws)
        (λ cs. tt))

module _ {W : Type 0} (e : Engine W) where
  evaluate_parsed-Raises :
      (r : Result (List NormalizedToolCall)) (ctx : Fields) (s : State W)
      → Raises (Caught e.runtime) r
      → Raises (Escapes e.runtime) (evaluate_parsed e r ctx s).0
  unfolding evaluate_parsed
  evaluate_parsed-Raises (ok calls) ctx s h =
      Returns-Raises (Escapes e.runtime) (evaluate_normalized e calls ctx s).0
        (entry-Returns e calls ctx [] s).0
  evaluate_parsed-Raises (raise unparseable) ctx s h = tt
  evaluate_parsed-Raises (raise exc) ctx s h = elim h [
    | inl q ↦ absurd (ground (arith, q))
    | inr escaped ↦ escaped
  ]
  evaluate_parsed-Raises cancelled ctx s h = tt

  -- The only exception that leaves the entry point for raw tool calls is one that the JSON reader
  -- raises on some text, or `str` on some value, and that is no `ValueError`. The operator's warnings
  -- are taken to be logged without an exception.
  pub evaluate_tool_calls-Raises :
      (raws : List Fields) (ctx : Fields) (s : State W) (exc : Exception)
      → (evaluate_tool_calls e raws ctx s).0 ≡ raise exc
      → Escapes e.runtime exc
  unfolding evaluate_tool_calls
  evaluate_tool_calls-Raises [] ctx s exc h = absurd (ground (arith, h))
  evaluate_tool_calls-Raises (raw ∷ raws) ctx s exc h =
      let r = traverse (normalize_raw e.runtime) (raw ∷ raws) in
      Raises-raise (Escapes e.runtime) (evaluate_parsed e r ctx s).0
        (evaluate_parsed-Raises r ctx s (traverse-Raises e.runtime (raw ∷ raws))) exc h
