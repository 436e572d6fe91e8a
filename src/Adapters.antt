-- ===== src/Adapters.antt =====
-- adapters.py: the provider shapes of a tool call, and their normal form.
pub mod Refusals
use apparitor.Prelude.{
  String, Bool, true, false, not, ◌&&◌, ◌||◌, Option, none, some, List, [], ◌∷◌, ◌==◌,
  if◌then◌else◌,
}
use apparitor.Result.{Result, ok, raise, value_error, raise_if, ◌>>=◌, ◌>>◌}
use apparitor.Runtime.{Runtime}
use apparitor.Value.Dicts.{as_dict}
use apparitor.Value.{Value, null, str, obj, Fields, end, truthy, get, has, or_null}

pub record NormalizedToolCall : Type 0 where
  pub name : String
  pub arguments : Fields
  pub id : Value

pub data Adapter : Type 0 where
  anthropic openai langchain : Adapter

-- `d.get(k) == "text"`
abbrev pub is_text : String → Option Value → Bool
is_text t (some (str s)) = s == t
is_text t _ = false

-- `isinstance(d.get(k), dict)`
abbrev pub is_dict : Option Value → Bool
is_dict (some (obj fs)) = true
is_dict _ = false

unfoldable pub matches : Adapter → Fields → Bool
matches anthropic raw = is_text "tool_use" (get "type" raw)
matches openai raw = is_dict (get "function" raw) || is_text "function" (get "type" raw)
matches langchain raw = has "args" raw && has "name" raw

abbrev pub default_adapters : List Adapter
default_adapters = anthropic ∷ openai ∷ langchain ∷ []

unfoldable pub detect_from : List Adapter → Fields → Option Adapter
detect_from [] raw = none
detect_from (a ∷ adapters) raw = if matches a raw then some a else detect_from adapters raw

unfoldable pub detect_adapter : Fields → Option Adapter
unfolding detect_from matches
detect_adapter raw = detect_from default_adapters raw

-- A decoded value that is no object is a `ValueError`.
abbrev pub as_arguments : Value → Result Fields
as_arguments (obj fs) = ok fs
as_arguments _ = raise value_error

module _ (rt : Runtime) where
  unfoldable pub coerce_args : Value → Result Fields
  unfolding as_dict
  coerce_args null = ok end
  coerce_args (obj fs) = ok fs
  coerce_args (str s) = rt.loads s >>= λ v. as_arguments (as_dict v)
  coerce_args _ = raise value_error

  -- The call with the name and the arguments at the two keys; a name that is missing or false is
  -- a `ValueError`.
  abbrev pub build_call : Value → Value → Value → Result NormalizedToolCall
  build_call name arguments id = do
    raise_if (not (truthy name)) value_error
    text ← rt.str_of name
    args ← coerce_args arguments
    ok (record { name = text; arguments = args; id = id })

  -- `fn = raw.get("function")`
  abbrev pub normalize_function : Option Value → Value → Result NormalizedToolCall
  normalize_function (some (obj fn)) id =
      build_call (or_null (get "name" fn)) (or_null (get "arguments" fn)) id
  normalize_function _ id = raise value_error

  unfoldable pub normalize : Adapter → Fields → Result NormalizedToolCall
  unfolding coerce_args truthy
  normalize anthropic raw =
      build_call (or_null (get "name" raw)) (or_null (get "input" raw)) (or_null (get "id" raw))
  normalize openai raw = normalize_function (get "function" raw) (or_null (get "id" raw))
  normalize langchain raw =
      build_call (or_null (get "name" raw)) (or_null (get "args" raw)) (or_null (get "id" raw))
