-- ===== src/Examples/Opa.antt =====
-- examples/opa/gateway/gateway.py: the evaluator that asks `opa eval`.
use apparitor.Prelude.{zero, suc, String, Bool, true, false, not, Option, none, some, List, [], ◌∷◌}
use apparitor.Examples.Http.{Host, Process, os_error, timed_out, failed, ended, or_empty}
use apparitor.Examples.Service.{Handler, make_handler}
use apparitor.Exec.{Exec}
use apparitor.Result.{
  Result, ok, raise, cancelled, value_error, unexpected, is_value_error, raise_if, ◌>>=◌, ◌>>◌,
}
use apparitor.Value.Dicts.{as_dict}
use apparitor.Value.{
  ℤ, pos, negsuc, Value, null, bool, arr, obj, cons, Fields, end, field, get, or_null, truthy,
}

-- `v[k]` and `v[0]`: `none` for a `KeyError`, an `IndexError` and a `TypeError`. The first character
-- of a text is a text, which has no members, so that a text counts as having no first element.
abbrev pub member : String → Value → Option Value
member k (obj fs) = get k fs
member k _ = none

abbrev pub first : Value → Option Value
first (arr (cons v xs)) = some v
first _ = none

abbrev pub and_then : Option Value → (Value → Option Value) → Option Value
and_then none f = none
and_then (some v) f = f v

-- `v["result"][0]["expressions"][0]["value"]`
unfoldable pub value_at : Value → Option Value
unfolding get
value_at v =
    and_then (and_then (and_then (and_then (member "result" v) first) (member "expressions")) first)
      (member "value")

-- `value is True`
abbrev pub is_true : Option Value → Bool
is_true (some (bool b)) = b
is_true _ = false

-- A text that is no JSON is a `ValueError`; what else the reader raises passes.
abbrev pub decision_in : Result Value → Result Bool
decision_in (ok v) = ok (is_true (value_at (as_dict v)))
decision_in (raise exc) = elim (is_value_error exc) [ true ↦ ok false | false ↦ raise exc ]
decision_in cancelled = cancelled

-- `v.get(k)`: only a dictionary has the method.
abbrev pub attribute : String → Value → Result Value
attribute k (obj fs) = ok (or_null (get k fs))
attribute k _ = raise unexpected

-- The guard of both evaluators: a part is looked at only if those before it are there.
unfoldable pub require_ids : Value → Value → Value → Result (Unit {0})
unfolding truthy get
require_ids principal action resource = do
  id ← attribute "id" principal
  raise_if (not (truthy id)) value_error
  name ← attribute "name" action
  raise_if (not (truthy name)) value_error
  target ← attribute "id" resource
  raise_if (not (truthy target)) value_error

-- `body.get(k) or {}`
abbrev pub part : String → Fields → Value
part k body = or_empty (or_null (get k body))

abbrev with_context : Value → Fields
with_context null = end
with_context v = field "context" v end

-- `input_doc`
unfoldable pub input_doc : Fields → Value
unfolding get truthy
input_doc body = obj (
    field "subject" (part "subject" body) (
      field "action" (part "action" body)
        (field "resource" (part "resource" body) (with_context (or_null (get "context" body))))))

module _ {W : Type 0} (host : Host W) (policy data_file : String) where
  unfoldable pub extract_decision : String → Result Bool
  unfolding value_at as_dict
  extract_decision stdout = decision_in (host.loads stdout)

  abbrev pub exit_zero : ℤ → Bool
  exit_zero (pos n) = elim n [ zero ↦ true | suc k ↦ false ]
  exit_zero (negsuc n) = false

  -- What is made of the end of the process.
  abbrev pub judge : Process → Result Bool
  judge os_error = ok false
  judge timed_out = ok false
  judge (failed exc) = raise exc
  judge (ended code stdout) = elim (exit_zero code) [
    | true ↦ extract_decision stdout
    | false ↦ ok false
  ]

  unfoldable pub command : List String
  command =
      "opa" ∷ "eval" ∷ "--format=json" ∷ "--data" ∷ policy ∷ "--data" ∷ data_file ∷ "--stdin-input"
      ∷ "data.apparitor.authz.allow" ∷ []

  abbrev pub ask : Fields → Result (Unit {0}) → Exec W Bool
  ask body (ok u) w =
      let (process, w') = host.run command (some (host.dumps (input_doc body))) w in
      (judge process, w')
  ask body (raise exc) w = (raise exc, w)
  ask body cancelled w = (cancelled, w)

  unfoldable pub decide : Value → Exec W Bool
  unfolding require_ids command input_doc extract_decision get truthy
  decide (obj body) w =
      ask body (require_ids (part "subject" body) (part "action" body) (part "resource" body)) w
  decide body w = (raise unexpected, w)

  unfoldable pub gateway : Handler W
  unfolding make_handler decide
  gateway = make_handler host decide
