-- ===== src/Examples/MockPdp.antt =====
-- examples/mock_pdp/mock_pdp.py: the decision service of the tests, which allows what no rule denies.
use apparitor.Prelude.{
  ℕ, zero, suc, String, Bool, false, not, ◌&&◌, ◌||◌, Option, none, some, List, [], ◌∷◌, ◌==◌,
  if◌then◌else◌, concat,
}
use apparitor.Client.Authzen.{rstrip_slash}
use apparitor.Examples.Http.{
  Host, Request, Connection, declared_length, parse, take, send, entry, or_empty,
}
use apparitor.Examples.Opa.{attribute}
use apparitor.Exec.{Exec, lift}
use apparitor.Result.{Result, ok, raise, cancelled, value_error, unexpected, is_value_error, ◌>>=◌}
use apparitor.Value.Dicts.{as_dict}
use apparitor.Value.{
  ℤ, pos, negsuc, Value, null, bool, str, arr, obj, Items, nil, cons, Fields, end, field, get,
  truthy,
}

unfoldable pub mem : String → List String → Bool
mem s [] = false
mem s (t ∷ ts) = t == s || mem s ts

-- `f"{a}:{b}"`
unfoldable pub colon_join : String → String → String
unfolding concat
colon_join a b = concat a (concat ":" b)

-- The two keys of a tuple.
unfoldable pub two_part : String → String → String
unfolding colon_join
two_part action_name resource_id = colon_join action_name resource_id

unfoldable pub three_part : String → String → String → String
unfolding colon_join
three_part subject_id action_name resource_id =
    colon_join subject_id (colon_join action_name resource_id)

-- `v or w`
abbrev pub or_value : Value → Value → Value
or_value v w = if truthy v then v else w

-- One text for each character.
unfoldable pub characters : String → Items
characters String.[] = nil
characters (String.◌∷◌ c s) = cons (str (String.◌∷◌ c String.[])) (characters s)

-- The keys of a dictionary.
unfoldable pub keys : Fields → Items
keys end = nil
keys (field k v fs) = cons (str k) (keys fs)

-- `for it in v`: what can be looped over.
unfoldable pub elements : Value → Result Items
unfolding characters keys
elements (arr xs) = ok xs
elements (obj fs) = ok (keys fs)
elements (str s) = ok (characters s)
elements _ = raise unexpected

module _ {W : Type 0} (host : Host W) (deny : List String) where
  -- `f"{v}"`, with `""` for a missing member
  abbrev pub formatted : Option Value → String
  formatted none = ""
  formatted (some (str s)) = s
  formatted (some v) = host.text_of v

  -- `formatted(v.get(k, ""))`: only a dictionary has the method.
  abbrev pub text_at : String → Value → Result String
  text_at k (obj fs) = ok (formatted (get k fs))
  text_at k v = raise unexpected

  unfoldable pub permits : String → String → String → Bool
  unfolding mem two_part three_part
  permits subject_id action_name resource_id =
      not (mem (two_part action_name resource_id) deny)
      && not (mem (three_part subject_id action_name resource_id) deny)

  unfoldable pub decide : Value → Value → Value → Result Bool
  unfolding permits get
  decide principal action resource = do
    action_name ← text_at "name" action
    resource_id ← text_at "id" resource
    subject_id ← text_at "id" principal
    ok (permits subject_id action_name resource_id)

  -- `src.get(k) or body.get(k) or {}`: the second is looked at only if the first counts as false.
  abbrev pub fallback : String → Value → Value → Result Value
  fallback k v body = if truthy v then ok v else (attribute k body >>= λ w. ok (or_empty w))

  unfoldable pub evaluate_one : Value → Value → Result Value
  unfolding decide truthy get
  evaluate_one body item = do
    let src = or_value item body
    own_action ← attribute "action" src
    action ← fallback "action" own_action body
    own_resource ← attribute "resource" src
    resource ← fallback "resource" own_resource body
    own_subject ← attribute "subject" src
    principal ← fallback "subject" own_subject body
    decision ← decide principal action resource
    ok (obj (entry "decision" (bool decision)))

module _ {W : Type 0} (host : Host W) where
  -- `self.rfile.read(length)`: -1 reads to the end of the stream, less is a `ValueError`.
  abbrev pub read_at : ℤ → List ℕ → Result (List ℕ)
  read_at (pos n) bytes = ok (take n bytes)
  read_at (negsuc zero) bytes = ok bytes
  read_at (negsuc (suc n)) bytes = raise value_error

  unfoldable pub read : Request → Result Value
  unfolding take as_dict
  read request = do
    n ← declared_length host request.content_length
    bytes ← read_at n request.bytes
    parse host bytes

  -- A result that is sent, or the exception that ends the handler.
  abbrev pub respond : Result Fields → Exec (Connection W) (Unit {0})
  respond (ok payload) c = send host payload 200 c
  respond (raise exc) c = (raise exc, c)
  respond cancelled c = (cancelled, c)

-- The rest of the handler, which examples/observability/run.py has too, over the function that makes
-- a decision of the body and an item.
module _ {W : Type 0} (host : Host W) (evaluate : Value → Value → Result Value) where
  unfoldable pub evaluate_all : Value → Items → Result Items
  evaluate_all body nil = ok nil
  evaluate_all body (cons item items) = do
    first ← evaluate body item
    rest ← evaluate_all body items
    ok (cons first rest)

  abbrev pub fields_of : Value → Fields
  fields_of (obj fs) = fs
  fields_of v = end

  -- `body.get("evaluations") or [None]`
  unfoldable pub batch : Value → Result Fields
  unfolding evaluate_all elements truthy get
  batch body = do
    listed ← attribute "evaluations" body
    items ← elements (or_value listed (arr (cons null nil)))
    results ← evaluate_all body items
    ok (entry "evaluations" (arr results))

  abbrev pub answer : Request → Result Value → Exec (Connection W) (Unit {0})
  answer request (ok body) =
      if rstrip_slash request.path == "/access/v1/evaluation"
      then respond host (evaluate body null >>= λ r. ok (fields_of r))
      else if rstrip_slash request.path == "/access/v1/evaluations"
      then respond host (batch body)
      else send host (entry "error" (str "not found")) 404
  answer request (raise exc) =
      if is_value_error exc
      then send host (entry "error" (str "invalid json")) 400
      else lift (raise exc)
  answer request cancelled = lift cancelled

  -- `do_POST`, of a handler that evaluates in this way
  unfoldable pub handle : Request → Exec (Connection W) (Unit {0})
  unfolding read batch rstrip_slash send
  handle request = answer request (read host request)

module _ {W : Type 0} (host : Host W) (deny : List String) where
  unfoldable pub do_post : Request → Exec (Connection W) (Unit {0})
  unfolding evaluate_one handle
  do_post = handle host (evaluate_one host deny)
