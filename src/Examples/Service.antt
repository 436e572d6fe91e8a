-- ===== src/Examples/Service.antt =====
-- examples/opa/gateway/gateway.py: `_merge_item` and the handler of `make_handler`, which the Cedar
-- gateway has too. `decide` is the evaluator's method, on the world of its programs and files.
use apparitor.Prelude.{
  ℕ, suc, String, Bool, false, Option, some, List, [], ◌∷◌, ltb, ◌==◌, if◌then◌else◌,
}
use apparitor.Client.Authzen.{rstrip_slash}
use apparitor.Examples.Http.{Host, Request, Connection, read_body, send, entry}
use apparitor.Exec.{Exec, pure, lift, ◌>>=◌}
use apparitor.Result.{Result, ok, raise, cancelled, is_value_error, handle}
use apparitor.Value.{
  Value, bool, str, arr, obj, Items, nil, cons, Fields, end, field, has, get, or_null,
}

-- `_MAX_BATCH`
abbrev pub max_batch : ℕ
max_batch = 100

-- An entry's own member counts whatever it holds; a missing one is the request's, or `None`.
abbrev pub overlaid : String → Fields → Fields → Value
overlaid k item defaults = or_null (if has k item then get k item else get k defaults)

unfoldable pub merge_item : Fields → Fields → Fields
unfolding has get
merge_item item defaults = field "subject" (overlaid "subject" item defaults) (
    field "action" (overlaid "action" item defaults) (
      field "resource" (overlaid "resource" item defaults)
        (field "context" (overlaid "context" item defaults) end)))

abbrev pub decision_of : Bool → Fields
decision_of decision = entry "decision" (bool decision)

unfoldable pub decisions_of : List Bool → Items
decisions_of [] = nil
decisions_of (d ∷ ds) = cons (obj (decision_of d)) (decisions_of ds)

unfoldable pub count : Items → ℕ
count nil = 0
count (cons v xs) = suc (count xs)

abbrev pub evaluations : List Bool → Fields
evaluations ds = entry "evaluations" (arr (decisions_of ds))

-- What `make_handler` returns: a method for each verb.
pub record Handler (W : Type 0) : Type 0 where
  pub do_get : Request → Exec (Connection W) (Unit {0})
  pub do_post : Request → Exec (Connection W) (Unit {0})

module _ {W : Type 0} (host : Host W) (decide : Value → Exec W Bool) where
  -- A call of the evaluator while a connection is served.
  abbrev pub on_world : {A : Type 0} → Exec W A → Exec (Connection W) A
  on_world act c = let (r, w) = act c.world in (r, record c { world = w })

  abbrev pub not_found : Exec (Connection W) (Unit {0})
  not_found = send host (entry "error" (str "not found")) 404

  unfoldable pub do_get : Request → Exec (Connection W) (Unit {0})
  unfolding rstrip_slash send
  do_get request =
      if rstrip_slash request.path == "/healthz"
      then send host (entry "status" (str "ok")) 200
      else not_found

  -- The three ends of the `try` in `_evaluate_one`.
  abbrev pub answer_one : Result Bool → Exec (Connection W) (Unit {0})
  answer_one (ok decision) c = send host (decision_of decision) 200 c
  answer_one (raise exc) c =
      if is_value_error exc
      then send host (entry "error" (str (host.message exc))) 400 c
      else send host (decision_of false) 200 c
  answer_one cancelled c = (cancelled, c)

  -- The body is read, and then the evaluator is asked.
  abbrev pub decide_body : Result Value → Exec W Bool
  decide_body (ok body) w = decide body w
  decide_body (raise exc) w = (raise exc, w)
  decide_body cancelled w = (cancelled, w)

  unfoldable pub evaluate_one : Request → Exec (Connection W) (Unit {0})
  unfolding read_body send
  evaluate_one request c =
      let (r, w) = decide_body (read_body host request) c.world in
      answer_one r (record c { world = w })

  -- One entry: `except Exception` makes any failure a denial, and an entry that is no object is denied
  -- at once.
  unfoldable pub decide_item : Fields → Value → Exec W Bool
  unfolding merge_item
  decide_item body (obj item) w =
      let (r, w') = decide (obj (merge_item item body)) w in (handle (λ exc. false) r, w')
  decide_item body item w = (ok false, w)

  unfoldable pub decide_items : Fields → Items → Exec W (List Bool)
  unfolding decide_item
  decide_items body nil = pure []
  decide_items body (cons item items) =
      decide_item body item >>= λ d. decide_items body items >>= λ ds. pure (d ∷ ds)

  abbrev pub error_reply : String → ℕ → Exec (Connection W) (Unit {0})
  error_reply text status = send host (entry "error" (str text)) status

  abbrev pub answer_items : Fields → Option Value → Exec (Connection W) (Unit {0})
  answer_items body (some (arr items)) =
      if ltb max_batch (count items)
      then error_reply "too many evaluations" 413
      else on_world (decide_items body items) >>= λ ds. send host (evaluations ds) 200
  answer_items body _ = error_reply "'evaluations' must be a list" 400

  abbrev pub answer_batch : Result Value → Exec (Connection W) (Unit {0})
  answer_batch (ok (obj body)) = answer_items body (get "evaluations" body)
  answer_batch (ok _) = error_reply "request body must be a JSON object" 400
  answer_batch (raise exc) =
      if is_value_error exc then error_reply (host.message exc) 400 else lift (raise exc)
  answer_batch cancelled = lift cancelled

  unfoldable pub evaluate_batch : Request → Exec (Connection W) (Unit {0})
  unfolding read_body send decide_items decisions_of count get
  evaluate_batch request = answer_batch (read_body host request)

  unfoldable pub do_post : Request → Exec (Connection W) (Unit {0})
  unfolding evaluate_one evaluate_batch rstrip_slash send
  do_post request =
      if rstrip_slash request.path == "/access/v1/evaluation"
      then evaluate_one request
      else if rstrip_slash request.path == "/access/v1/evaluations"
      then evaluate_batch request
      else not_found

  unfoldable pub make_handler : Handler W
  unfolding do_get do_post
  make_handler = record { do_get = do_get; do_post = do_post }
