-- ===== src/Examples/Cedar.antt =====
-- examples/cedar/gateway/gateway.py: the evaluator that asks `cedar authorize`.
use apparitor.Prelude.{
  zero, suc, String, Bool, true, false, Option, none, some, List, [], ◌∷◌, ◌++◌, ◌==◌, ◌||◌,
  if◌then◌else◌, contains, concat,
}
use apparitor.Examples.Http.{Host, Process, os_error, timed_out, failed, ended}
use apparitor.Examples.Opa.{require_ids, part}
use apparitor.Examples.Service.{Handler, make_handler}
use apparitor.Exec.{Exec, after}
use apparitor.Result.{Result, ok, raise, cancelled, value_error, unexpected, raise_if, ◌>>=◌, ◌>>◌}
use apparitor.Value.{
  ℤ, pos, negsuc, Value, str, arr, obj, Items, nil, cons, Fields, get, has, or_null, truthy,
}

-- Whether a text is one of the values.
unfoldable pub holds_text : String → Items → Bool
holds_text s nil = false
holds_text s (cons (str t) xs) = t == s || holds_text s xs
holds_text s (cons _ xs) = holds_text s xs

-- `'"' in v`: a character of a text, an element of a list, a key of a dictionary; anything else is a
-- `TypeError`.
unfoldable pub has_quote : Value → Result Bool
unfolding contains holds_text has
has_quote (str s) = ok (contains b'"' s)
has_quote (arr xs) = ok (holds_text "\"" xs)
has_quote (obj fs) = ok (has "\"" fs)
has_quote _ = raise unexpected

-- `v.get(k, default)`
abbrev pub default_to : String → Option Value → Value
default_to text none = str text
default_to text (some v) = v

abbrev pub exit_zero : ℤ → Bool
exit_zero (pos n) = elim n [ zero ↦ true | suc k ↦ false ]
exit_zero (negsuc n) = false

-- `subject.get(k, default)` and `subject[k]`, of what passed the guard
abbrev pub kind_of : Value → String → Value
kind_of (obj fs) text = default_to text (get "type" fs)
kind_of v text = str text

abbrev pub member_of : String → Value → Value
member_of k (obj fs) = or_null (get k fs)
member_of k v = v

module _ {W : Type 0} (host : Host W) (policies entities : String) where
  -- `f"{v}"`
  abbrev pub formatted : Value → String
  formatted (str s) = s
  formatted v = host.text_of v

  -- `_TYPE_MAP.get(kind, kind.title())`: the default is computed first.
  unfoldable pub cedar_type : Value → Result String
  cedar_type (str kind) =
      ok (if kind == "agent" then "Agent" else if kind == "tool" then "Tool" else host.title kind)
  cedar_type kind = raise unexpected

  unfoldable pub entity_uid : Value → Value → Result String
  unfolding has_quote cedar_type concat
  entity_uid kind identifier = do
    quote ← has_quote identifier
    raise_if quote value_error
    type_name ← cedar_type kind
    ok (concat type_name (concat "::\"" (concat (formatted identifier) "\"")))

  -- The command line, for parts that have their identifiers.
  unfoldable pub command : Value → Value → Value → Result (List String)
  unfolding entity_uid concat get
  command principal action resource = do
    principal_uid ← entity_uid (kind_of principal "agent") (member_of "id" principal)
    resource_uid ← entity_uid (kind_of resource "tool") (member_of "id" resource)
    ok (
        "cedar"
        ∷ "authorize"
        ∷ "--policies"
        ∷ policies
        ∷ "--entities"
        ∷ entities
        ∷ "--principal"
        ∷ principal_uid
        ∷ "--action"
        ∷ concat "Action::\"" (concat (formatted (member_of "name" action)) "\"")
        ∷ "--resource"
        ∷ resource_uid
        ∷ [])

  -- The return code is an allow if it is 0. There is no time limit, so that an expiry would be an
  -- exception like any other.
  abbrev pub judge : Process → Result Bool
  judge os_error = ok false
  judge timed_out = raise unexpected
  judge (failed exc) = raise exc
  judge (ended code stdout) = ok (exit_zero code)

  abbrev pub call : List String → Exec W Bool
  call cmd w = let (process, w') = host.run cmd none w in (judge process, w')

  -- The context goes to a file only if it counts as true.
  abbrev pub call_in : List String → Value → String → Exec W Bool
  call_in cmd context tmp w = elim (truthy context) [
    | true ↦
        let path = concat tmp "/context.json" in
        let (r, w') = host.write_text path (host.dumps context) w in
        after r (λ u. call (cmd ++ ("--context" ∷ path ∷ []))) w'
    | false ↦ call cmd w
  ]

  -- `with tempfile.TemporaryDirectory() as tmp`: it goes however the block ends, and a failure to
  -- remove it replaces what the block returned.
  abbrev pub in_directory : Result String → (String → Exec W Bool) → Exec W Bool
  in_directory (ok tmp) block w =
      let (r, w₁) = block tmp w in
      let (removed, w₂) = host.remove_directory tmp w₁ in (removed >> r, w₂)
  in_directory (raise exc) block w = (raise exc, w)
  in_directory cancelled block w = (cancelled, w)

  abbrev pub with_directory : (String → Exec W Bool) → Exec W Bool
  with_directory block w = let (made, w') = host.make_directory w in in_directory made block w'

  abbrev pub ask : Value → Result (List String) → Exec W Bool
  ask context (ok cmd) w = with_directory (call_in cmd context) w
  ask context (raise exc) w = (raise exc, w)
  ask context cancelled w = (cancelled, w)

  abbrev pub checked_command : Fields → Result (List String)
  checked_command body =
      require_ids (part "subject" body) (part "action" body) (part "resource" body)
      >> command (part "subject" body) (part "action" body) (part "resource" body)

  unfoldable pub decide : Value → Exec W Bool
  unfolding require_ids command concat get truthy
  decide (obj body) w = ask (or_null (get "context" body)) (checked_command body) w
  decide body w = (raise unexpected, w)

  unfoldable pub gateway : Handler W
  unfolding make_handler decide
  gateway = make_handler host decide
