-- ===== src/Examples/Review.antt =====
-- examples/observability/run.py: the decision service that marks what a human must confirm, and the
-- predicate by which the engine reads the mark.
use apparitor.Prelude.{String, Bool, true, false, Option, none, some, List, if◌then◌else◌}
use apparitor.Examples.Http.{Host, Request, Connection, entry}
use apparitor.Examples.MockPdp
use apparitor.Examples.MockPdp.{mem, or_value, fallback, handle}
use apparitor.Examples.Opa.{attribute}
use apparitor.Exec.{Exec}
use apparitor.Result.{Result, ok, raise, unexpected, ◌>>=◌}
use apparitor.Value.{Value, bool, str, arr, obj, Fields, end, field, get, or_null, truthy}

-- `v in s`, for a set of texts: a list and a dictionary have no hash, and another value is in no such
-- set. A missing member counts as the empty text.
abbrev pub listed : Option Value → List String → Result Bool
listed none review = ok (mem "" review)
listed (some (str s)) review = ok (mem s review)
listed (some (arr xs)) review = raise unexpected
listed (some (obj fs)) review = raise unexpected
listed (some v) review = ok false

-- `resource.get("id", "") in review`
abbrev pub member_listed : Value → List String → Result Bool
member_listed (obj fs) review = listed (get "id" fs) review
member_listed v review = raise unexpected

abbrev pub decision_with : Bool → Bool → Fields
decision_with allowed flagged =
    field "decision" (bool allowed)
      (if flagged then entry "context" (obj (entry "review" (bool true))) else end)

-- `_needs_review`
unfoldable pub needs_review : Fields → Bool
unfolding truthy get
needs_review context = truthy (or_null (get "review" context))

module _ {W : Type 0} (host : Host W) (deny review : List String) where
  -- The right side of the `and` is looked at only for an allow.
  abbrev pub flagged : Bool → Value → Result Bool
  flagged false resource = ok false
  flagged true resource = member_listed resource review

  abbrev pub decided : Value → Bool → Result Value
  decided resource allowed =
      flagged allowed resource >>= λ needed. ok (obj (decision_with allowed needed))

  -- `_decision`
  unfoldable pub decision : Value → Value → Result Value
  unfolding MockPdp.decide mem truthy get
  decision body item = do
    let src = or_value item body
    own_action ← attribute "action" src
    action ← fallback host deny "action" own_action body
    own_resource ← attribute "resource" src
    resource ← fallback host deny "resource" own_resource body
    own_subject ← attribute "subject" src
    principal ← fallback host deny "subject" own_subject body
    allowed ← MockPdp.decide host deny principal action resource
    decided resource allowed

  unfoldable pub do_post : Request → Exec (Connection W) (Unit {0})
  unfolding decision handle
  do_post = handle host decision
