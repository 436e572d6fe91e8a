-- ===== src/Models/Dump.antt =====
-- models.py: `model_dump(mode="json", exclude_none=True)` of the requests. The fields stand in the
-- order of their declarations, and an optional one that is `None` is left out.
use apparitor.Prelude.{String, Option, none, some, List, [], ◌∷◌}
use apparitor.Models.{
  Subject, Action, Resource, EvaluationSemantic, execute_all, deny_on_first_deny,
  permit_on_first_permit, EvaluationRequest, EvaluationItem, EvaluationsOptions,
  BatchEvaluationRequest,
}
use apparitor.Runtime.{Runtime}
use apparitor.Value.{Value, str, arr, obj, Items, nil, cons, Fields, end, field}

-- A member that is there only if the field is not `None`.
abbrev pub optional : {A : Type 0} → String → Option A → (A → Value) → Fields → Fields
optional k none dump rest = rest
optional k (some a) dump rest = field k (dump a) rest

abbrev pub semantic_value : EvaluationSemantic → String
semantic_value execute_all = "execute_all"
semantic_value deny_on_first_deny = "deny_on_first_deny"
semantic_value permit_on_first_permit = "permit_on_first_permit"

module _ (rt : Runtime) where
  abbrev pub dump_subject : Subject → Value
  dump_subject s = obj (
      field "type" (str s.type)
        (field "id" (str s.id) (field "properties" (obj (rt.dump_dict s.properties)) end)))

  abbrev pub dump_action : Action → Value
  dump_action a =
      obj (field "name" (str a.name) (field "properties" (obj (rt.dump_dict a.properties)) end))

  abbrev pub dump_resource : Resource → Value
  dump_resource r = obj (
      field "type" (str r.type)
        (field "id" (str r.id) (field "properties" (obj (rt.dump_dict r.properties)) end)))

  abbrev pub dump_context : Fields → Value
  dump_context ctx = obj (rt.dump_dict ctx)

  unfoldable pub dump_request : EvaluationRequest → Fields
  dump_request r = field "subject" (dump_subject r.subject) (
      field "action" (dump_action r.action) (
        field "resource" (dump_resource r.resource)
          (optional "context" r.context dump_context end)))

  abbrev pub dump_item : EvaluationItem → Value
  dump_item i = obj (
      optional "subject" i.subject dump_subject (
        optional "action" i.action dump_action (
          optional "resource" i.resource dump_resource
            (optional "context" i.context dump_context end))))

  unfoldable pub dump_items : List EvaluationItem → Items
  dump_items [] = nil
  dump_items (i ∷ is) = cons (dump_item i) (dump_items is)

  abbrev pub dump_options : EvaluationsOptions → Value
  dump_options o =
      obj (field "evaluations_semantic" (str (semantic_value o.evaluations_semantic)) end)

  unfoldable pub dump_batch : BatchEvaluationRequest → Fields
  unfolding dump_items
  dump_batch b = optional "subject" b.subject dump_subject (
      optional "action" b.action dump_action (
        optional "resource" b.resource dump_resource (
          optional "context" b.context dump_context (
            field "evaluations" (arr (dump_items b.evaluations))
              (optional "options" b.options dump_options end)))))
