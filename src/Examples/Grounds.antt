-- ===== src/Examples/Grounds.antt =====
-- examples/opa: on what grounds the evaluator returns `True`; the guard that it shares with the
-- evaluator of examples/cedar.
use apparitor.Prelude.{
  ap, ap₂, zero, suc, String, ◌≡◌, refl, Bool, true, false, not, Option, none, some, arith,
  Bool-cases, inl, inr,
}
use apparitor.Examples.Http.{Host, Process, os_error, timed_out, failed, ended}
use apparitor.Examples.Opa
use apparitor.Examples.Opa.{attribute, require_ids, part, input_doc, value_at, is_true, decision_in}
use apparitor.Result.{Result, ok, raise, cancelled, is_value_error, value_error, raise_if, >>=-ok}
use apparitor.Value.Dicts.{as_dict}
use apparitor.Value.{
  pos, negsuc, Value, null, bool, int, float, str, arr, obj, subject, other, Fields, get, or_null,
  truthy,
}

-- A dictionary with a member that counts as true.
abbrev pub HasMember : String → Value → Type 0
HasMember k v = (fs : Fields) × (v ≡ obj fs) × (truthy (or_null (get k fs)) ≡ true)

-- What both evaluators require of a request.
abbrev pub HasIds : Fields → Type 0
HasIds body =
    HasMember "id" (part "subject" body)
    × HasMember "name" (part "action" body)
    × HasMember "id" (part "resource" body)

attribute-HasMember :
    (k : String) (v : Value) {w : Value} → attribute k v ≡ ok w → truthy w ≡ true → HasMember k v
attribute-HasMember k (obj fs) h t =
    let e : or_null (get k fs) ≡ _ = ground (arith, h) in (fs, refl, rw e t)
attribute-HasMember k null h t = absurd (ground (arith, h))
attribute-HasMember k (bool b) h t = absurd (ground (arith, h))
attribute-HasMember k (int z) h t = absurd (ground (arith, h))
attribute-HasMember k (float r) h t = absurd (ground (arith, h))
attribute-HasMember k (str s) h t = absurd (ground (arith, h))
attribute-HasMember k (arr xs) h t = absurd (ground (arith, h))
attribute-HasMember k (subject a b c) h t = absurd (ground (arith, h))
attribute-HasMember k (other s) h t = absurd (ground (arith, h))

guard-true : (b : Bool) {u : Unit {0}} → raise_if (not b) value_error ≡ ok u → b ≡ true
guard-true true h = refl
guard-true false h = cc

pub require_ids-HasMember :
    (principal action resource : Value) {u : Unit {0}}
    → require_ids principal action resource ≡ ok u
    → HasMember "id" principal × HasMember "name" action × HasMember "id" resource
unfolding require_ids
require_ids-HasMember principal action resource h =
    let (id, e₁, h₁) = >>=-ok (attribute "id" principal) _ h in
    let (u₁, g₁, h₂) = >>=-ok (raise_if (not (truthy id)) value_error) _ h₁ in
    let (name, e₂, h₃) = >>=-ok (attribute "name" action) _ h₂ in
    let (u₂, g₂, h₄) = >>=-ok (raise_if (not (truthy name)) value_error) _ h₃ in
    let (target, e₃, h₅) = >>=-ok (attribute "id" resource) _ h₄ in
    (
      attribute-HasMember "id" principal e₁ (guard-true (truthy id) g₁),
      attribute-HasMember "name" action e₂ (guard-true (truthy name) g₂),
      attribute-HasMember "id" resource e₃ (guard-true (truthy target) h₅),
    )

is_true-some : (o : Option Value) → is_true o ≡ true → o ≡ some (bool true)
is_true-some none h = absurd (cc)
is_true-some (some (bool true)) h = refl
is_true-some (some (bool false)) h = absurd (cc)
is_true-some (some null) h = absurd (cc)
is_true-some (some (int z)) h = absurd (cc)
is_true-some (some (float r)) h = absurd (cc)
is_true-some (some (str s)) h = absurd (cc)
is_true-some (some (arr xs)) h = absurd (cc)
is_true-some (some (obj fs)) h = absurd (cc)
is_true-some (some (subject a b c)) h = absurd (cc)
is_true-some (some (other s)) h = absurd (cc)

decision_in-true :
    (r : Result Value)
    → decision_in r ≡ ok true
    → (v : Value) × (r ≡ ok v) × (value_at (as_dict v) ≡ some (bool true))
decision_in-true (ok v) h = (v, refl, is_true-some (value_at (as_dict v)) (ground (arith, h)))
decision_in-true (raise exc) h = elim (Bool-cases (is_value_error exc)) [
  | inl e ↦ absurd (ground (arith, rw (e, decision_in) at h))
  | inr e ↦ absurd (ground (arith, rw (e, decision_in) at h))
]
decision_in-true cancelled h = absurd (cc)

module _ {W : Type 0} (host : Host W) (policy data_file : String) where
  -- The output of `opa eval` has the Boolean `true` where the value of the query's expression stands.
  abbrev pub Allows : String → Type 0
  Allows stdout =
      (v : Value) × (host.loads stdout ≡ ok v) × (value_at (as_dict v) ≡ some (bool true))

  judge-true :
      (process : Process)
      → Opa.judge host policy data_file process ≡ ok true
      → (stdout : String) × (process ≡ ended (pos 0) stdout) × Allows stdout
  unfolding Opa.extract_decision
  judge-true os_error h = absurd (ground (arith, h))
  judge-true timed_out h = absurd (ground (arith, h))
  judge-true (failed exc) h = absurd (cc)
  judge-true (ended (pos zero) stdout) h = (stdout, refl, decision_in-true (host.loads stdout) h)
  judge-true (ended (pos (suc n)) stdout) h = absurd (ground (arith, h))
  judge-true (ended (negsuc n) stdout) h = absurd (ground (arith, h))

  ask-true :
      (body : Fields) (r : Result (Unit {0})) (w : W) {w' : W}
      → Opa.ask host policy data_file body r w ≡ (ok true, w')
      → (r ≡ ok tt)
        × (stdout : String) × (host.run
              (Opa.command host policy data_file)
              (some (host.dumps (input_doc body)))
              w
            ≡ (ended (pos 0) stdout, w'))
        × Allows stdout
  ask-true body (ok u) w h =
      let (process, v) =
        host.run (Opa.command host policy data_file) (some (host.dumps (input_doc body))) w in
      let (stdout, e, a) = judge-true process (ap (λ p. p.0) h) in
      (refl, stdout, ap₂ (λ p q. (p, q)) e (ap (λ p. p.1) h), a)
  ask-true body (raise exc) w h = absurd (ground (arith, h))
  ask-true body cancelled w h = absurd (ground (arith, h))

  -- The OPA gateway's evaluator allows a request only if it is an object whose subject, action and
  -- resource are objects with an id, a name and an id, `opa eval` ended with return code 0 on the
  -- document that is made of the request, and its output has the Boolean true as the query's value.
  pub opa_decide-Allows :
      (body : Value) (w w' : W)
      → Opa.decide host policy data_file body w ≡ (ok true, w')
      → (fs : Fields) × (body ≡ obj fs)
        × HasIds fs
        × (stdout : String) × (host.run
              (Opa.command host policy data_file)
              (some (host.dumps (input_doc fs)))
              w
            ≡ (ended (pos 0) stdout, w'))
        × Allows stdout
  unfolding Opa.decide
  opa_decide-Allows (obj fs) w w' h =
      let guard = require_ids (part "subject" fs) (part "action" fs) (part "resource" fs) in
      let (g, stdout, e, a) = ask-true fs guard w h in
      (fs, refl, require_ids-HasMember _ _ _ g, stdout, e, a)
  opa_decide-Allows _ w w' h = absurd (ground (arith, ap (λ p. p.0) h))
