-- ===== src/Tests/Services.antt =====
-- Examples of the decision services.
use apparitor.Prelude.{
  ℕ, ◌≡◌, ◌≢◌, refl, ◌↔◌, ◌⊎◌, String, Bool, true, false, Option, none, some, List, [], ◌∷◌, ◌+◌,
  ◌≤◌, arith, if◌then◌else◌, eqb, length, get_elem?,
}
use apparitor.Examples.Batches.{Justified, do_post-Justified}
use apparitor.Examples.Bounds.{opa_gateway_bounded}
use apparitor.Examples.DenyList.{three_part_rule}
use apparitor.Examples.Grounds.{HasIds, Allows, opa_decide-Allows}
use apparitor.Examples.Http.{Host, ended, Request, Connection, reply, read_body}
use apparitor.Examples.MockPdp.{permits, three_part, colon_join}
use apparitor.Examples.Opa
use apparitor.Examples.Opa.{part, input_doc}
use apparitor.Examples.Service.{do_post, evaluations, count}
use apparitor.Exec.{Exec}
use apparitor.Result.{ok, raise, value_error}
use apparitor.Value.{
  ℤ, pos, Value, null, bool, str, arr, obj, Items, nil, cons, Fields, end, field, get, or_null,
}

-- The output of `opa eval` for an allow.
abbrev allowing : Value
allowing =
    let leaf = obj (field "value" (bool true) end) in
    let expressions = arr (cons leaf nil) in
    let entry = obj (field "expressions" expressions end) in
    obj (field "result" (arr (cons entry nil)) end)

abbrev tuple : Fields
tuple = field "subject" (obj (field "id" (str "alice") end)) (
    field "action" (obj (field "name" (str "read") end))
      (field "resource" (obj (field "id" (str "a") end)) end))

-- A batch of one entry, which takes all from the request, and one that is no object.
abbrev items : Items
items = cons (obj end) (cons null nil)

abbrev batch_body : Fields
batch_body = field "evaluations" (arr items) tuple

-- Programs that end with return code 0; the world counts the runs.
abbrev pub host : Host ℕ
host = record {
  parse_int = λ s. ok (pos 1);
  loads_bytes = λ bytes. elim bytes [
    | [] ↦ raise value_error
    | b ∷ bs ↦ if eqb b b'B' then ok (obj batch_body) else ok (obj tuple)
  ];
  loads = λ s. ok allowing;
  dumps = λ v. "";
  text_of = λ v. "";
  title = λ s. s;
  message = λ exc. "";
  run = λ cmd input w. (ended (pos 0) "", w + 1);
  make_directory = λ w. (ok "tmp", w);
  remove_directory = λ tmp w. (ok tt, w);
  write_text = λ path text w. (ok tt, w);
}

opa_decide-Allows_example :
    (fs : Fields) × (obj tuple ≡ obj fs)
    × HasIds fs
    × (stdout : String) × (host.run (Opa.command host "p" "d") (some (host.dumps (input_doc fs))) 0
        ≡ (ended (pos 0) stdout, 1))
    × Allows host "p" "d" stdout
unfolding Opa.decide apparitor.Value.put
opa_decide-Allows_example = opa_decide-Allows host "p" "d" (obj tuple) 0 1 refl

abbrev batch_request : Request
batch_request = record {
  path = "/access/v1/evaluations";
  content_length = some "1";
  bytes = b'B' ∷ [];
}

-- Without a length the body is empty.
abbrev empty_request : Request
empty_request = record { path = "/access/v1/evaluations"; content_length = none; bytes = b'B' ∷ [] }

abbrev connection : Connection ℕ
connection = record { world = 0; sent = [] }

-- An evaluator that allows all.
abbrev generous : Value → Exec ℕ Bool
generous body w = (ok true, w)

do_post-Justified_example :
    (ds : List Bool) × (w : ℕ) × (do_post host generous batch_request connection
      ≡ (ok tt, record connection { world = w; sent = reply host (evaluations ds) 200 ∷ [] }))
    × Justified host generous batch_body items ds
unfolding apparitor.Client.Authzen.rstrip_slash read_body apparitor.Value.put get count
do_post-Justified_example =
    do_post-Justified host generous (λ body w e. cc (e)) batch_request batch_body items connection
      (refl, refl) refl refl (omega arith)

opa_gateway_bounded_example :
    ((Opa.gateway host "p" "d").do_post batch_request connection).1.world ≤ 0 + 100
opa_gateway_bounded_example =
    opa_gateway_bounded host (λ w. w) (λ cmd input w. omega arith) "p" "d" batch_request connection

three_part_rule_example :
    (permits host (three_part "bot" "run" "x" ∷ []) "alice" "bot" "run:x" ≡ false) ↔ (
      ((◌≡◌ {A = String} "alice" "bot")
        × (◌≡◌ {A = String} "bot" "run")
        × (◌≡◌ {A = String} "run:x" "x"))
      ⊎ ((◌≡◌ {A = String} "bot" "bot") × (◌≡◌ {A = String} "run:x" (colon_join "run" "x"))))
unfolding apparitor.Prelude.contains
three_part_rule_example =
    three_part_rule host "bot" "run" "x" "alice" "bot" "run:x" refl refl refl refl
