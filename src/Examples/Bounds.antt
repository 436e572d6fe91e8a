-- ===== src/Examples/Bounds.antt =====
-- examples/opa and examples/cedar: how often one request runs the program behind a gateway.
use apparitor.Prelude.{
  ℕ, suc, ◌+◌, ◌≤◌, String, ◌≡◌, refl, Bool, Option, none, some, List, arith, ltb, Bool-cases, inl,
  inr, concat, ◌++◌, [], ◌∷◌,
}
use apparitor.Examples.Cedar
use apparitor.Examples.Http.{Host, Request, Connection, read_body, send}
use apparitor.Examples.Opa
use apparitor.Examples.Service.{
  merge_item, decide_item, decide_items, count, max_batch, make_handler, evaluate_one,
  evaluate_batch, do_post, decide_body, answer_one, answer_batch, answer_items, evaluations,
}
use apparitor.Exec.{Exec, after}
use apparitor.Result.{Result, ok, raise, cancelled}
use apparitor.Value.{
  Value, null, bool, int, float, str, arr, obj, subject, other, Items, nil, cons, Fields, get,
  or_null, truthy,
}

module _ {W : Type 0} (host : Host W) (decide : Value → Exec W Bool) (runs : W → ℕ)
    (once : (body : Value) (w : W) → runs (decide body w).1 ≤ suc (runs w)) where
  decide_item_bounded :
      (body : Fields) (item : Value) (w : W)
      → runs (decide_item host decide body item w).1 ≤ suc (runs w)
  unfolding decide_item
  decide_item_bounded body (obj item) w = once (obj (merge_item item body)) w
  decide_item_bounded body null w = omega arith
  decide_item_bounded body (bool b) w = omega arith
  decide_item_bounded body (int z) w = omega arith
  decide_item_bounded body (float r) w = omega arith
  decide_item_bounded body (str s) w = omega arith
  decide_item_bounded body (arr xs) w = omega arith
  decide_item_bounded body (subject t i p) w = omega arith
  decide_item_bounded body (other s) w = omega arith

  decide_items_bounded :
      (body : Fields) (items : Items) (w : W)
      → runs (decide_items host decide body items w).1 ≤ runs w + count items
  unfolding decide_items count
  decide_items_bounded body nil w = omega arith
  decide_items_bounded body (cons item items) w =
      let w' = (decide_item host decide body item w).1 in
      ground (arith, decide_item_bounded body item w, decide_items_bounded body items w')

  send_bounded :
      (payload : Fields) (status : ℕ) (c : Connection W)
      → runs (send host payload status c).1.world ≡ runs c.world
  unfolding send
  send_bounded payload status c = refl

  answer_one_bounded :
      (r : Result Bool) (c : Connection W)
      → runs (answer_one host decide r c).1.world ≡ runs c.world
  unfolding send
  answer_one_bounded (ok d) c = refl
  answer_one_bounded (raise exc) c = ground arith
  answer_one_bounded cancelled c = refl

  decide_body_bounded :
      (r : Result Value) (w : W) → runs (decide_body host decide r w).1 ≤ suc (runs w)
  decide_body_bounded (ok body) w = once body w
  decide_body_bounded (raise exc) w = omega arith
  decide_body_bounded cancelled w = omega arith

  evaluate_one_bounded :
      (request : Request) (c : Connection W)
      → runs (evaluate_one host decide request c).1.world ≤ suc (runs c.world)
  unfolding evaluate_one
  evaluate_one_bounded request c =
      let (r, w) = decide_body host decide (read_body host request) c.world in
      omega (
        arith,
        decide_body_bounded (read_body host request) c.world,
        answer_one_bounded r (record c { world = w }),
      )

  sent_items_bounded :
      (r : Result (List Bool)) (c : Connection W) {n : ℕ}
      → runs c.world ≤ n
      → runs (after r (λ ds. send host (evaluations ds) 200) c).1.world ≤ n
  unfolding send
  sent_items_bounded (ok ds) c h = h
  sent_items_bounded (raise exc) c h = h
  sent_items_bounded cancelled c h = h

  answer_items_bounded :
      (body : Fields) (o : Option Value) (c : Connection W)
      → runs (answer_items host decide body o c).1.world ≤ runs c.world + max_batch
  unfolding send
  answer_items_bounded body none c = omega arith
  answer_items_bounded body (some (arr items)) c = elim (Bool-cases (ltb max_batch (count items))) [
    | inl over ↦ rw over (omega arith)
    | inr few ↦ rw few (
        sent_items_bounded (decide_items host decide body items c.world).0
          (record c { world = (decide_items host decide body items c.world).1 })
          (ground (arith, decide_items_bounded body items c.world)))
  ]
  answer_items_bounded body (some _) c = omega arith

  answer_batch_bounded :
      (r : Result Value) (c : Connection W)
      → runs (answer_batch host decide r c).1.world ≤ runs c.world + max_batch
  unfolding send
  answer_batch_bounded (ok (obj body)) c = answer_items_bounded body (get "evaluations" body) c
  answer_batch_bounded (ok _) c = omega arith
  answer_batch_bounded (raise exc) c = ground arith
  answer_batch_bounded cancelled c = omega arith

  -- A POST to a gateway runs the program behind it at most a hundred times, whatever its path, its
  -- headers and its body, if one decision runs it at most once.
  pub do_post_bounded :
      (request : Request) (c : Connection W)
      → runs (do_post host decide request c).1.world ≤ runs c.world + max_batch
  unfolding do_post evaluate_batch send
  do_post_bounded request c =
      ground
        (arith, evaluate_one_bounded request c, answer_batch_bounded (read_body host request) c)

-- The program of a gateway is run by `run` only, once for each call.
module _ {W : Type 0} (host : Host W) (runs : W → ℕ)
    (counted : (cmd : List String) (input : Option String) (w : W)
      → runs (host.run cmd input w).1 ≤ suc (runs w)) where
  opa_ask_bounded :
      (policy data_file : String) (body : Fields) (r : Result (Unit {0})) (w : W)
      → runs (Opa.ask host policy data_file body r w).1 ≤ suc (runs w)
  opa_ask_bounded policy data_file body (ok u) w =
      counted (Opa.command host policy data_file) (some (host.dumps (Opa.input_doc body))) w
  opa_ask_bounded policy data_file body (raise exc) w = omega arith
  opa_ask_bounded policy data_file body cancelled w = omega arith

  opa_decide_bounded :
      (policy data_file : String) (body : Value) (w : W)
      → runs (Opa.decide host policy data_file body w).1 ≤ suc (runs w)
  unfolding Opa.decide
  opa_decide_bounded policy data_file (obj body) w =
      opa_ask_bounded policy data_file body
        (Opa.require_ids (Opa.part "subject" body) (Opa.part "action" body)
          (Opa.part "resource" body))
        w
  opa_decide_bounded policy data_file _ w = omega arith

  -- A POST to the OPA gateway runs `opa` at most a hundred times, whatever its path, its headers and
  -- its body.
  pub opa_gateway_bounded :
      (policy data_file : String) (request : Request) (c : Connection W)
      → runs ((Opa.gateway host policy data_file).do_post request c).1.world ≤ runs c.world + 100
  unfolding Opa.gateway make_handler
  opa_gateway_bounded policy data_file request c =
      do_post_bounded host (Opa.decide host policy data_file) runs
        (opa_decide_bounded policy data_file) request c

  -- The directory for the context's file does not run the program.
  module _ (made : (w : W) → runs (host.make_directory w).1 ≡ runs w)
      (gone : (tmp : String) (w : W) → runs (host.remove_directory tmp w).1 ≡ runs w)
      (written : (path text : String) (w : W) → runs (host.write_text path text w).1 ≡ runs w) where
    call_after_bounded :
        (policies entities : String) (cmd : List String) (r : Result (Unit {0})) (w : W)
        → runs (after r (λ u. Cedar.call host policies entities cmd) w).1 ≤ suc (runs w)
    call_after_bounded policies entities cmd (ok u) w = counted cmd none w
    call_after_bounded policies entities cmd (raise exc) w = omega arith
    call_after_bounded policies entities cmd cancelled w = omega arith

    call_in_bounded :
        (policies entities : String) (cmd : List String) (context : Value) (tmp : String) (w : W)
        → runs (Cedar.call_in host policies entities cmd context tmp w).1 ≤ suc (runs w)
    call_in_bounded policies entities cmd context tmp w = elim (Bool-cases (truthy context)) [
      | inl given ↦
          let path = concat tmp "/context.json" in
          let (r, w') = host.write_text path (host.dumps context) w in
          rw (given, Cedar.call_in)
            (omega (
              arith,
              written path (host.dumps context) w,
              call_after_bounded policies entities (cmd ++ ("--context" ∷ path ∷ [])) r w',
            ))
      | inr empty ↦ rw (empty, Cedar.call_in) (counted cmd none w)
    ]

    in_directory_bounded :
        (policies entities : String) (made_r : Result String) (block : String → Exec W Bool) (w : W)
        → ((tmp : String) (v : W) → runs (block tmp v).1 ≤ suc (runs v))
        → runs (Cedar.in_directory host policies entities made_r block w).1 ≤ suc (runs w)
    in_directory_bounded policies entities (ok tmp) block w h =
        let v = (block tmp w).1 in omega (arith, h tmp w, gone tmp v)
    in_directory_bounded policies entities (raise exc) block w h = omega arith
    in_directory_bounded policies entities cancelled block w h = omega arith

    cedar_ask_bounded :
        (policies entities : String) (context : Value) (r : Result (List String)) (w : W)
        → runs (Cedar.ask host policies entities context r w).1 ≤ suc (runs w)
    cedar_ask_bounded policies entities context (ok cmd) w =
        let (r, w') = host.make_directory w in
        omega (
          arith,
          made w,
          in_directory_bounded policies entities r
              (Cedar.call_in host policies entities cmd context) w'
              (call_in_bounded policies entities cmd context),
        )
    cedar_ask_bounded policies entities context (raise exc) w = omega arith
    cedar_ask_bounded policies entities context cancelled w = omega arith

    cedar_decide_bounded :
        (policies entities : String) (body : Value) (w : W)
        → runs (Cedar.decide host policies entities body w).1 ≤ suc (runs w)
    unfolding Cedar.decide
    cedar_decide_bounded policies entities (obj body) w =
        cedar_ask_bounded policies entities (or_null (get "context" body))
          (Cedar.checked_command host policies entities body) w
    cedar_decide_bounded policies entities _ w = omega arith

    -- A POST to the Cedar gateway runs `cedar` at most a hundred times, whatever its path, its
    -- headers and its body.
    pub cedar_gateway_bounded :
        (policies entities : String) (request : Request) (c : Connection W)
        → runs ((Cedar.gateway host policies entities).do_post request c).1.world
          ≤ runs c.world + 100
    unfolding Cedar.gateway make_handler
    cedar_gateway_bounded policies entities request c =
        do_post_bounded host (Cedar.decide host policies entities) runs
          (cedar_decide_bounded policies entities) request c
