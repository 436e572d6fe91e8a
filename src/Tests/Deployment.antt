-- ===== src/Tests/Deployment.antt =====
-- Examples of the client before the OPA gateway.
use apparitor.Prelude.{
  ℕ, ◌≡◌, refl, map, String, Bool, true, false, Option, none, some, List, [], ◌∷◌, ◌+◌, arith,
  if◌then◌else◌, eqb,
}
use apparitor.Client.Authzen
use apparitor.Client.Json.{strict_json}
use apparitor.Client.Transport.{Attempt, responded, transport_failed, Network}
use apparitor.Examples.EndToEnd.{IsConnected, fresh, evaluate-Allows}
use apparitor.Examples.Grounds.{HasIds, Allows}
use apparitor.Examples.Http.{Host, ended, Request, Reply, reply}
use apparitor.Examples.Opa
use apparitor.Examples.Opa.{input_doc}
use apparitor.Examples.Cedar
use apparitor.Examples.Singles.{decide_in_turn, decide_items-decide_in_turn}
use apparitor.Engine.Base.{to_item, to_batch}
use apparitor.Examples.Service.{decide_items, do_post, decision_of}
use apparitor.Models.Dump.{dump_request, dump_batch, dump_items}
use apparitor.Result.{ok, raise, malformed}
use apparitor.Tests.{runtime, config, reading, allowed_response}
use apparitor.Value.{pos, Value, bool, str, arr, obj, nil, cons, Fields, end, field}

-- The output of `opa eval` for an allow.
abbrev output : Value
output =
    let leaf = obj (field "value" (bool true) end) in
    let entry = obj (field "expressions" (arr (cons leaf nil)) end) in
    obj (field "result" (arr (cons entry nil)) end)

abbrev printed : Value → String
printed (obj (field k (bool true) end)) = "allow"
printed v = "none"

abbrev host : Host ℕ
host = record {
  parse_int = λ s. ok (pos 1);
  loads_bytes = λ bytes. ok (obj (dump_request runtime reading));
  loads = λ s. ok output;
  dumps = printed;
  text_of = λ v. "";
  title = λ s. s;
  message = λ exc. "";
  run = λ cmd input w. (ended (pos 0) "", w + 1);
  make_directory = λ w. (ok "tmp", w);
  remove_directory = λ tmp w. (ok tt, w);
  write_text = λ path text w. (ok tt, w);
}

abbrev request : Request
request = record { path = "/access/v1/evaluation"; content_length = some "1"; bytes = b'{' ∷ [] }

abbrev delivered : List Reply → Attempt
delivered [] = transport_failed
delivered (r ∷ rs) = responded r.status r.body

-- Whatever is posted goes to the gateway as the one request.
abbrev network : Network ℕ
network = record {
  post = λ url payload t w.
      let c = (do_post host (Opa.decide host "p" "d") request (fresh w)).1 in
      (delivered c.sent, c.world);
  clock = λ w. 0;
  sleep = λ d w. (ok tt, w);
  uniform = λ b w. (0, w);
}

-- What the gateway does with the request.
answered :
    (w : ℕ)
    → do_post host (Opa.decide host "p" "d") request (fresh w)
      ≡ (ok tt, record { world = w + 1; sent = reply host (decision_of true) 200 ∷ [] })
unfolding do_post Opa.decide dump_request apparitor.Value.put
answered w = refl

reread :
    (d : Bool) (u : Value)
    → strict_json runtime (host.dumps (obj (decision_of d))) ≡ ok u
    → u ≡ obj (decision_of d)
unfolding strict_json apparitor.Value.has apparitor.Value.put
reread true u h = let read : ok (obj (decision_of true)) ≡ ok u = h in ground (arith, read)
reread false u h =
    let impossible : raise malformed ≡ ok u = h in absurd (ground (arith, impossible))

network-IsConnected :
    IsConnected runtime host
      (Opa.decide host "p" "d")
      network
      "https://gw/access/v1/evaluation"
      (dump_request runtime reading)
unfolding Authzen.rstrip_slash do_post Opa.decide dump_request apparitor.Value.put
network-IsConnected = record {
  request = request;
  routed = refl;
  served = λ t w code content e.
      let sent : responded 200 "allow" ≡ responded code content = e in
      (w, reply host (decision_of true) 200, refl, ground (arith, sent), ground (arith, sent));
  received = refl;
  reread = reread;
}

evaluate-Allows_example :
    HasIds (dump_request runtime reading)
    × (w₀ : ℕ) × (w₁ : ℕ) × (stdout : String) × (host.run
          (Opa.command host "p" "d")
          (some (host.dumps (input_doc (dump_request runtime reading))))
          w₀
        ≡ (ended (pos 0) stdout, w₁))
    × Allows host "p" "d" stdout
unfolding apparitor.Prelude.concat Authzen.evaluate do_post Opa.decide dump_request
    apparitor.Value.put
evaluate-Allows_example =
    evaluate-Allows runtime config host "p" "d" network "https://gw" reading network-IsConnected 0
      allowed_response refl refl

decide_items-decide_in_turn_example :
    (decide_items host
        (Opa.decide host "p" "d")
        (dump_batch runtime (to_batch (reading ∷ [])))
        (dump_items runtime (map to_item (reading ∷ [])))
        0
      ≡ decide_in_turn runtime host (Opa.decide host "p" "d") (reading ∷ []) 0)
    × (decide_items host
          (Cedar.decide host "p" "d")
          (dump_batch runtime (to_batch (reading ∷ [])))
          (dump_items runtime (map to_item (reading ∷ [])))
          0
        ≡ decide_in_turn runtime host (Cedar.decide host "p" "d") (reading ∷ []) 0)
decide_items-decide_in_turn_example =
    decide_items-decide_in_turn runtime host "p" "d" (reading ∷ []) 0
