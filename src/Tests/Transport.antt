-- ===== src/Tests/Transport.antt =====
-- Examples of the HTTP client and of the backends.
use apparitor.Prelude.{
  ℕ, ◌≡◌, ◌≢◌, refl, ◌↔◌, ◌⊎◌, some, none, List, [], ◌∷◌, true, false, Bool, map, ◌+◌, arith,
  if◌then◌else◌, eqb,
}
use apparitor.Backend.{DecisionBackend}
use apparitor.Backend.Cedar.{Cedarpy, CedarRequest, allowed, decide, cedar_request, is_disallowed}
use apparitor.Backend.CedarSafety.{OnlyMalformed, decide_lem}
use apparitor.Backend.Gather.{gather_decisions-ok}
use apparitor.Backend.Opa.{extract_decision, response_of}
use apparitor.Client.Authzen
use apparitor.Client.Rounds.{post_loop-ends}
use apparitor.Client.Answers.{Answered, evaluate-Answered}
use apparitor.Client.Recovery.{busy, answers, fails, post-Recovers}
use apparitor.Config.Validation.{Numbers}
use apparitor.Models.{BatchEvaluationRequest, BatchEvaluationResponse}
use apparitor.Models.Dump.{dump_request}
use apparitor.Models.Responses.{Reports}
use apparitor.Client.Strict.{HasUniqueKeys, strict_json-HasUniqueKeys}
use apparitor.Client.Json.{strict_json}
use apparitor.Client.Transport.{Network, timed_out, responded, post, post_loop}
use apparitor.Client.Url.{Url, IsSafeHost, host_of, validate_pdp_url, validate_pdp_url-ok}
use apparitor.Result.{ok, raise, config_error}
use apparitor.Tests.{
  allowed_response, runtime, config, reading, twice, alice, answering, urlparse, ip_address,
}
use apparitor.Value.{pos, str, Value, bool, obj, Fields, end, field}

-- A network on which every attempt times out; the world is the clock and the number of attempts.
abbrev slow : Network (ℕ × ℕ)
slow = record {
  post = λ url payload t w. (timed_out, (w.0 + t.connect, w.1 + 1));
  clock = λ w. w.0;
  sleep = λ d w. (ok tt, (w.0 + d, w.1));
  uniform = λ b w. (b, w);
}

post_loop-ends_example :
    (post_loop runtime config (answering "{}") 3 "u" end 2_000_000 0 0).0 ≢ ok none
post_loop-ends_example = post_loop-ends runtime config (answering "{}") "u" end 2_000_000 0

strict_json-HasUniqueKeys_example :
    (strict_json runtime "twice" ≡ ok (obj twice))
    ↔ ((obj twice ≡ obj twice) × HasUniqueKeys (obj twice))
strict_json-HasUniqueKeys_example =
    strict_json-HasUniqueKeys runtime "twice" (obj twice) (obj twice) refl

validate_pdp_url-ok_example :
    ((validate_pdp_url urlparse ip_address "https://pdp" false ≡ ok tt) ↔ (
      (u : Url) × (urlparse "https://pdp" ≡ some u)
      × ((false ≡ true)
          ⊎ ((u.scheme ≡ "https") × IsSafeHost urlparse ip_address (host_of u.hostname)))))
    × ((validate_pdp_url urlparse ip_address "https://pdp" false ≡ ok tt)
        ⊎ (validate_pdp_url urlparse ip_address "https://pdp" false ≡ raise config_error))
validate_pdp_url-ok_example = validate_pdp_url-ok urlparse ip_address "https://pdp" false

-- An answer of the Data API that allows.
abbrev body : Value
body = obj (field "result" (bool true) end)

gather_decisions-ok_example :
    (values : List Value) × (ds : List Bool) × (ok body ∷ ok body ∷ [] ≡ map ok values)
    × (map extract_decision values ≡ map ok ds)
    × (response_of true ∷ response_of true ∷ [] ≡ map response_of ds)
unfolding apparitor.Backend.Opa.gather_decisions
gather_decisions-ok_example =
    gather_decisions-ok (ok body ∷ ok body ∷ []) (1 ∷ 0 ∷ [])
      (record { evaluations = response_of true ∷ response_of true ∷ [] }) refl

abbrev permissive : Cedarpy ℕ
permissive = record {
  is_authorized = λ q w. (ok allowed, w);
  is_authorized_batch = λ qs w. (ok (map (λ q. allowed) qs), w);
}

decide_lem_example :
    (((decide runtime permissive reading 0).0 ≡ ok true) ↔ (
      (q : CedarRequest) × (cedar_request runtime reading ≡ ok q)
      × (is_disallowed "alice" ≡ false)
      × (is_disallowed "read" ≡ false)
      × (is_disallowed "a" ≡ false)
      × ((permissive.is_authorized q 0).0 ≡ ok allowed)))
    × OnlyMalformed (decide runtime permissive reading 0).0
decide_lem_example = decide_lem runtime permissive reading 0

abbrev allowing : Value
allowing = obj (field "decision" (bool true) end)

evaluate-Answered_example :
    (v : Value) × Answered runtime config
      (answering "allow")
      "https://pdp/access/v1/evaluation"
      (dump_request runtime reading)
      v
    × HasUniqueKeys v
    × Reports v true
unfolding Authzen.evaluate apparitor.Value.has apparitor.Value.put
evaluate-Answered_example =
    evaluate-Answered runtime config (answering "allow") "https://pdp" reading 0 allowed_response
      refl

abbrev one_item : BatchEvaluationRequest
one_item = record {
  subject = some alice;
  action = none;
  resource = none;
  context = none;
  evaluations = [];
  options = none;
}

abbrev one_response : BatchEvaluationResponse
one_response = record { evaluations = allowed_response ∷ [] }

-- A service that is busy at the first attempt; the world counts the attempts.
abbrev recovering : Network ℕ
recovering = record {
  post = λ url payload t w. (if eqb w 0 then responded 503 "" else responded 200 "allow", w + 1);
  clock = λ w. w;
  sleep = λ d w. (ok tt, w);
  uniform = λ b w. (0, w);
}

post-Recovers_example : (post runtime config recovering "u" end 0).0 ≡ ok allowing
unfolding apparitor.Client.Transport.is_retry_status apparitor.Client.Transport.backoff strict_json
    apparitor.Value.has apparitor.Value.put
post-Recovers_example = post-Recovers runtime config recovering "u" end allowing 0 (
    fails 0 0 1 (omega arith) (busy 503 "" refl) (omega arith) (omega arith) refl
      (answers 1 1 200 "allow" (omega arith) refl (omega arith) (omega arith) refl))

abbrev defaults : Numbers
defaults = record {
  request_budget = pos 2_000_000;
  connect_timeout = pos 1_000_000;
  read_timeout = pos 2_000_000;
  max_retries = pos 2;
  backoff_base = pos 50_000;
  backoff_max = pos 500_000;
  cache_ttl = pos 60_000_000;
  cache_max_ttl = pos 300_000_000;
  cache_max_entries = pos 10_000;
  max_argument_bytes = pos 4096;
}
