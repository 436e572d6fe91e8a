-- ===== src/Tests/Components.antt =====
-- Examples of the cache, the verdicts, the mapping and the metrics.
use apparitor.Prelude.{
  map, ◌⊎◌, ℕ, ◌≡◌, ◌≢◌, refl, ◌↔◌, some, none, List, [], ◌∷◌, Option, true, false, Bool, String,
  ◌≤◌, ◌<◌, ◌+◌, leb, if◌then◌else◌, strip, All, get_elem?, length, arith, eq_iff,
}
use apparitor.Adapters.{NormalizedToolCall}
use apparitor.Cache.{DecisionCache, init, get, set_allow, effective_ttl}
use apparitor.Cache.History.{
  Call, gets, grants, clears, run, last_grant, run-IsValid, get-last_grant,
}
use apparitor.Cache.Reads.{get-set_allow}
use apparitor.Mapping.{forwarded_arguments, many, request_scoped_subject}
use apparitor.Mapping.Scopes.{Context, map_job, serve, MappedCall, own_subject, serve-own_subject}
use apparitor.Mapping.Dual.{same_principal}
use apparitor.Mapping.Keys.{mcp_resource_id-injective, redaction, dual_map_lem}
use apparitor.Models.{Subject, EvaluationRequest}
use apparitor.Tests.{runtime, config, call, alice, bot}
use apparitor.Value.{obj, Value, int, pos, str, Fields, end, field, subject, other}
use apparitor.Value.Json.{json_safe}

-- Two calls of a cache for one entry, the last one first.
abbrev past : List Call
past = gets 5 "k" ∷ grants 0 "k" none ∷ []

get-last_grant_example :
    (t : ℕ) × (e : ℕ) × (last_grant (init 10 20 1) "k" past ≡ some (t, e)) × (7 < e) × (e ≤ t + 20)
unfolding get apparitor.Dict.lookup run apparitor.Cache.History.step set_allow init
    apparitor.Dict.insert
get-last_grant_example = get-last_grant 10 20 1 7 "k" past refl

get-set_allow_example : (get 7 "k" (set_allow 0 "k" none (init 10 20 1))).0 ≡ (
    if leb (effective_ttl none (init 10 20 1)) 0
    then (get 7 "k" (init 10 20 1)).0
    else (if leb (0 + effective_ttl none (init 10 20 1)) 7 then none else some true))
get-set_allow_example = get-set_allow 0 7 "k" none (init 10 20 1)

mcp_resource_id-injective_example : (strip " a" ≡ strip "a") × (strip "t" ≡ strip "t ")
unfolding apparitor.Mapping.mcp_resource_id strip apparitor.Prelude.contains
    apparitor.Prelude.slash_join
mcp_resource_id-injective_example = mcp_resource_id-injective " a" "t" "a" "t " "a/t" refl refl

abbrev secret : NormalizedToolCall
secret = record { name = "pay"; arguments = field "card" (str "4111") end; id = str "1" }

abbrev other_secret : NormalizedToolCall
other_secret = record { name = "pay"; arguments = field "card" (str "4222") end; id = str "2" }

redaction_example :
    forwarded_arguments runtime config secret ≡ forwarded_arguments runtime config other_secret
redaction_example = redaction runtime config secret other_secret refl (refl, tt)

abbrev leg : Subject → EvaluationRequest
leg p = record {
  subject = p;
  action = record { name = "tool_call.execute"; properties = end };
  resource = record {
    type = "tool";
    id = "ls";
    properties = field "arguments" (Value.obj end) end;
  };
  context = none;
}

dual_map_lem_example :
    (u : EvaluationRequest) × (v : EvaluationRequest) × (many (leg alice ∷ leg bot ∷ [])
      ≡ many (u ∷ v ∷ []))
    × (request_scoped_subject (some alice) end ≡ some u.subject)
    × (v.subject ≡ bot)
    × (same_principal u.subject v.subject ≡ false)
    × (u.action ≡ v.action)
    × (u.resource ≡ v.resource)
    × (u.context ≡ v.context)
unfolding apparitor.Mapping.Dual.dual_map apparitor.Value.get strip json_safe
dual_map_lem_example =
    dual_map_lem runtime config bot (some alice) call end (many (leg alice ∷ leg bot ∷ [])) refl

-- Two requests that one task handles, the second one for the agent.
abbrev two_requests : List MappedCall
two_requests =
    record { principal = alice; context = end; call = call }
    ∷ record { principal = bot; context = end; call = call }
    ∷ []

abbrev second_request : EvaluationRequest
second_request = record {
  subject = bot;
  action = record { name = "tool_call.execute"; properties = end };
  resource = record { type = "tool"; id = "ls"; properties = field "arguments" (obj end) end };
  context = none;
}

abbrev unbound : Context
unbound = record { current_subject = none; current_request_context = none }

serve-own_subject_example :
    ((m : MappedCall) × (get_elem? two_requests 1 ≡ some m) × (bot ≡ own_subject m))
    × ((serve (map (map_job runtime config) two_requests) unbound).1 ≡ unbound)
unfolding apparitor.Mapping.Scopes.serve apparitor.Mapping.default_map apparitor.Value.get strip
    json_safe
serve-own_subject_example =
    serve-own_subject runtime config two_requests unbound 1 second_request refl
