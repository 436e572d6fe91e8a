-- ===== src/Tests/Demonstrations.antt =====
-- Examples of the demonstrations.
use apparitor.Prelude.{
  ℕ, suc, ◌≡◌, ◌≢◌, refl, ◌≤◌, ◌↔◌, String, Bool, true, false, Option, none, some, List, [], ◌∷◌,
  arith, ◌+◌, length, if◌then◌else◌,
}
use apparitor.Decision.{human_review}
use apparitor.Engine.Base.{Engine, clean}
use apparitor.Engine.Entry.{build_requests}
use apparitor.Engine.Evaluate.{decide_single}
use apparitor.Examples.Http.{entry}
use apparitor.Examples.Lanes.{Case, imported, lane_llamafirewall, lane_nemo}
use apparitor.Examples.Oversight.{decide_single-verdict_for}
use apparitor.Examples.Review.{needs_review, decision_with}
use apparitor.Examples.Verdicts.{lanes-agree}
use apparitor.Models.{EvaluationResponse}
use apparitor.Result.{ok}
use apparitor.Tests.{engine, start, reading}
use apparitor.Tests.Services.{host}
use apparitor.Value.{bool, obj, Fields, end, field}

-- The lane of the scanner and of the rail, for one call with the arguments `{}`.
abbrev cases : List Case
cases = record { name = "ls"; arguments = end; want = "ALLOW" } ∷ []

abbrev dumps : Fields → String
dumps d = "{}"

lanes-agree_example :
    lane_llamafirewall engine dumps cases imported start
    ≡ lane_nemo engine dumps cases imported start
unfolding build_requests apparitor.Mapping.default_map apparitor.Value.get apparitor.Prelude.strip
lanes-agree_example = lanes-agree engine dumps (λ w call h. absurd (ground (arith, h))) cases start

abbrev flagged_response : EvaluationResponse
flagged_response = record { decision = true; context = some (entry "review" (bool true)) }

abbrev reviewing : Engine ℕ
reviewing = record engine {
  review = some (λ context. ok (needs_review context));
  client = record {
    evaluate = λ r w. (ok flagged_response, w);
    evaluate_batch = engine.client.evaluate_batch;
  };
}

decide_single-verdict_for_example :
    (decide_single reviewing "key" reading start).0 ≡ ok (clean human_review)
unfolding apparitor.Examples.Review.decision apparitor.Models.Dump.dump_request
    apparitor.Models.Responses.validate_response
decide_single-verdict_for_example =
    decide_single-verdict_for host [] ("a" ∷ []) reviewing refl "key" reading start
      (obj (decision_with true true)) flagged_response refl refl refl
