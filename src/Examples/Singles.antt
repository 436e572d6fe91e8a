-- ===== src/Examples/Singles.antt =====
-- examples/opa and examples/cedar behind the engine's batches: an entry of a batch is decided like the
-- request that it stands for.
use apparitor.Prelude.{
  String, ◌≡◌, refl, Bool, false, Option, none, some, List, [], ◌∷◌, map, ap, ◌∙◌,
}
use apparitor.Engine.Base.{to_item, to_batch}
use apparitor.Examples.Http.{Host}
use apparitor.Examples.Opa
use apparitor.Examples.Opa.{input_doc}
use apparitor.Examples.Cedar
use apparitor.Examples.Service.{merge_item, decide_item, decide_items}
use apparitor.Exec.{Exec, after, after_cong, pure, ◌>>=◌}
use apparitor.Models.{EvaluationRequest}
use apparitor.Models.Dump.{dump_request, dump_item, dump_items, dump_batch}
use apparitor.Result.{Result, handle}
use apparitor.Runtime.{Runtime}
use apparitor.Value.{Value, obj, Fields, get, has, truthy}

module _ {W : Type 0} (rt : Runtime) (host : Host W) (decide : Value → Exec W Bool) where
  -- The request alone, where an exception counts as a deny.
  abbrev pub decide_alone : EvaluationRequest → Exec W Bool
  decide_alone r w =
      let (o, w') = decide (obj (dump_request rt r)) w in (handle (λ exc. false) o, w')

  -- The requests one behind the other.
  abbrev pub decide_in_turn : List EvaluationRequest → Exec W (List Bool)
  decide_in_turn [] = pure []
  decide_in_turn (r ∷ rs) = decide_alone r >>= λ d. decide_in_turn rs >>= λ ds. pure (d ∷ ds)

  -- An entry of a batch of the engine is decided like its request alone.
  abbrev pub DecidesEntries : Type 0
  DecidesEntries =
      (r : EvaluationRequest) (rs : List EvaluationRequest) (w : W)
      → decide_item host decide (dump_batch rt (to_batch rs)) (dump_item rt (to_item r)) w
        ≡ decide_alone r w

module _ {W : Type 0} (rt : Runtime) (host : Host W) (policy data_file : String) where
  opa-DecidesEntries : DecidesEntries rt host (Opa.decide host policy data_file)
  unfolding decide_item merge_item dump_request dump_batch to_item to_batch get has Opa.decide
      input_doc Opa.require_ids truthy
  opa-DecidesEntries r rs w = by_context r.context
    where
      by_context :
          (c : Option Fields)
          → decide_item host
              (Opa.decide host policy data_file)
              (dump_batch rt (to_batch rs))
              (dump_item rt (to_item (record r { context = c })))
              w
            ≡ decide_alone rt host (Opa.decide host policy data_file) (record r { context = c }) w
      by_context none = refl
      by_context (some c) = refl

module _ {W : Type 0} (rt : Runtime) (host : Host W) (policies entities : String) where
  cedar-DecidesEntries : DecidesEntries rt host (Cedar.decide host policies entities)
  unfolding decide_item merge_item dump_request dump_batch to_item to_batch get has Cedar.decide
      Opa.require_ids truthy
  cedar-DecidesEntries r rs w = by_context r.context
    where
      by_context :
          (c : Option Fields)
          → decide_item host
              (Cedar.decide host policies entities)
              (dump_batch rt (to_batch rs))
              (dump_item rt (to_item (record r { context = c })))
              w
            ≡ decide_alone rt host
                (Cedar.decide host policies entities)
                (record r { context = c })
                w
      by_context none = refl
      by_context (some c) = refl

module _ {W : Type 0} (rt : Runtime) (host : Host W) (decide : Value → Exec W Bool)
    (entries : DecidesEntries rt host decide) where
  decide_items-in_turn :
      (batch rs : List EvaluationRequest) (w : W)
      → decide_items host decide (dump_batch rt (to_batch batch)) (dump_items rt (map to_item rs)) w
        ≡ decide_in_turn rt host decide rs w
  unfolding decide_items dump_items
  decide_items-in_turn batch [] w = refl
  decide_items-in_turn batch (r ∷ rs) w =
      let body = dump_batch rt (to_batch batch) in
      let rest : Bool → Exec W (List Bool) = λ d.
        decide_items host decide body (dump_items rt (map to_item rs)) >>= λ ds. pure (d ∷ ds) in
      let (d, w') = decide_alone rt host decide r w in
      ap (λ (p : Result Bool × W). after p.0 rest p.1) (entries r batch w)
      ∙ after_cong d w' (λ a w₁.
        ap (λ (p : Result (List Bool) × W). after p.0 (λ ds. pure (a ∷ ds)) p.1)
          (decide_items-in_turn batch rs w₁))

module _ {W : Type 0} (rt : Runtime) (host : Host W) (first second : String) where
  -- Both gateways decide the entries of a batch that the engine makes of some requests, as the client
  -- dumps it, like the requests one behind the other, each dumped alone: with the same decisions, an
  -- exception counting as a deny, and the same calls of programs and changes of files.
  pub decide_items-decide_in_turn :
      (rs : List EvaluationRequest) (w : W)
      → (decide_items host
            (Opa.decide host first second)
            (dump_batch rt (to_batch rs))
            (dump_items rt (map to_item rs))
            w
          ≡ decide_in_turn rt host (Opa.decide host first second) rs w)
        × (decide_items host
              (Cedar.decide host first second)
              (dump_batch rt (to_batch rs))
              (dump_items rt (map to_item rs))
              w
            ≡ decide_in_turn rt host (Cedar.decide host first second) rs w)
  decide_items-decide_in_turn rs w = (
    decide_items-in_turn rt host (Opa.decide host first second)
        (opa-DecidesEntries rt host first second) rs rs w,
    decide_items-in_turn rt host (Cedar.decide host first second)
        (cedar-DecidesEntries rt host first second) rs rs w,
  )
