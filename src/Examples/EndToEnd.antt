-- ===== src/Examples/EndToEnd.antt =====
-- client.py with examples/opa and examples/cedar: the AuthZEN client before an example gateway.
use apparitor.Prelude.{
  ℕ, ◌<◌, ◌≡◌, refl, inl, inr, String, Bool, true, false, some, [], ◌∷◌, arith, Bool-cases, ◌==◌,
  ap, ap₂, sym, ◌∙◌, subst, concat,
}
use apparitor.Client.Answers.{evaluate-Answered}
use apparitor.Client.Authzen
use apparitor.Client.Authzen.{rstrip_slash}
use apparitor.Client.Json.{strict_json}
use apparitor.Client.Transport.{Timeouts, responded, Network}
use apparitor.Config.{ScannerConfig}
use apparitor.Examples.Grounds.{HasIds, Allows, opa_decide-Allows}
use apparitor.Examples.Http.{Host, ended, Request, Reply, Connection, read_body, send, reply, entry}
use apparitor.Examples.Opa
use apparitor.Examples.Opa.{input_doc}
use apparitor.Examples.Service.{do_post, evaluate_one, answer_one, decision_of}
use apparitor.Exec.{Exec}
use apparitor.Models.{EvaluationRequest, EvaluationResponse}
use apparitor.Models.Responses.{Reports}
use apparitor.Result.{Result, ok, raise, cancelled, is_value_error}
use apparitor.Models.Dump.{dump_request}
use apparitor.Runtime.{Runtime}
use apparitor.Value.{pos, Value, bool, str, obj, Fields, get}

-- A connection on which nothing was sent.
abbrev pub fresh : {W : Type 0} → W → Connection W
fresh w = record { world = w; sent = [] }

-- How the two sides meet for one payload: a response that the client gets at the evaluation URL is
-- the one reply of the gateway to a request at its evaluation endpoint; the gateway reads the payload
-- from the request's body; and where the client's strict reader takes a printed decision, it reads
-- that decision.
pub record IsConnected {W : Type 0} (rt : Runtime) (host : Host W) (decide : Value → Exec W Bool)
    (net : Network W) (url : String) (payload : Fields) : Type 0 where
  pub request : Request
  pub routed : (rstrip_slash request.path == "/access/v1/evaluation") ≡ true
  pub served :
      (t : Timeouts) (w : W) (code : ℕ) (content : String)
      → (net.post url payload t w).0 ≡ responded code content
      → (w₀ : W) × (r : Reply) × ((do_post host decide request (fresh w₀)).1.sent ≡ r ∷ [])
        × (r.status ≡ code)
        × (r.body ≡ content)
  pub received : read_body host request ≡ ok (obj payload)
  pub reread :
      (d : Bool) (u : Value)
      → strict_json rt (host.dumps (obj (decision_of d))) ≡ ok u
      → u ≡ obj (decision_of d)

only : {A : Type 0} {x y : A} → x ∷ [] ≡ y ∷ [] → x ≡ y
only h = ground (arith, h)

reported : (d : Bool) → Reports (obj (decision_of d)) true → d ≡ true
unfolding get
reported d (fs, same, g) =
    let fields : decision_of d ≡ fs = ground (arith, same) in
    let h : some (bool d) ≡ get "decision" fs = ap (get "decision") fields in ground (arith, h, g)

module _ {W : Type 0} (rt : Runtime) (config : ScannerConfig) (host : Host W)
    (decide : Value → Exec W Bool) (net : Network W) (base : String) (r : EvaluationRequest)
    (connected : IsConnected rt host decide net
      (concat base config.evaluation_path)
      (dump_request rt r)) where
  reads-decision :
      (d : Bool) (x : Reply) (v : Value)
      → reply host (decision_of d) 200 ≡ x
      → strict_json rt x.body ≡ ok v
      → Reports v true
      → d ≡ true
  unfolding reply
  reads-decision d x v e read (fs, same, g) =
      let body : host.dumps (obj (decision_of d)) ≡ x.body = ap (λ (y : Reply). y.body) e in
      let v_eq : v ≡ obj (decision_of d) = connected.reread d v (rw body read) in
      reported d (fs, sym v_eq ∙ same, g)

  -- A success that reports a decision of `true` comes from an evaluator that returned it.
  answer_one-true :
      (r : Result Bool) (w : W) (x : Reply) (v : Value)
      → (answer_one host decide r (fresh w)).1.sent ≡ x ∷ []
      → x.status < 300
      → strict_json rt x.body ≡ ok v
      → Reports v true
      → r ≡ ok true
  unfolding send
  answer_one-true (ok d) w x v sent fine read reports =
      ap ok (reads-decision d x v (only sent) read reports)
  answer_one-true (raise exc) w x v sent fine read reports =
      elim (Bool-cases (is_value_error exc)) [
        | inl e ↦
            let refused : reply host (entry "error" (str (host.message exc))) 400 ≡ x =
              only (rw (e, answer_one) at sent) in
            let status : 400 ≡ x.status = unfold reply in ap (λ (y : Reply). y.status) refused in
            absurd (omega arith)
        | inr e ↦
            absurd (cc (reads-decision false x v (only (rw (e, answer_one) at sent)) read reports))
      ]
  answer_one-true cancelled w x v sent fine read reports = absurd (ground (arith, sent))

  -- An ALLOW of the client before a gateway: the evaluator of the gateway allowed the request, as the
  -- client dumps it.
  pub evaluate-decide :
      (w : W) (x : EvaluationResponse)
      → (Authzen.evaluate rt config net base r w).0 ≡ ok x
      → x.decision ≡ true
      → (w₀ : W) × ((decide (obj (dump_request rt r)) w₀).0 ≡ ok true)
  unfolding do_post evaluate_one
  evaluate-decide w x answered allowed =
      let payload = dump_request rt r in
      let (v, (t, w', (code, content, e, from, to, read)), unique, reports) =
        evaluate-Answered rt config net base r w x answered in
      let (w₀, y, sent, status, body) = connected.served t w' code content e in
      let one : (evaluate_one host decide connected.request (fresh w₀)).1.sent ≡ y ∷ [] =
        rw connected.routed at sent in
      let (out, w₁) = decide (obj payload) w₀ in
      let one' : (answer_one host decide out (fresh w₁)).1.sent ≡ y ∷ [] =
        rw connected.received at one in
      (
        w₀,
        answer_one-true out w₁ y v one' (omega (arith, status)) (rw body read)
            (rw allowed at reports),
      )

module _ {W : Type 0} (rt : Runtime) (config : ScannerConfig) (host : Host W)
    (policy data_file : String) (net : Network W) (base : String) (r : EvaluationRequest)
    (connected : IsConnected rt host
      (Opa.decide host policy data_file)
      net
      (concat base config.evaluation_path)
      (dump_request rt r)) where
  -- An ALLOW of the client before the OPA gateway: the dumped request has its three identifiers, and
  -- `opa eval` ended with return code 0 on the document that is made of it, with the Boolean true as
  -- the query's value in its output.
  pub evaluate-Allows :
      (w : W) (x : EvaluationResponse)
      → (Authzen.evaluate rt config net base r w).0 ≡ ok x
      → x.decision ≡ true
      → HasIds (dump_request rt r)
        × (w₀ : W) × (w₁ : W) × (stdout : String) × (host.run
              (Opa.command host policy data_file)
              (some (host.dumps (input_doc (dump_request rt r))))
              w₀
            ≡ (ended (pos 0) stdout, w₁))
        × Allows host policy data_file stdout
  evaluate-Allows w x answered allowed =
      let payload = dump_request rt r in
      let (w₀, decided) =
        evaluate-decide rt config host (Opa.decide host policy data_file) net base r connected w x
          answered allowed in
      let w₁ = (Opa.decide host policy data_file (obj payload) w₀).1 in
      let (fs, same, ids, stdout, ran, allows) =
        opa_decide-Allows host policy data_file (obj payload) w₀ w₁
          (ap₂ (λ p q. (p, q)) decided refl) in
      let fields : fs ≡ payload = ground (arith, same) in
      (
        subst HasIds (fields) ids,
        w₀,
        w₁,
        stdout,
        subst
            (λ fs.
              host.run (Opa.command host policy data_file) (some (host.dumps (input_doc fs))) w₀
              ≡ (ended (pos 0) stdout, w₁))
            (fields) ran,
        allows,
      )
