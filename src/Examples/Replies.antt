-- ===== src/Examples/Replies.antt =====
-- examples/: a service answers each request that it handles to the end once, and others not at all.
use apparitor.Prelude.{
  ℕ, ◌≡◌, ◌≢◌, refl, ◌⊎◌, inl, inr, Bool, Option, none, some, List, [], ◌∷◌, ◌++◌, ltb, Bool-cases,
  ◌==◌,
}
use apparitor.Client.Authzen.{rstrip_slash}
use apparitor.Examples.Http.{Host, Request, Reply, Connection, read_body, send}
use apparitor.Examples.MockPdp
use apparitor.Examples.Service.{
  decide_items, count, max_batch, evaluations, evaluate_one, evaluate_batch, do_post, decide_body,
  answer_one, answer_batch, answer_items,
}
use apparitor.Exec.{Exec, after}
use apparitor.Result.{Result, ok, raise, cancelled, is_value_error}
use apparitor.Value.{Value, arr, obj, Fields, get}

-- One reply behind those that were sent, or an end by an exception and no reply.
abbrev pub Replied : {W : Type 0} → Connection W → Result (Unit {0}) × Connection W → Type 0
Replied c (r, c') =
    ((r ≡ ok tt) × (reply : Reply) × (c'.sent ≡ c.sent ++ (reply ∷ [])))
    ⊎ ((r ≢ ok tt) × (c'.sent ≡ c.sent))

module _ {W : Type 0} (host : Host W) where
  send-Replied :
      (payload : Fields) (status : ℕ) (c : Connection W) → Replied c (send host payload status c)
  unfolding send
  send-Replied payload status c = inl (refl, _, refl)

  module _ (decide : Value → Exec W Bool) where
    answer_one-Replied :
        (r : Result Bool) (c : Connection W) → Replied c (answer_one host decide r c)
    answer_one-Replied (ok d) c = send-Replied _ _ c
    answer_one-Replied (raise exc) c = elim (Bool-cases (is_value_error exc)) [
      | inl e ↦ rw e (send-Replied _ _ c)
      | inr e ↦ rw e (send-Replied _ _ c)
    ]
    answer_one-Replied cancelled c = inr (λ e. cc, refl)

    sent_items-Replied :
        (r : Result (List Bool)) (c : Connection W)
        → Replied c (after r (λ ds. send host (evaluations ds) 200) c)
    sent_items-Replied (ok ds) c = send-Replied _ _ c
    sent_items-Replied (raise exc) c = inr (λ e. cc, refl)
    sent_items-Replied cancelled c = inr (λ e. cc, refl)

    answer_items-Replied :
        (body : Fields) (o : Option Value) (c : Connection W)
        → Replied c (answer_items host decide body o c)
    answer_items-Replied body none c = send-Replied _ _ c
    answer_items-Replied body (some (arr items)) c =
        elim (Bool-cases (ltb max_batch (count items))) [
          | inl over ↦ rw over (send-Replied _ _ c)
          | inr few ↦
              let (r, w) = decide_items host decide body items c.world in
              rw few (sent_items-Replied r (record c { world = w }))
        ]
    answer_items-Replied body (some _) c = send-Replied _ _ c

    answer_batch-Replied :
        (r : Result Value) (c : Connection W) → Replied c (answer_batch host decide r c)
    answer_batch-Replied (ok (obj body)) c = answer_items-Replied body (get "evaluations" body) c
    answer_batch-Replied (ok _) c = send-Replied _ _ c
    answer_batch-Replied (raise exc) c = elim (Bool-cases (is_value_error exc)) [
      | inl e ↦ rw e (send-Replied _ _ c)
      | inr e ↦ rw e (inr (λ d. cc, refl))
    ]
    answer_batch-Replied cancelled c = inr (λ e. cc, refl)

    -- A POST to a gateway that is handled to the end is answered by one reply, and one that ends
    -- with an exception by none.
    pub do_post-Replied :
        (request : Request) (c : Connection W) → Replied c (do_post host decide request c)
    unfolding do_post evaluate_one evaluate_batch
    do_post-Replied request c =
        elim (Bool-cases (rstrip_slash request.path == "/access/v1/evaluation")) [
          | inl e ↦
              let (r, w) = decide_body host decide (read_body host request) c.world in
              rw e (answer_one-Replied r (record c { world = w }))
          | inr e ↦ elim (Bool-cases (rstrip_slash request.path == "/access/v1/evaluations")) [
            | inl e' ↦ rw (e, e') (answer_batch-Replied (read_body host request) c)
            | inr e' ↦ rw (e, e') (send-Replied _ _ c)
          ]
        ]

  respond-Replied : (r : Result Fields) (c : Connection W) → Replied c (MockPdp.respond host r c)
  respond-Replied (ok payload) c = send-Replied _ _ c
  respond-Replied (raise exc) c = inr (λ e. cc, refl)
  respond-Replied cancelled c = inr (λ e. cc, refl)

  module _ (evaluate : Value → Value → Result Value) where
    answer-Replied :
        (request : Request) (r : Result Value) (c : Connection W)
        → Replied c (MockPdp.answer host evaluate request r c)
    answer-Replied request (ok body) c =
        elim (Bool-cases (rstrip_slash request.path == "/access/v1/evaluation")) [
          | inl e ↦ rw e (respond-Replied _ c)
          | inr e ↦ elim (Bool-cases (rstrip_slash request.path == "/access/v1/evaluations")) [
            | inl e' ↦ rw (e, e') (respond-Replied (MockPdp.batch host evaluate body) c)
            | inr e' ↦ rw (e, e') (send-Replied _ _ c)
          ]
        ]
    answer-Replied request (raise exc) c = elim (Bool-cases (is_value_error exc)) [
      | inl e ↦ rw e (send-Replied _ _ c)
      | inr e ↦ rw e (inr (λ d. cc, refl))
    ]
    answer-Replied request cancelled c = inr (λ e. cc, refl)

    -- So does a handler of the mock services, whatever it evaluates.
    pub handle-Replied :
        (request : Request) (c : Connection W) → Replied c (MockPdp.handle host evaluate request c)
    unfolding MockPdp.handle
    handle-Replied request c = answer-Replied request (MockPdp.read host request) c
