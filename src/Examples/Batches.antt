-- ===== src/Examples/Batches.antt =====
-- examples/opa and examples/cedar: what a gateway answers to a batch.
use apparitor.Prelude.{
  ℕ, zero, suc, ◌≤◌, ◌<◌, String, ◌≡◌, ◌≢◌, refl, Bool, true, false, Option, none, some, List, [],
  ◌∷◌, ◌++◌, arith, ltb, ◌==◌, sym, ◌∙◌, length, get_elem?, ap, ap₂,
}
use apparitor.Client.Authzen.{rstrip_slash}
use apparitor.Examples.Http.{Host, Request, Connection, read_body, send, reply, is_object, entry}
use apparitor.Examples.Service.{
  merge_item, decide_item, decide_items, count, max_batch, evaluations, evaluate_batch, do_post,
  answer_batch, answer_items,
}
use apparitor.Exec.{Exec, after, after-ok, pure}
use apparitor.Result.{Result, ok, raise, cancelled, is_value_error, Exception, handle}
use apparitor.Value.{Value, str, arr, obj, Items, nil, cons, Fields, get}

-- `items[i]`
abbrev pub item_at : Items → ℕ → Option Value
item_at nil i = none
item_at (cons v xs) zero = some v
item_at (cons v xs) (suc i) = item_at xs i

-- The path of the batch endpoint.
abbrev pub IsBatch : Request → Type 0
IsBatch request =
    ((rstrip_slash request.path == "/access/v1/evaluation") ≡ false)
    × ((rstrip_slash request.path == "/access/v1/evaluations") ≡ true)

-- A body that a batch is refused for, with the status: it cannot be read, it is no object, it has no
-- list of evaluations, or the list is too long.
pub data Refused : Result Value → ℕ → Type 0 where
  unreadable :
      (exc : Exception) (status : ℕ)
      → is_value_error exc ≡ true
      → status ≡ 400
      → Refused (raise exc) status
  no_object :
      (body : Value) (status : ℕ) → is_object body ≡ false → status ≡ 400 → Refused (ok body) status
  no_list :
      (body : Fields) (status : ℕ)
      → ((items : Items) → get "evaluations" body ≢ some (arr items))
      → status ≡ 400
      → Refused (ok (obj body)) status
  too_many :
      (body : Fields) (items : Items) (status : ℕ)
      → get "evaluations" body ≡ some (arr items)
      → max_batch < count items
      → status ≡ 413
      → Refused (ok (obj body)) status

module _ {W : Type 0} (host : Host W) (decide : Value → Exec W Bool) where
  -- The reply is an error, and the evaluator was not asked.
  abbrev pub RefusedWith : ℕ → Connection W → Result (Unit {0}) × Connection W → Type 0
  RefusedWith status c out =
      (text : String) × (out ≡ (
        ok tt,
        record c { sent = c.sent ++ (reply host (entry "error" (str text)) status ∷ []) },
      ))

  no_list-RefusedWith :
      (body : Fields) (o : Option Value) (c : Connection W)
      → ((items : Items) → o ≢ some (arr items))
      → RefusedWith 400 c (answer_items host decide body o c)
  unfolding send
  no_list-RefusedWith body none c n = (_, refl)
  no_list-RefusedWith body (some (arr items)) c n = absurd (n items refl)
  no_list-RefusedWith body (some _) c n = (_, refl)

  no_object-RefusedWith :
      (body : Value) (c : Connection W)
      → is_object body ≡ false
      → RefusedWith 400 c (answer_batch host decide (ok body) c)
  unfolding send
  no_object-RefusedWith (obj fs) c n = absurd (cc)
  no_object-RefusedWith _ c n = (_, refl)

  answer_batch-RefusedWith :
      (r : Result Value) (status : ℕ) (c : Connection W)
      → Refused r status
      → RefusedWith status c (answer_batch host decide r c)
  unfolding send
  answer_batch-RefusedWith r status c (unreadable exc _ e s) = (host.message exc, rw (e, s) refl)
  answer_batch-RefusedWith r status c (no_object body _ e s) = rw s (no_object-RefusedWith body c e)
  answer_batch-RefusedWith r status c (no_list body _ n s) =
      rw s (no_list-RefusedWith body (get "evaluations" body) c n)
  answer_batch-RefusedWith r status c (too_many body items _ g many s) =
      let over : ltb max_batch (count items) ≡ true = ground arith in
      ("too many evaluations", rw (s, g) (rw over refl))

  -- A batch whose body cannot be read, is no object, has no list of evaluations or one of more than a
  -- hundred, is answered by an error with status 400, or 413 for the last, and the evaluator is not
  -- asked: the world stays as it was.
  pub do_post-RefusedWith :
      (request : Request) (status : ℕ) (c : Connection W)
      → IsBatch request
      → Refused (read_body host request) status
      → RefusedWith status c (do_post host decide request c)
  unfolding do_post evaluate_batch
  do_post-RefusedWith request status c (p, q) refused =
      rw (p, q) (answer_batch-RefusedWith (read_body host request) status c refused)

  -- The evaluator allowed the request that is made of the entry and the body around it.
  abbrev pub EntryAllowed : Fields → Option Value → Type 0
  EntryAllowed body o =
      (item : Fields) × (o ≡ some (obj item))
      × (w : W) × (w' : W) × (decide (obj (merge_item item body)) w ≡ (ok true, w'))

  -- One decision for each entry, and none is true without the evaluator.
  abbrev pub Justified : Fields → Items → List Bool → Type 0
  Justified body items ds =
      (length ds ≡ count items)
      × ((i : ℕ) → get_elem? ds i ≡ some true → EntryAllowed body (item_at items i))

  handled-true : (r : Result Bool) → handle (λ exc. false) r ≡ ok true → r ≡ ok true
  handled-true (ok b) h = h
  handled-true (raise exc) h = absurd (ground (arith, h))
  handled-true cancelled h = absurd (cc)

  decide_item-EntryAllowed :
      (body : Fields) (item : Value) (w : W)
      → (decide_item host decide body item w).0 ≡ ok true
      → EntryAllowed body (some item)
  unfolding decide_item
  decide_item-EntryAllowed body (obj item) w h =
      let (r, w') = decide (obj (merge_item item body)) w in
      (item, refl, w, w', ap₂ (λ x y. (x, y)) (handled-true r h) refl)
  decide_item-EntryAllowed body _ w h = absurd (ground (arith, h))

  cons-EntryAllowed :
      (body : Fields) (item : Value) (items : Items) (d : Bool) (ds : List Bool)
      → (d ≡ true → EntryAllowed body (some item))
      → ((k : ℕ) → get_elem? ds k ≡ some true → EntryAllowed body (item_at items k))
      → (i : ℕ) → get_elem? (d ∷ ds) i ≡ some true
      → EntryAllowed body (item_at (cons item items) i)
  cons-EntryAllowed body item items d ds h j zero e = h (cc)
  cons-EntryAllowed body item items d ds h j (suc k) e = j k e

  cons-Justified :
      (body : Fields) (item : Value) (items : Items) (d : Bool) (ds : List Bool)
      → (d ≡ true → EntryAllowed body (some item))
      → Justified body items ds
      → Justified body (cons item items) (d ∷ ds)
  unfolding count
  cons-Justified body item items d ds h (l, j) =
      (ap suc l, cons-EntryAllowed body item items d ds h j)

  decide_items-Justified :
      (body : Fields) (items : Items) (w : W) (ds : List Bool)
      → (decide_items host decide body items w).0 ≡ ok ds
      → Justified body items ds
  unfolding decide_items
  decide_items-Justified body nil w [] h =
      let e : count nil ≡ 0 = unfold count in refl in (sym e, λ i e. absurd (ground (arith, e)))
  decide_items-Justified body nil w (d ∷ ds) h = absurd (ground (arith, h))
  decide_items-Justified body (cons item items) w ds h =
      let (r, w₁) = decide_item host decide body item w in
      let (d, e, h₁) = after-ok r _ w₁ h in
      let (rest, e', h₂) =
        after-ok (decide_items host decide body items w₁).0 (λ ds. pure (d ∷ ds))
          (decide_items host decide body items w₁).1 h₁ in
      let same : ds ≡ d ∷ rest = ground (arith, h₂) in
      rw same (
        cons-Justified body item items d rest
          (λ t. decide_item-EntryAllowed body item w (e ∙ ap ok t))
          (decide_items-Justified body items w₁ rest e'))

  -- The evaluator is never interrupted.
  module _ (uninterrupted : (body : Value) (w : W) → (decide body w).0 ≢ cancelled) where
    handled-ok : (r : Result Bool) → r ≢ cancelled → (d : Bool) × (handle (λ exc. false) r ≡ ok d)
    handled-ok (ok d) n = (d, refl)
    handled-ok (raise exc) n = (false, refl)
    handled-ok cancelled n = absurd (n refl)

    decide_item-ok :
        (body : Fields) (item : Value) (w : W)
        → (d : Bool) × ((decide_item host decide body item w).0 ≡ ok d)
    unfolding decide_item
    decide_item-ok body (obj item) w =
        handled-ok (decide (obj (merge_item item body)) w).0 (uninterrupted _ w)
    decide_item-ok body _ w = (false, refl)

    decide_items-ok :
        (body : Fields) (items : Items) (w : W)
        → (ds : List Bool) × ((decide_items host decide body items w).0 ≡ ok ds)
    unfolding decide_items
    decide_items-ok body nil w = ([], refl)
    decide_items-ok body (cons item items) w =
        let (d, e) = decide_item-ok body item w in
        let w₁ = (decide_item host decide body item w).1 in
        let (ds, e') = decide_items-ok body items w₁ in
        (d ∷ ds, rw (e, after) (rw (e', after) refl))

    -- A batch of at most a hundred entries is answered by one reply with status 200, which holds one
    -- decision for each entry, in the order of the entries; and a decision is true only if the entry
    -- is an object and the evaluator allowed the request that the entry and the body make.
    pub do_post-Justified :
        (request : Request) (body : Fields) (items : Items) (c : Connection W)
        → IsBatch request
        → read_body host request ≡ ok (obj body)
        → get "evaluations" body ≡ some (arr items)
        → count items ≤ max_batch
        → (ds : List Bool) × (w : W) × (do_post host decide request c ≡ (
          ok tt,
          record c { world = w; sent = c.sent ++ (reply host (evaluations ds) 200 ∷ []) },
        ))
          × Justified body items ds
    unfolding do_post evaluate_batch send
    do_post-Justified request body items c (p, q) read listed few =
        let few' : ltb max_batch (count items) ≡ false = ground arith in
        let (ds, e) = decide_items-ok body items c.world in
        (
          ds,
          (decide_items host decide body items c.world).1,
          rw (p, q) (rw read (rw (listed, few') (rw (e, after) refl))),
          decide_items-Justified body items c.world ds e,
        )
