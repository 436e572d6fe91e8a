-- ===== src/Backend/Gather.antt =====
-- backends.py: what `asyncio.gather` lets through, whatever the order of the answers.
use apparitor.Prelude.{
  ℕ, zero, suc, ◌≡◌, refl, ◌↔◌, Option, none, some, List, [], ◌∷◌, map, get_elem?, arith, ◌⊎◌, inl,
  inr, Bool,
}
use apparitor.Backend.Opa.{gather, itself, past, extract_decision, gather_decisions, response_of}
use apparitor.Models.{BatchEvaluationResponse}
use apparitor.Result.{Result, ok, raise, cancelled, traverse, ◌>>=◌, >>=-ok}
use apparitor.Value.{Value}

cons-ok {ℓ} :
    {A : Type ℓ} (a : A) (r : Result (List A)) {ds : List A}
    → (r >>= λ ys. ok (a ∷ ys)) ≡ ok ds
    → (ys : List A) × (r ≡ ok ys) × (ds ≡ a ∷ ys)
cons-ok a r h = let (ys, e, g) = >>=-ok r (λ ys. ok (a ∷ ys)) h in (ys, e, ground (arith, g))

traverse-itself {ℓ} :
    {A : Type ℓ} (outcomes : List (Result A)) (ds : List A)
    → (traverse itself outcomes ≡ ok ds) ↔ (outcomes ≡ map ok ds)
unfolding traverse
traverse-itself [] [] = (λ h. refl, λ h. refl)
traverse-itself [] (d ∷ ds) = (λ h. absurd (ground (arith, h)), λ h. absurd (ground (arith, h)))
traverse-itself (ok a ∷ outcomes) [] = (
  λ h. let (ys, e, g) = cons-ok a (traverse itself outcomes) h in absurd (ground (arith, g)),
  λ h. absurd (ground (arith, h)),
)
traverse-itself (ok a ∷ outcomes) (d ∷ ds) =
    let (there, back) = traverse-itself outcomes ds in
    (
      λ h.
          let (ys, e, g) = cons-ok a (traverse itself outcomes) h in
          let same : d ≡ a = ground (arith, g) in
          let same' : ds ≡ ys = ground (arith, g) in
          let e' : traverse itself outcomes ≡ ok ds = rw same' e in ground (arith, same, there e'),
      λ h.
          let rest : outcomes ≡ map ok ds = ground (arith, h) in
          let first : a ≡ d = ground (arith, h) in rw (back rest, first),
    )
traverse-itself (raise exc ∷ outcomes) [] =
    (λ h. absurd (ground (arith, h)), λ h. absurd (ground (arith, h)))
traverse-itself (raise exc ∷ outcomes) (d ∷ ds) =
    (λ h. absurd (ground (arith, h)), λ h. absurd (ground (arith, h)))
traverse-itself (cancelled ∷ outcomes) [] =
    (λ h. absurd (ground (arith, h)), λ h. absurd (ground (arith, h)))
traverse-itself (cancelled ∷ outcomes) (d ∷ ds) =
    (λ h. absurd (ground (arith, h)), λ h. absurd (ground (arith, h)))

get_elem-map {ℓ} :
    {A : Type ℓ} (ds : List A) (i : ℕ)
    → (get_elem? (map ok ds) i ≡ none) ⊎ ((a : A) × (get_elem? (map ok ds) i ≡ some (ok a)))
get_elem-map [] i = inl refl
get_elem-map (d ∷ ds) zero = inr (d, refl)
get_elem-map (d ∷ ds) (suc i) = get_elem-map ds i

past-ok {ℓ κ} :
    {A : Type ℓ} {B : Type κ} (o : Option (Result A)) (others : Result B) {b : B}
    → past o others ≡ ok b
    → others ≡ ok b
past-ok none others h = h
past-ok (some (ok a)) others h = h
past-ok (some (raise exc)) others h = absurd (ground (arith, h))
past-ok (some cancelled) others h = absurd (ground (arith, h))

-- In whatever order the queries end, all values come back, in the order of the queries, exactly if
-- no query failed.
pub gather-ok {ℓ} :
    {A : Type ℓ} (order : List ℕ) (outcomes : List (Result A)) (ds : List A)
    → (gather order outcomes ≡ ok ds) ↔ (outcomes ≡ map ok ds)
unfolding gather traverse
gather-ok [] outcomes ds = traverse-itself outcomes ds
gather-ok (i ∷ order) outcomes ds =
    let (there, back) = gather-ok order outcomes ds in
    (
      λ h. there (past-ok (get_elem? outcomes i) (gather order outcomes) h),
      λ h. elim (get_elem-map ds i) [
        | inl e ↦ let e' : get_elem? outcomes i ≡ none = rw h e in rw e' (back h)
        | inr (a, e) ↦ let e' : get_elem? outcomes i ≡ some (ok a) = rw h e in rw e' (back h)
      ],
    )

-- An answer of the Data API with the Boolean `d` as its result.
abbrev pub Decides : Bool → Value → Type 0
Decides d body = extract_decision body ≡ ok d

decisions-of :
    (bodies : List (Result Value)) (ds : List Bool)
    → map (λ r. r >>= extract_decision) bodies ≡ map ok ds
    → (values : List Value) × (bodies ≡ map ok values) × (map extract_decision values ≡ map ok ds)
decisions-of [] ds h = ([], refl, h)
decisions-of (ok v ∷ bodies) [] h = absurd (ground (arith, h))
decisions-of (ok v ∷ bodies) (d ∷ ds) h =
    let rest : map (λ r. r >>= extract_decision) bodies ≡ map ok ds = ground (arith, h) in
    let first : extract_decision v ≡ ok d = ground (arith, h) in
    let (values, p, q) = decisions-of bodies ds rest in
    (v ∷ values, ground (arith, p), ground (arith, q, first))
decisions-of (raise exc ∷ bodies) [] h = absurd (ground (arith, h))
decisions-of (raise exc ∷ bodies) (d ∷ ds) h = absurd (ground (arith, h))
decisions-of (cancelled ∷ bodies) [] h = absurd (ground (arith, h))
decisions-of (cancelled ∷ bodies) (d ∷ ds) h = absurd (ground (arith, h))

-- In whatever order the queries of a batch end: if the batch has a response then every query came
-- back with a body, every body has a Boolean "result", and the responses are these Booleans in the
-- order of the queries.
pub gather_decisions-ok :
    (bodies : List (Result Value)) (order : List ℕ) (response : BatchEvaluationResponse)
    → gather_decisions (bodies, order) ≡ ok response
    → (values : List Value) × (ds : List Bool) × (bodies ≡ map ok values)
      × (map extract_decision values ≡ map ok ds)
      × (response.evaluations ≡ map response_of ds)
unfolding gather_decisions
gather_decisions-ok bodies order response h =
    let outcomes = map (λ r. r >>= extract_decision) bodies in
    let (ds, gathered, h₁) = >>=-ok (gather order outcomes) _ h in
    let (values, p, q) = decisions-of bodies ds ((gather-ok order outcomes ds).0 gathered) in
    (values, ds, p, q, ground (arith, h₁))
