-- ===== src/Engine/Listing.antt =====
-- `evaluate_each` as a whole.
use apparitor.Prelude.{
  ℕ, zero, suc, ◌≡◌, ◌≢◌, refl, sym, ap, List, [], ◌∷◌, length, replicate, length-replicate, set,
  All, arith, inl, inr, ◌⊎◌, ◌∙◌,
}
use apparitor.Adapters.{NormalizedToolCall}
use apparitor.Decision.{VerdictResult, allow, resolve_error}
use apparitor.Engine.Base.{Engine, State, to_batch, fault_verdict}
use apparitor.Engine.Each.{
  Group, abstained, map_groups, index_groups, flatten_groups, fill_checked, fill_fault, settle,
  evaluate_groups, decide_groups, decide_each, evaluate_each, map_fault,
}
use apparitor.Engine.Positions.{
  Positional, flat, Positional-length, flatten_groups-index_groups, fill_checked-Positional,
}
use apparitor.Mapping.{ToolCallMapper}
use apparitor.Models.{BatchEvaluationResponse}
use apparitor.Result.{Exception, Result, ok, raise, cancelled, config_error, ◌>>=◌, >>=-ok}
use apparitor.Value.{Fields}

-- Nothing is shown.
abbrev pub AllHidden : List VerdictResult → Type 0
AllHidden = All (λ v. v.verdict ≢ allow)

AllHidden-replicate : (n : ℕ) (v : VerdictResult) → v.verdict ≢ allow → AllHidden (replicate n v)
AllHidden-replicate zero v h = tt
AllHidden-replicate (suc n) v h = (h, AllHidden-replicate n v h)

AllHidden-set :
    (vs : List VerdictResult) (i : ℕ) (v : VerdictResult)
    → v.verdict ≢ allow
    → AllHidden vs
    → AllHidden (set vs i v)
AllHidden-set [] i v h a = tt
AllHidden-set (u ∷ vs) zero v h a = (h, a.1)
AllHidden-set (u ∷ vs) (suc i) v h a = (a.0, AllHidden-set vs i v h a.1)

length-set : (vs : List VerdictResult) (i : ℕ) (v : VerdictResult) → length (set vs i v) ≡ length vs
length-set [] i v = refl
length-set (u ∷ vs) zero v = refl
length-set (u ∷ vs) (suc i) v = ap suc (length-set vs i v)

map_groups-length :
    (mapper : ToolCallMapper) (calls : List NormalizedToolCall) (ctx : Fields) (gs : List Group)
    → map_groups mapper calls ctx ≡ ok gs
    → length gs ≡ length calls
unfolding map_groups
map_groups-length mapper [] ctx gs h = ground (arith, h)
map_groups-length mapper (call ∷ calls) ctx gs h =
    let (m, mapped, h₁) = >>=-ok (mapper call ctx) _ h in
    let (rest, others, h₂) = >>=-ok (map_groups mapper calls ctx) _ h₁ in
    ground (arith, h₂, map_groups-length mapper calls ctx rest others)

module _ {W : Type 0} (e : Engine W) where
  fault-hidden : (exc : Exception) → (fault_verdict e exc).verdict ≢ allow
  unfolding fault_verdict resolve_error
  fault-hidden exc = ground arith

  map_fault-hidden : (exc : Exception) → (map_fault e exc).verdict ≢ allow
  map_fault-hidden config_error = λ z. ground arith
  map_fault-hidden exc = fault-hidden exc

  fill_fault-hidden :
      (indexed : List (ℕ × Group)) (v : VerdictResult) (vs : List VerdictResult)
      → v.verdict ≢ allow
      → AllHidden vs
      → AllHidden (fill_fault e indexed v vs) × (length (fill_fault e indexed v vs) ≡ length vs)
  unfolding fill_fault
  fill_fault-hidden [] v vs h a = (a, refl)
  fill_fault-hidden ((i, g) ∷ gs) v vs h a =
      let (hidden, len) = fill_fault-hidden gs v (set vs i v) h (AllHidden-set vs i v h a) in
      (hidden, len ∙ length-set vs i v)

  -- What a list of verdicts for the groups is: as long as they are, and either all hidden, or given
  -- group by group by the service's responses.
  abbrev pub Answers : List Group → State W → List VerdictResult → Type 0
  Answers gs s vs =
      (length vs ≡ length gs)
      × (AllHidden vs
          ⊎ ((response : BatchEvaluationResponse) × ((e.client.evaluate_batch (to_batch (flat gs))
                  s.world).0
                ≡ ok response)
              × Positional e gs response.evaluations vs))

  fault-Answers :
      (gs : List Group) (exc : Exception) (s : State W)
      → Answers gs s
          (fill_fault e (index_groups 0 gs) (fault_verdict e exc) (replicate (length gs) abstained))
  fault-Answers gs exc s =
      let blank = replicate (length gs) abstained in
      let (hidden, len) =
        fill_fault-hidden (index_groups 0 gs) (fault_verdict e exc) blank (fault-hidden exc)
          (AllHidden-replicate (length gs) abstained (λ z. ground arith)) in
      (len ∙ length-replicate (length gs) abstained, inl hidden)

  module _ (gs : List Group) (s t : State W) (vs : List VerdictResult) where
    checked-Answers :
        (response : BatchEvaluationResponse) (c : Result (List VerdictResult))
        → (e.client.evaluate_batch (to_batch (flat gs)) s.world).0 ≡ ok response
        → fill_checked e (index_groups 0 gs) (replicate (length gs) abstained) response ≡ c
        → (settle e (index_groups 0 gs) (replicate (length gs) abstained) c t).0 ≡ ok vs
        → Answers gs s vs
    checked-Answers response (ok filled) asked checked h =
        let p = fill_checked-Positional e gs response vs (checked ∙ h) in
        (Positional-length e gs response.evaluations vs p, inr (response, asked, p))
    checked-Answers response (raise exc) asked checked h = ground (arith, fault-Answers gs exc s, h)
    checked-Answers response cancelled asked checked h = cc

    settle-Answers :
        (reply : Result BatchEvaluationResponse)
        → (e.client.evaluate_batch (to_batch (flat gs)) s.world).0 ≡ reply
        → (settle e
            (index_groups 0 gs)
            (replicate (length gs) abstained)
            (reply >>= fill_checked e (index_groups 0 gs) (replicate (length gs) abstained))
            t).0
          ≡ ok vs
        → Answers gs s vs
    settle-Answers (ok response) asked h = checked-Answers response _ asked refl h
    settle-Answers (raise exc) asked h = ground (arith, fault-Answers gs exc s, h)
    settle-Answers cancelled asked h = cc

  blank-Answers :
      (gs : List Group) (s : State W) (vs : List VerdictResult)
      → replicate (length gs) abstained ≡ vs
      → Answers gs s vs
  blank-Answers gs s vs h = rw (← h) (
    length-replicate (length gs) abstained,
    inl (AllHidden-replicate (length gs) abstained (λ z. ground arith)),
  )

  evaluate_groups-Answers :
      (gs : List Group) (indexed : List (ℕ × Group)) (s : State W) (vs : List VerdictResult)
      → index_groups 0 gs ≡ indexed
      → (evaluate_groups e indexed (replicate (length gs) abstained) s).0 ≡ ok vs
      → Answers gs s vs
  unfolding evaluate_groups
  evaluate_groups-Answers gs [] s vs same h = blank-Answers gs s vs (ground (arith, h))
  evaluate_groups-Answers gs (g ∷ indexed) s vs same h =
      let reply = (e.client.evaluate_batch (to_batch (flatten_groups (g ∷ indexed))) s.world).0 in
      settle-Answers gs s _ vs reply
        (ap (λ q. (e.client.evaluate_batch (to_batch q) s.world).0)
          (sym (flatten_groups-index_groups e 0 gs) ∙ ap flatten_groups same))
        (rw (← same) at h)

  decide_groups-Answers :
      (n : ℕ) (groups : Result (List Group)) (s : State W) (vs : List VerdictResult)
      → ((gs : List Group) → groups ≡ ok gs → length gs ≡ n)
      → (decide_groups e n groups s).0 ≡ ok vs
      → (length vs ≡ n)
        × (AllHidden vs
            ⊎ ((gs : List Group) × (groups ≡ ok gs)
                × (response : BatchEvaluationResponse) × ((e.client.evaluate_batch
                      (to_batch (flat gs))
                      s.world).0
                    ≡ ok response)
                × Positional e gs response.evaluations vs))
  unfolding decide_groups
  decide_groups-Answers n (ok gs) s vs len h =
      let (as_long, answers) =
        evaluate_groups-Answers gs (index_groups 0 gs) s vs refl (rw (← len gs refl) at h) in
      (
        as_long ∙ len gs refl,
        elim answers [ inl hidden ↦ inl hidden | inr (r, asked, p) ↦ inr (gs, refl, r, asked, p) ],
      )
  decide_groups-Answers n (raise exc) s vs len h =
      let all_failed : replicate n (map_fault e exc) ≡ vs = ground (arith, h) in
      rw (← all_failed)
        (length-replicate n (map_fault e exc), inl (AllHidden-replicate n _ (map_fault-hidden exc)))
  decide_groups-Answers n cancelled s vs len h = cc

  -- The verdicts of a listing, where it returns any: there is one for each call, in order. Either all
  -- of them hide, or the mapper made a group of requests for each call, the service answered all
  -- groups in one batch, and each verdict stands for its own group: an empty group hides, and another
  -- is shown exactly if every response to its requests passes.
  pub evaluate_each-Positional :
      (calls : List NormalizedToolCall) (ctx : Fields) (s : State W) (vs : List VerdictResult)
      → (evaluate_each e calls ctx s).0 ≡ ok vs
      → (length vs ≡ length calls)
        × (AllHidden vs
            ⊎ ((gs : List Group) × (map_groups (e.mapper s.world) calls ctx ≡ ok gs)
                × (response : BatchEvaluationResponse) × ((e.client.evaluate_batch
                      (to_batch (flat gs))
                      s.world).0
                    ≡ ok response)
                × Positional e gs response.evaluations vs))
  unfolding evaluate_each
  evaluate_each-Positional [] ctx s vs h =
      let none_asked : [] ≡ vs = ground (arith, h) in rw (← none_asked) (refl, inl tt)
  evaluate_each-Positional (call ∷ calls) ctx s vs h =
      decide_groups-Answers (length (call ∷ calls))
        (map_groups (e.mapper s.world) (call ∷ calls) ctx) s vs
        (λ gs. map_groups-length (e.mapper s.world) (call ∷ calls) ctx gs) (unfold decide_each in h)
