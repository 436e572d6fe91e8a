-- ===== src/Engine/Positions.antt =====
-- `evaluate_each` position by position: which responses a verdict of the listing stands for.
use mathlib.Core.List.{append_assoc}
use apparitor.Prelude.{
  ℕ, suc, ◌≡◌, ◌≢◌, ◌↔◌, refl, sym, ap, Bool, true, false, List, [], ◌∷◌, ◌++◌, length,
  length-append, replicate, set, eqb, All, arith, inl, inr, Bool-cases, ◌∙◌,
}
use apparitor.Decision.{Verdict, VerdictResult, allow, skip, escalate, map_single}
use apparitor.Engine.Base.{Engine, clean, wants_review}
use apparitor.Engine.Each.{
  Group, abstained, index_groups, flatten_groups, combine, fill, fill_checked,
}
use apparitor.Engine.Soundness.{Passes}
use apparitor.Models.{EvaluationRequest, EvaluationResponse, BatchEvaluationResponse}
use apparitor.Result.{Result, ok, raise, cancelled, ◌>>=◌, >>=-ok}

set-append {ℓ} :
    {A : Type ℓ} (pre : List A) (a v : A) (post : List A)
    → set (pre ++ a ∷ post) (length pre) v ≡ pre ++ v ∷ post
set-append [] a v post = refl
set-append (x ∷ pre) a v post = ap (◌∷◌ x) (set-append pre a v post)

>>=-assoc {ℓ} :
    {A B C : Type ℓ} (m : Result A) (f : A → Result B) (g : B → Result C)
    → (m >>= f >>= g) ≡ (m >>= λ a. f a >>= g)
>>=-assoc (ok a) f g = refl
>>=-assoc (raise exc) f g = refl
>>=-assoc cancelled f g = refl

-- The requests of all groups, in order.
abbrev pub flat : List Group → List EvaluationRequest
flat [] = []
flat (g ∷ gs) = g ++ flat gs

module _ {W : Type 0} (e : Engine W) where
  -- The verdicts that the responses give the groups, one group after the other.
  unfoldable pub each_verdict : List Group → List EvaluationResponse → Result (List VerdictResult)
  each_verdict [] items = ok []
  each_verdict ([] ∷ gs) items = each_verdict gs items >>= λ vs. ok (abstained ∷ vs)
  each_verdict ((r ∷ rs) ∷ gs) items = combine e (r ∷ rs) items allow >>= λ (c, rest).
      each_verdict gs rest >>= λ vs. ok (clean c ∷ vs)

  -- What the loop makes of the groups, after the verdicts `pre`.
  abbrev Fills : List Group → Type 0
  Fills gs =
      (items : List EvaluationResponse) (pre : List VerdictResult)
      → fill e (index_groups (length pre) gs) items (pre ++ replicate (length gs) abstained)
        ≡ (each_verdict gs items >>= λ vs. ok (pre ++ vs))

  fill-snoc :
      (gs : List Group) (items : List EvaluationResponse) (pre : List VerdictResult)
      (v : VerdictResult)
      → Fills gs
      → fill e
          (index_groups (suc (length pre)) gs)
          items
          (pre ++ v ∷ replicate (length gs) abstained)
        ≡ (each_verdict gs items >>= λ vs. ok (pre ++ v ∷ vs))
  fill-snoc gs items pre v fills =
      let l : length (pre ++ v ∷ []) ≡ suc (length pre) =
        omega (arith, length-append pre (v ∷ [])) in
      rw l at (simp append_assoc at (fills items (pre ++ v ∷ [])))

  fill-combined :
      (c : Result (Verdict × List EvaluationResponse)) (gs : List Group) (pre : List VerdictResult)
      → Fills gs
      → (c >>= λ (v, rest).
          fill e
            (index_groups (suc (length pre)) gs)
            rest
            (set (pre ++ abstained ∷ replicate (length gs) abstained) (length pre) (clean v)))
        ≡ (c >>= (λ (v, rest). each_verdict gs rest >>= λ vs. ok (clean v ∷ vs)) >>= λ vs.
            ok (pre ++ vs))
  fill-combined (ok (v, rest)) gs pre fills =
      rw set-append
        (fill-snoc gs rest pre (clean v) fills ∙ sym (>>=-assoc (each_verdict gs rest) _ _))
  fill-combined (raise exc) gs pre fills = refl
  fill-combined cancelled gs pre fills = refl

  -- The loop that writes at positions computes them.
  fill-each_verdict : (gs : List Group) → Fills gs
  unfolding fill index_groups each_verdict
  fill-each_verdict [] items pre = refl
  fill-each_verdict ([] ∷ gs) items pre =
      fill-snoc gs items pre abstained (fill-each_verdict gs)
      ∙ sym (>>=-assoc (each_verdict gs items) _ _)
  fill-each_verdict ((r ∷ rs) ∷ gs) items pre =
      fill-combined (combine e (r ∷ rs) items allow) gs pre (fill-each_verdict gs)

  escalate-allow :
      (c : Verdict) (d b : Bool)
      → c ≢ skip
      → ((escalate c (map_single d b) ≡ allow) ↔ ((c ≡ allow) × (d ≡ true) × (b ≡ false)))
        × (escalate c (map_single d b) ≢ skip)
  unfolding escalate map_single
  escalate-allow c d b h = ground arith

  -- The group takes as many responses as it has requests, and is allowed exactly if they all pass.
  combine-Passes :
      (g : Group) (items : List EvaluationResponse) (c v : Verdict) (rest : List EvaluationResponse)
      → c ≢ skip
      → combine e g items c ≡ ok (v, rest)
      → (xs : List EvaluationResponse) × (items ≡ xs ++ rest)
        × (length xs ≡ length g)
        × ((v ≡ allow) ↔ ((c ≡ allow) × All (Passes e) xs))
  unfolding combine
  combine-Passes [] items c v rest n h =
      ([], ground (arith, h), refl, (λ a. (ground (arith, h, a), tt), λ p. ground (arith, h, p.0)))
  combine-Passes (r ∷ rs) [] c v rest n h = absurd (ground arith)
  combine-Passes (r ∷ rs) (item ∷ items) c v rest n h =
      let (b, reviewed, h₁) = >>=-ok (wants_review e item.context) _ h in
      let (iff, n') = escalate-allow c item.decision b n in
      let (xs, split, len, all) = combine-Passes rs items _ v rest n' h₁ in
      (
        item ∷ xs,
        ap (◌∷◌ item) split,
        ap suc len,
        (
          λ a.
              let (c', every) = all.0 a in
              let (is_allow, passed, quiet) = iff.0 c' in
              (is_allow, ((passed, ground (arith, reviewed, quiet)), every)),
          λ p. all.1 (iff.1 (p.0, p.1.0.0, ground (arith, reviewed, p.1.0.1)), p.1.1),
        ),
      )

  -- Each verdict stands for the responses of its own group: an empty group is hidden, and any other
  -- is allowed exactly if all of its responses pass. The responses are used up in order.
  abbrev pub Positional : List Group → List EvaluationResponse → List VerdictResult → Type 0
  Positional [] items [] = items ≡ []
  Positional [] items (v ∷ vs) = ⊥
  Positional ([] ∷ gs) items [] = ⊥
  Positional ([] ∷ gs) items (v ∷ vs) = (v ≡ abstained) × Positional gs items vs
  Positional ((r ∷ rs) ∷ gs) items [] = ⊥
  Positional ((r ∷ rs) ∷ gs) items (v ∷ vs) =
      (xs : List EvaluationResponse) × (rest : List EvaluationResponse) × (items ≡ xs ++ rest)
      × (length xs ≡ length (r ∷ rs))
      × ((v.verdict ≡ allow) ↔ All (Passes e) xs)
      × Positional gs rest vs

  each_verdict-Positional :
      (gs : List Group) (items : List EvaluationResponse) (vs : List VerdictResult)
      → length items ≡ length (flat gs)
      → each_verdict gs items ≡ ok vs
      → Positional gs items vs
  unfolding each_verdict
  each_verdict-Positional [] [] [] l h = refl
  each_verdict-Positional [] (x ∷ items) [] l h = absurd (omega arith)
  each_verdict-Positional [] items (v ∷ vs) l h = cc
  each_verdict-Positional ([] ∷ gs) items [] l h =
      let (us, rest, h₁) = >>=-ok (each_verdict gs items) _ h in cc (h₁)
  each_verdict-Positional ([] ∷ gs) items (v ∷ vs) l h =
      let (us, rest, h₁) = >>=-ok (each_verdict gs items) _ h in
      (ground (arith, h₁), each_verdict-Positional gs items vs l (rest ∙ ground (arith, h₁)))
  each_verdict-Positional ((r ∷ rs) ∷ gs) items [] l h =
      let ((c, rest), combined, h₁) = >>=-ok (combine e (r ∷ rs) items allow) _ h in
      let (us, others, h₂) = >>=-ok (each_verdict gs rest) _ h₁ in cc (h₂)
  each_verdict-Positional ((r ∷ rs) ∷ gs) items (v ∷ vs) l h =
      let (p, combined, h₁) = >>=-ok (combine e (r ∷ rs) items allow) _ h in
      let (us, others, h₂) = >>=-ok (each_verdict gs p.1) _ h₁ in
      let (xs, split, len, iff) =
        combine-Passes (r ∷ rs) items allow p.0 p.1 (λ z. ground arith) combined in
      let head : v ≡ clean p.0 = ground (arith, h₂) in
      (
        xs,
        p.1,
        split,
        len,
        (λ a. (iff.0 (ground (arith, head, a))).1, λ q. ground (arith, head, iff.1 (refl, q))),
        each_verdict-Positional gs p.1 vs
            (omega (arith, length-append xs p.1, length-append (r ∷ rs) (flat gs), ap length split))
            (others ∙ ground (arith, h₂)),
      )

  pub Positional-length :
      (gs : List Group) (items : List EvaluationResponse) (vs : List VerdictResult)
      → Positional gs items vs
      → length vs ≡ length gs
  Positional-length [] items [] p = refl
  Positional-length [] items (v ∷ vs) p = absurd p
  Positional-length ([] ∷ gs) items [] p = absurd p
  Positional-length ([] ∷ gs) items (v ∷ vs) p = ap suc (Positional-length gs items vs p.1)
  Positional-length ((r ∷ rs) ∷ gs) items [] p = absurd p
  Positional-length ((r ∷ rs) ∷ gs) items (v ∷ vs) (xs, rest, split, len, iff, p) =
      ap suc (Positional-length gs rest vs p)

  pub flatten_groups-index_groups :
      (i : ℕ) (gs : List Group) → flatten_groups (index_groups i gs) ≡ flat gs
  unfolding flatten_groups index_groups
  flatten_groups-index_groups i [] = refl
  flatten_groups-index_groups i ([] ∷ gs) = flatten_groups-index_groups (suc i) gs
  flatten_groups-index_groups i ((r ∷ rs) ∷ gs) =
      ap (λ q. (r ∷ rs) ++ q) (flatten_groups-index_groups (suc i) gs)

  fill-Positional :
      (gs : List Group) (items : List EvaluationResponse) (vs : List VerdictResult)
      → length items ≡ length (flat gs)
      → fill e (index_groups 0 gs) items (replicate (length gs) abstained) ≡ ok vs
      → Positional gs items vs
  fill-Positional gs items vs l h =
      let (us, found, h₁) =
        >>=-ok (each_verdict gs items) _ (sym (fill-each_verdict gs items []) ∙ h) in
      each_verdict-Positional gs items vs l (found ∙ h₁)

  -- A response that the checks accept gives every group its own verdict.
  pub fill_checked-Positional :
      (gs : List Group) (response : BatchEvaluationResponse) (vs : List VerdictResult)
      → fill_checked e (index_groups 0 gs) (replicate (length gs) abstained) response ≡ ok vs
      → Positional gs response.evaluations vs
  unfolding fill_checked
  fill_checked-Positional gs response vs h =
      let n = length (flatten_groups (index_groups 0 gs)) in
      elim (Bool-cases (eqb (length response.evaluations) n)) [
        | inl same ↦
            fill-Positional gs response.evaluations vs
              (ground (arith, same, flatten_groups-index_groups 0 gs)) (rw same at h)
        | inr other ↦ absurd (ground (arith, other, h))
      ]
