-- ===== src/Models/Responses.antt =====
-- models.py: the validation of the responses, from JSON data. A member that the model does not name is
-- ignored; `decision` is a `StrictBool`, so only a Boolean will do, and it has no default.
use apparitor.Prelude.{
  ◌≡◌, refl, ◌⊎◌, inl, inr, Bool, Option, none, some, List, [], ◌∷◌, arith, subst, sym,
}
use apparitor.Prelude.Options.{◌>>=◌, >>=-some, some-injective}
use apparitor.Models.{EvaluationResponse, BatchEvaluationResponse}
use apparitor.Value.{Value, null, bool, arr, obj, Items, nil, cons, Fields, get}

abbrev strict_bool : Option Value → Option Bool
strict_bool (some (bool b)) = some b
strict_bool _ = none

-- `dict[str, Any] | None = None`
abbrev optional_dict : Option Value → Option (Option Fields)
optional_dict none = some none
optional_dict (some null) = some none
optional_dict (some (obj fs)) = some (some fs)
optional_dict _ = none

-- `EvaluationResponse.model_validate(data)`; `none` is a `ValidationError`.
unfoldable pub validate_response : Value → Option EvaluationResponse
unfolding get
validate_response (obj fs) = strict_bool (get "decision" fs) >>= λ decision.
    optional_dict (get "context" fs) >>= λ context.
    some (record { decision = decision; context = context })
validate_response _ = none

unfoldable pub validate_all : Items → Option (List EvaluationResponse)
unfolding validate_response
validate_all nil = some []
validate_all (cons v xs) = validate_response v >>= λ r. validate_all xs >>= λ rs. some (r ∷ rs)

abbrev evaluations : Option Value → Option (List EvaluationResponse)
evaluations none = some []
evaluations (some (arr xs)) = validate_all xs
evaluations _ = none

-- `BatchEvaluationResponse.model_validate(data)`
unfoldable pub validate_batch_response : Value → Option BatchEvaluationResponse
unfolding get validate_all
validate_batch_response (obj fs) =
    evaluations (get "evaluations" fs) >>= λ rs. some (record { evaluations = rs })
validate_batch_response _ = none

-- The data is an object whose member `decision` is this Boolean.
abbrev pub Reports : Value → Bool → Type 0
Reports v decision = (fs : Fields) × (v ≡ obj fs) × (get "decision" fs ≡ some (bool decision))

-- One object for each response, in their order.
abbrev pub ReportsAll : Items → List EvaluationResponse → Type 0
ReportsAll nil [] = Unit {0}
ReportsAll (cons v xs) (r ∷ rs) = Reports v r.decision × ReportsAll xs rs
ReportsAll _ _ = ⊥

-- What a batch response was read from: no evaluations, or a list of one object for each.
abbrev pub ReportsBatch : Value → BatchEvaluationResponse → Type 0
ReportsBatch v response =
    (fs : Fields) × (v ≡ obj fs)
    × (((get "evaluations" fs ≡ none) × (response.evaluations ≡ []))
        ⊎ ((xs : Items) × (get "evaluations" fs ≡ some (arr xs))
            × ReportsAll xs response.evaluations))

strict_bool-some : (o : Option Value) {b : Bool} → strict_bool o ≡ some b → o ≡ some (bool b)
strict_bool-some o h = ground (arith, h)

pub validate_response-Reports :
    (v : Value) (r : EvaluationResponse) → validate_response v ≡ some r → Reports v r.decision
unfolding validate_response
validate_response-Reports (obj fs) r h =
    let (decision, e, h₁) = >>=-some (strict_bool (get "decision" fs)) _ h in
    let (context, f, h₂) = >>=-some (optional_dict (get "context" fs)) _ h₁ in
    let same : decision ≡ r.decision = ground (arith, h₂) in
    (fs, refl, strict_bool-some (get "decision" fs) (ground (arith, e, same)))
validate_response-Reports _ r h = absurd (ground (arith, h))

validate_all-ReportsAll :
    (xs : Items) (rs : List EvaluationResponse) → validate_all xs ≡ some rs → ReportsAll xs rs
unfolding validate_all
validate_all-ReportsAll nil [] h = tt
validate_all-ReportsAll nil (r ∷ rs) h = absurd (ground (arith, h))
validate_all-ReportsAll (cons v xs) rs h =
    let (r, e, h₁) = >>=-some (validate_response v) _ h in
    let (rest, f, h₂) = >>=-some (validate_all xs) _ h₁ in
    let same : r ∷ rest ≡ rs = ground (arith, h₂) in
    subst (ReportsAll (cons v xs)) (same)
      (validate_response-Reports v r e, validate_all-ReportsAll xs rest f)

evaluations-ReportsAll :
    (o : Option Value) (rs : List EvaluationResponse)
    → evaluations o ≡ some rs
    → ((o ≡ none) × (rs ≡ [])) ⊎ ((xs : Items) × (o ≡ some (arr xs)) × ReportsAll xs rs)
evaluations-ReportsAll none rs h = inl (refl, sym (some-injective h))
evaluations-ReportsAll (some (arr xs)) rs h = inr (xs, refl, validate_all-ReportsAll xs rs h)
evaluations-ReportsAll (some _) rs h = absurd (ground (arith, h))

pub validate_batch_response-ReportsBatch :
    (v : Value) (response : BatchEvaluationResponse)
    → validate_batch_response v ≡ some response
    → ReportsBatch v response
unfolding validate_batch_response
validate_batch_response-ReportsBatch (obj fs) response h =
    let (rs, e, h₁) = >>=-some (evaluations (get "evaluations" fs)) _ h in
    let same : rs ≡ response.evaluations = ground (arith, h₁) in
    (
      fs,
      refl,
      subst
          (λ rs.
            ((get "evaluations" fs ≡ none) × (rs ≡ []))
            ⊎ ((xs : Items) × (get "evaluations" fs ≡ some (arr xs)) × ReportsAll xs rs))
          (same) (evaluations-ReportsAll (get "evaluations" fs) rs e),
    )
validate_batch_response-ReportsBatch _ response h = absurd (ground (arith, h))
