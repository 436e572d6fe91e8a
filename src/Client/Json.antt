-- ===== src/Client/Json.antt =====
-- client.py: `_strict_json`, the reader that refuses duplicate keys, and `_parse`.
use apparitor.Prelude.{String, true, false, Option, none, some}
use apparitor.Models.{EvaluationResponse, BatchEvaluationResponse}
use apparitor.Models.Responses.{validate_response, validate_batch_response}
use apparitor.Result.{Result, ok, raise, malformed, is_value_error, raise_if, ◌>>=◌, ◌>>◌}
use apparitor.Runtime.{Runtime}
use apparitor.Value.{
  Value, null, bool, int, float, str, arr, obj, subject, other, Items, nil, cons, Fields, end,
  field, has, put,
}

-- `_reject_duplicates`: the loop over the pairs, with the keys so far.
unfoldable pub reject_duplicates : Fields → Fields → Result Fields
reject_duplicates result end = ok result
reject_duplicates result (field k v pairs) = do
  raise_if (has k result) malformed
  reject_duplicates (put k v result) pairs

-- The hook is called on each object, the inner ones first.
unfoldable mutual
  pub strict_value : Value → Result Value
  strict_value (arr xs) = strict_items xs >>= λ ys. ok (arr ys)
  strict_value (obj fs) = strict_members fs >>= λ gs. reject_duplicates end gs >>= λ d. ok (obj d)
  strict_value null = ok null
  strict_value (bool b) = ok (bool b)
  strict_value (int z) = ok (int z)
  strict_value (float r) = ok (float r)
  strict_value (str s) = ok (str s)
  strict_value (subject t i p) = ok (subject t i p)
  strict_value (other s) = ok (other s)

  pub strict_items : Items → Result Items
  strict_items nil = ok nil
  strict_items (cons v xs) = strict_value v >>= λ w. strict_items xs >>= λ ys. ok (cons w ys)

  pub strict_members : Fields → Result Fields
  strict_members end = ok end
  strict_members (field k v fs) =
      strict_value v >>= λ w. strict_members fs >>= λ gs. ok (field k w gs)

-- `except ValueError as exc: raise MalformedPDPResponseError`; any other exception passes.
abbrev pub value_error_is_malformed {ℓ} : {A : Type ℓ} → Result A → Result A
value_error_is_malformed (raise exc) = elim (is_value_error exc) [
  | true ↦ raise malformed
  | false ↦ raise exc
]
value_error_is_malformed r = r

unfoldable pub strict_json : Runtime → String → Result Value
unfolding strict_value reject_duplicates
strict_json rt raw = value_error_is_malformed (rt.loads raw >>= strict_value)

-- `_parse`: a validation error is a malformed response.
abbrev pub or_malformed {ℓ} : {A : Type ℓ} → Option A → Result A
or_malformed none = raise malformed
or_malformed (some a) = ok a

unfoldable pub parse_response : Value → Result EvaluationResponse
unfolding validate_response
parse_response data' = or_malformed (validate_response data')

unfoldable pub parse_batch_response : Value → Result BatchEvaluationResponse
unfolding validate_batch_response
parse_batch_response data' = or_malformed (validate_batch_response data')
