-- ===== src/Value/Json.antt =====
-- `_json_safe` of mapping.py, `json.loads(json.dumps(value, default=str))`: a copy in which each
-- leaf that JSON cannot hold is replaced by its text.
use mathlib.Core.Path.{ap₂}
use apparitor.Prelude.{ap, ◌≡◌, refl}
use apparitor.Runtime.{Runtime}
use apparitor.Value.{
  Value, null, bool, int, float, str, arr, obj, subject, other, Items, nil, cons, Fields, end,
  field,
}

module _ (rt : Runtime) where
  unfoldable mutual
    pub json_value : Value → Value
    json_value null = null
    json_value (bool b) = bool b
    json_value (int z) = int z
    json_value (float r) = float r
    json_value (str s) = str s
    json_value (arr xs) = arr (json_items xs)
    json_value (obj fs) = obj (json_safe fs)
    json_value (subject t i p) = str (rt.text_of (subject t i p))
    json_value (other s) = str (rt.text_of (other s))

    pub json_items : Items → Items
    json_items nil = nil
    json_items (cons v xs) = cons (json_value v) (json_items xs)

    pub json_safe : Fields → Fields
    json_safe end = end
    json_safe (field k v fs) = field k (json_value v) (json_safe fs)

-- The values that JSON can hold.
abbrev mutual
  pub IsJson : Value → Type 0
  IsJson (arr xs) = AreJson xs
  IsJson (obj fs) = IsJsonObject fs
  IsJson (subject t i p) = ⊥
  IsJson (other s) = ⊥
  IsJson null = Unit
  IsJson (bool b) = Unit
  IsJson (int z) = Unit
  IsJson (float r) = Unit
  IsJson (str s) = Unit

  pub AreJson : Items → Type 0
  AreJson nil = Unit
  AreJson (cons v xs) = IsJson v × AreJson xs

  pub IsJsonObject : Fields → Type 0
  IsJsonObject end = Unit
  IsJsonObject (field k v fs) = IsJson v × IsJsonObject fs

mutual
  unfolding json_value json_items json_safe

  json_value-IsJson : (rt : Runtime) (v : Value) → IsJson (json_value rt v)
  json_value-IsJson rt (arr xs) = json_items-AreJson rt xs
  json_value-IsJson rt (obj fs) = json_fields-IsJsonObject rt fs
  json_value-IsJson rt _ = tt

  json_items-AreJson : (rt : Runtime) (xs : Items) → AreJson (json_items rt xs)
  json_items-AreJson rt nil = tt
  json_items-AreJson rt (cons v xs) = (json_value-IsJson rt v, json_items-AreJson rt xs)

  json_fields-IsJsonObject : (rt : Runtime) (fs : Fields) → IsJsonObject (json_safe rt fs)
  json_fields-IsJsonObject rt end = tt
  json_fields-IsJsonObject rt (field k v fs) =
      (json_value-IsJson rt v, json_fields-IsJsonObject rt fs)

mutual
  unfolding json_value json_items json_safe

  json_value_of_IsJson : (rt : Runtime) (v : Value) → IsJson v → json_value rt v ≡ v
  json_value_of_IsJson rt (arr xs) h = ap arr (json_items_of_AreJson rt xs h)
  json_value_of_IsJson rt (obj fs) h = ap obj (json_safe_of_IsJson rt fs h)
  json_value_of_IsJson rt (subject t i p) h = absurd h
  json_value_of_IsJson rt (other s) h = absurd h
  json_value_of_IsJson rt _ h = refl

  json_items_of_AreJson : (rt : Runtime) (xs : Items) → AreJson xs → json_items rt xs ≡ xs
  json_items_of_AreJson rt nil h = refl
  json_items_of_AreJson rt (cons v xs) h =
      ap₂ cons (json_value_of_IsJson rt v h.0) (json_items_of_AreJson rt xs h.1)

  json_safe_of_IsJson : (rt : Runtime) (fs : Fields) → IsJsonObject fs → json_safe rt fs ≡ fs
  json_safe_of_IsJson rt end h = refl
  json_safe_of_IsJson rt (field k v fs) h =
      ap₂ (field k) (json_value_of_IsJson rt v h.0) (json_safe_of_IsJson rt fs h.1)

pub json_safe-IsJsonObject : (rt : Runtime) (fs : Fields) → IsJsonObject (json_safe rt fs)
json_safe-IsJsonObject rt fs = json_fields-IsJsonObject rt fs

-- The copy holds only what JSON can hold, and is the object itself if that did already.
pub json_safe_lem :
    (rt : Runtime) (fs : Fields)
    → IsJsonObject (json_safe rt fs) × (IsJsonObject fs → json_safe rt fs ≡ fs)
json_safe_lem rt fs = (json_safe-IsJsonObject rt fs, json_safe_of_IsJson rt fs)
