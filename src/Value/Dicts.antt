-- ===== src/Value/Dicts.antt =====
-- `json.loads` without a hook, over a reader that leaves the members of an object as they stand.
use apparitor.Value.{
  Value, null, bool, int, float, str, arr, obj, subject, other, Items, nil, cons, Fields, end,
  field, put,
}

-- A dictionary keeps the last of the members with one key.
unfoldable mutual
  pub as_dict : Value → Value
  as_dict (arr xs) = arr (as_dicts xs)
  as_dict (obj fs) = obj (collect fs end)
  as_dict null = null
  as_dict (bool b) = bool b
  as_dict (int z) = int z
  as_dict (float r) = float r
  as_dict (str s) = str s
  as_dict (subject t i p) = subject t i p
  as_dict (other s) = other s

  pub as_dicts : Items → Items
  as_dicts nil = nil
  as_dicts (cons v xs) = cons (as_dict v) (as_dicts xs)

  pub collect : Fields → Fields → Fields
  collect end dict = dict
  collect (field k v fs) dict = collect fs (put k (as_dict v) dict)
