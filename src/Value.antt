-- ===== src/Value.antt =====
-- The values that pass through the program: JSON data, and the host objects that a request context
-- or a tool call may hold. A dictionary has its keys in insertion order.
pub mod Json
pub mod Dicts
use apparitor.Prelude.{
  ℕ, zero, String, ◌≡◌, refl, Bool, true, false, not, ◌||◌, Option, none, some, ◌==◌, eq_iff, arith,
  if◌then◌else◌, nonempty,
}

-- `negsuc n` is -(n + 1).
pub data ℤ : Type 0 where
  pos : ℕ → ℤ
  negsuc : ℕ → ℤ

-- `float` holds Python's `repr`, `subject` a `Subject` instance, and `other` the `str` of any other
-- object, which counts as true.
mutual
  pub data Value : Type 0 where
    null : Value
    bool : Bool → Value
    int : ℤ → Value
    float : String → Value
    str : String → Value
    arr : Items → Value
    obj : Fields → Value
    subject : String → String → Fields → Value
    other : String → Value

  pub data Items : Type 0 where
    nil : Items
    cons : Value → Items → Items

  pub data Fields : Type 0 where
    end : Fields
    field : String → Value → Fields → Fields

-- `bool(v)`
unfoldable pub truthy : Value → Bool
truthy null = false
truthy (bool b) = b
truthy (int (pos zero)) = false
truthy (int z) = true
truthy (float r) = not (r == "0.0" || r == "-0.0")
truthy (str s) = nonempty s
truthy (arr nil) = false
truthy (arr xs) = true
truthy (obj end) = false
truthy (obj fs) = true
truthy (subject t i p) = true
truthy (other s) = true

-- `d.get(k)`
unfoldable pub get : String → Fields → Option Value
get k end = none
get k (field j v fs) = if j == k then some v else get k fs

-- `d[k] = v`: a key that is there keeps its place.
unfoldable pub put : String → Value → Fields → Fields
put k v end = field k v end
put k v (field j w fs) = if j == k then field j v fs else field j w (put k v fs)

-- `k in d`
unfoldable pub has : String → Fields → Bool
has k end = false
has k (field j v fs) = j == k || has k fs

-- A value at a key, with `None` for a missing one.
abbrev pub or_null : Option Value → Value
or_null none = null
or_null (some v) = v

abbrev pub is_end : Fields → Bool
is_end end = true
is_end (field k v fs) = false

pub get-put :
    (k j : String) (v : Value) (fs : Fields)
    → get j (put k v fs) ≡ (if k == j then some v else get j fs)
unfolding get put
get-put k j v end = refl
get-put k j v (field i w fs) = ground (arith, eq_iff k j, eq_iff i k, eq_iff i j, get-put k j v fs)

pub has-get : (k : String) (fs : Fields) → has k fs ≡ false → get k fs ≡ none
unfolding get has
has-get k end h = refl
has-get k (field j v fs) h = ground (arith, has-get k fs)
