-- ===== src/Dict.antt =====
-- A Python `dict` with string keys, as the list of its entries in insertion order: an assignment to
-- a key that is there keeps its place, and a new key goes to the end.
use apparitor.Prelude.{
  suc, ◌≤◌, String, ◌≡◌, refl, Bool, Option, none, some, List, [], ◌∷◌, arith, ◌==◌, eq_iff, length,
  is_some, if◌then◌else◌,
}

module _ {ℓ} {V : Type ℓ} where
  unfoldable pub lookup : String → List (String × V) → Option V
  lookup k [] = none
  lookup k ((j, v) ∷ d) = if j == k then some v else lookup k d

  unfoldable pub insert : String → V → List (String × V) → List (String × V)
  insert k v [] = (k, v) ∷ []
  insert k v ((j, w) ∷ d) = if j == k then (j, v) ∷ d else (j, w) ∷ insert k v d

  -- `del d[k]`
  unfoldable pub remove : String → List (String × V) → List (String × V)
  remove k [] = []
  remove k ((j, w) ∷ d) = if j == k then d else (j, w) ∷ remove k d

  abbrev pub contains_key : String → List (String × V) → Bool
  contains_key k d = is_some (lookup k d)

  -- `del d[next(iter(d))]`
  abbrev pub remove_first : List (String × V) → List (String × V)
  remove_first [] = []
  remove_first (e ∷ d) = d

  -- No key stands twice.
  abbrev pub IsDict : List (String × V) → Type ℓ
  IsDict [] = Unit
  IsDict ((k, v) ∷ d) = (lookup k d ≡ none) × IsDict d

  pub lookup-insert :
      (k j : String) (v : V) (d : List (String × V))
      → lookup j (insert k v d) ≡ (if k == j then some v else lookup j d)
  unfolding lookup insert
  lookup-insert k j v [] = refl
  lookup-insert k j v ((i, w) ∷ d) =
      ground (arith, eq_iff k j, eq_iff i k, eq_iff i j, lookup-insert k j v d)

  pub lookup-remove :
      (k j : String) (d : List (String × V))
      → IsDict d
      → lookup j (remove k d) ≡ (if k == j then none else lookup j d)
  unfolding lookup remove
  lookup-remove k j [] u = ground arith
  lookup-remove k j ((i, w) ∷ d) u =
      ground (arith, eq_iff k j, eq_iff i k, eq_iff i j, lookup-remove k j d)

  pub insert-IsDict :
      (k : String) (v : V) (d : List (String × V)) → IsDict d → IsDict (insert k v d)
  unfolding insert lookup
  insert-IsDict k v [] u = (refl, tt)
  insert-IsDict k v ((i, w) ∷ d) u =
      ground (arith, eq_iff i k, eq_iff k i, lookup-insert k i v d, insert-IsDict k v d)

  pub remove-IsDict : (k : String) (d : List (String × V)) → IsDict d → IsDict (remove k d)
  unfolding remove lookup
  remove-IsDict k [] u = tt
  remove-IsDict k ((i, w) ∷ d) u =
      ground (arith, eq_iff i k, eq_iff k i, lookup-remove k i d, remove-IsDict k d)

  pub remove_first-IsDict : (d : List (String × V)) → IsDict d → IsDict (remove_first d)
  remove_first-IsDict [] u = tt
  remove_first-IsDict (e ∷ d) u = u.1

  -- What is left after the oldest entry goes was there before.
  pub lookup-remove_first :
      (j : String) (d : List (String × V)) {v : V}
      → IsDict d
      → lookup j (remove_first d) ≡ some v
      → lookup j d ≡ some v
  unfolding lookup
  lookup-remove_first j [] u h = h
  lookup-remove_first j ((k, w) ∷ d) u h = ground (arith, eq_iff k j)

  pub length-insert :
      (k : String) (v : V) (d : List (String × V))
      → length (insert k v d) ≡ (if contains_key k d then length d else suc (length d))
  unfolding insert lookup
  length-insert k v [] = refl
  length-insert k v ((i, w) ∷ d) = ground (arith, length-insert k v d)

  pub length-remove-le : (k : String) (d : List (String × V)) → length (remove k d) ≤ length d
  unfolding remove
  length-remove-le k [] = omega arith
  length-remove-le k ((i, w) ∷ d) = ground (arith, length-remove-le k d)
