-- ===== src/Cache/Reads.antt =====
-- What `get` answers after `set_allow`.
use text.Mathlib.TextPositions.{eq_refl}
use apparitor.Prelude.{
  ℕ, ◌+◌, ◌≡◌, ◌≢◌, refl, String, Bool, true, Option, none, some, List, [], ◌∷◌, arith, eq_iff, leb,
  if◌then◌else◌,
}
use apparitor.Dict.{lookup, remove_first, lookup-insert}
use apparitor.Cache.{DecisionCache, get, set_allow, make_room, effective_ttl}

-- The answer for an entry.
abbrev pub answer : ℕ → Option ℕ → Option Bool
answer now none = none
answer now (some expiry) = if leb expiry now then none else some true

get-answer :
    (now : ℕ) (k : String) (c : DecisionCache) → (get now k c).0 ≡ answer now (lookup k c.entries)
unfolding get
get-answer now k c = ground arith

abbrev pub oldest : List (String × ℕ) → Option String
oldest [] = none
oldest ((k, e) ∷ d) = some k

lookup-remove_first_ne :
    (j : String) (d : List (String × ℕ))
    → oldest d ≢ some j
    → lookup j (remove_first d) ≡ lookup j d
unfolding lookup
lookup-remove_first_ne j [] h = refl
lookup-remove_first_ne j ((k, e) ∷ d) h = ground (arith, eq_iff k j)

lookup-make_room_ne :
    (j k : String) (c : DecisionCache)
    → oldest c.entries ≢ some j
    → lookup j (make_room k c) ≡ lookup j c.entries
unfolding make_room
lookup-make_room_ne j k c h = ground (arith, lookup-remove_first_ne j c.entries)

-- An ALLOW stored at `now` with a positive lifetime is answered for its key exactly while the clock
-- is before `now` plus the lifetime; with a lifetime of 0 the answers for the key stay as they were.
pub get-set_allow :
    (now later : ℕ) (k : String) (p : Option ℕ) (c : DecisionCache)
    → (get later k (set_allow now k p c)).0 ≡ (
        if leb (effective_ttl p c) 0
        then (get later k c).0
        else (if leb (now + effective_ttl p c) later then none else some true))
unfolding set_allow
get-set_allow now later k p c = ground (
  arith,
  eq_refl k,
  get-answer later k (set_allow now k p c),
  get-answer later k c,
  lookup-insert k k (now + effective_ttl p c) (make_room k c),
)

-- The answers for any other key stay as they were, unless it is the oldest, which may be evicted.
pub get-set_allow_ne :
    (now later : ℕ) (j k : String) (p : Option ℕ) (c : DecisionCache)
    → j ≢ k
    → oldest c.entries ≢ some j
    → (get later j (set_allow now k p c)).0 ≡ (get later j c).0
unfolding set_allow
get-set_allow_ne now later j k p c other young = ground (
  arith,
  eq_iff k j,
  get-answer later j (set_allow now k p c),
  get-answer later j c,
  lookup-insert k j (now + effective_ttl p c) (make_room k c),
  lookup-make_room_ne j k c young,
)
