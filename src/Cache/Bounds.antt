-- ===== src/Cache/Bounds.antt =====
-- The invariant of the cache: what its fields promise, whatever the calls.
use apparitor.Prelude.{
  ℕ, ◌≤◌, ◌<◌, ◌+◌, ◌≡◌, String, Option, List, [], ◌∷◌, arith, length, inl, inr, Bool-cases, leb,
}
use apparitor.Dict.{
  insert, remove_first, IsDict, insert-IsDict, remove-IsDict, remove_first-IsDict, length-insert,
  length-remove-le,
}
use apparitor.Cache.{DecisionCache, init, get, set_allow, clear, make_room, effective_ttl}

pub record IsValid (c : DecisionCache) : Type 0 where
  pub room : 0 < c.max_entries
  pub bounded : length c.entries ≤ c.max_entries
  pub distinct : IsDict c.entries
  pub clamped : c.ttl ≤ c.max_ttl

pub init-IsValid : (ttl max_ttl max_entries : ℕ) → IsValid (init ttl max_ttl max_entries)
unfolding init
init-IsValid ttl max_ttl max_entries = record {
  room = omega arith;
  bounded = omega arith;
  distinct = tt;
  clamped = omega arith;
}

pub get-IsValid : (now : ℕ) (k : String) (c : DecisionCache) → IsValid c → IsValid (get now k c).1
unfolding get
get-IsValid now k c v =
    ground (arith, length-remove-le k c.entries, remove-IsDict k c.entries v.distinct)

pub make_room-IsDict : (k : String) (c : DecisionCache) → IsValid c → IsDict (make_room k c)
unfolding make_room
make_room-IsDict k c v = ground (arith, remove_first-IsDict c.entries v.distinct, v.distinct)

length-remove_first :
    (d : List (String × ℕ)) → 0 < length d → length (remove_first d) + 1 ≡ length d
length-remove_first [] h = absurd (omega arith)
length-remove_first (e ∷ d) h = omega arith

-- There is room for the key: it stands there already, or the entries are fewer than the limit.
insert-bounded :
    (k : String) (e : ℕ) (c : DecisionCache)
    → IsValid c
    → length (insert k e (make_room k c)) ≤ c.max_entries
unfolding make_room
insert-bounded k e c v = ground (
  arith,
  length-insert k e c.entries,
  length-insert k e (remove_first c.entries),
  length-remove_first c.entries,
  v.bounded,
  v.room,
)

pub set_allow-IsValid :
    (now : ℕ) (k : String) (p : Option ℕ) (c : DecisionCache)
    → IsValid c
    → IsValid (set_allow now k p c)
unfolding set_allow
set_allow-IsValid now k p c v = elim (Bool-cases (leb (effective_ttl p c) 0)) [
  | inl e ↦ rw (e, set_allow) v
  | inr e ↦
      rw (e, set_allow)
        (record {
          room = v.room;
          bounded = insert-bounded k _ c v;
          distinct = insert-IsDict k _ _ (make_room-IsDict k c v);
          clamped = v.clamped;
        })
]

pub clear-IsValid : (c : DecisionCache) → IsValid c → IsValid (clear c)
unfolding clear
clear-IsValid c v = record {
  room = v.room;
  bounded = omega arith;
  distinct = tt;
  clamped = v.clamped;
}
