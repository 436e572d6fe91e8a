-- ===== src/Cache.antt =====
-- cache.py: `DecisionCache`. The clock is an argument of each call. A time is a whole number of the
-- unit of the configuration, and a negative `pdp_ttl_s`, which counts as 0 there, is 0 here.
pub mod Bounds
pub mod History
pub mod Reads
use apparitor.Prelude.{
  ℕ, ◌+◌, String, Bool, true, not, ◌&&◌, Option, none, some, List, [], length, leb, min, max,
  if◌then◌else◌,
}
use apparitor.Dict.{lookup, insert, remove, contains_key, remove_first}

pub record DecisionCache : Type 0 where
  pub ttl : ℕ
  pub max_ttl : ℕ
  pub max_entries : ℕ
  pub entries : List (String × ℕ)

unfoldable pub init : ℕ → ℕ → ℕ → DecisionCache
init ttl max_ttl max_entries = record {
  ttl = min ttl max_ttl;
  max_ttl = max_ttl;
  max_entries = max 1 max_entries;
  entries = [];
}

-- `some true` for an ALLOW that is there and has not expired; an expired one is dropped.
unfoldable pub get : ℕ → String → DecisionCache → Option Bool × DecisionCache
get now key c = elim (lookup key c.entries) [
  | none ↦ (none, c)
  | some expiry ↦
      if leb expiry now then (none, record c { entries = remove key c.entries }) else (some true, c)
]

-- The lifetime of a new entry.
unfoldable pub effective_ttl : Option ℕ → DecisionCache → ℕ
effective_ttl none c = c.ttl
effective_ttl (some pdp_ttl) c = min pdp_ttl c.max_ttl

-- The entries after the eviction that makes room for `key`.
unfoldable pub make_room : String → DecisionCache → List (String × ℕ)
make_room key c =
    if not (contains_key key c.entries) && leb c.max_entries (length c.entries)
    then remove_first c.entries
    else c.entries

unfoldable pub set_allow : ℕ → String → Option ℕ → DecisionCache → DecisionCache
unfolding effective_ttl make_room
set_allow now key pdp_ttl c =
    let ttl = effective_ttl pdp_ttl c in
    if leb ttl 0 then c else record c { entries = insert key (now + ttl) (make_room key c) }

unfoldable pub clear : DecisionCache → DecisionCache
clear c = record c { entries = [] }
