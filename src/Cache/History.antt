-- ===== src/Cache/History.antt =====
-- The cache against its history: what a hit proves about the calls before it.
use apparitor.Prelude.{
  ℕ, ◌+◌, ◌≤◌, ◌<◌, ◌≡◌, refl, String, true, false, not, ◌&&◌, Option, none, some, List, [], ◌∷◌,
  arith, ◌==◌, leb, if◌then◌else◌, Bool-cases, Option-cases, inl, inr, ◌⊎◌,
}
use apparitor.Dict.{lookup, insert, lookup-insert, lookup-remove, lookup-remove_first}
use apparitor.Cache.{DecisionCache, init, get, set_allow, clear, make_room, effective_ttl}
use apparitor.Cache.Bounds.{IsValid, init-IsValid, get-IsValid, set_allow-IsValid, clear-IsValid}

pub data Call : Type 0 where
  gets : ℕ → String → Call
  grants : ℕ → String → Option ℕ → Call
  clears : Call

unfoldable pub step : Call → DecisionCache → DecisionCache
step (gets now k) c = (get now k c).1
step (grants now k p) c = set_allow now k p c
step clears c = clear c

-- The calls are listed newest first.
unfoldable pub run : List Call → DecisionCache → DecisionCache
run [] c = c
run (call ∷ past) c = step call (run past c)

-- What a cache without a limit and without expiry would hold at a key: the time of the last ALLOW
-- for it since the last flush, and its expiry.
unfoldable pub last_grant : DecisionCache → String → List Call → Option (ℕ × ℕ)
last_grant c k [] = none
last_grant c k (gets now j ∷ past) = last_grant c k past
last_grant c k (grants now j p ∷ past) =
    if j == k && not (leb (effective_ttl p c) 0)
    then some (now, now + effective_ttl p c)
    else last_grant c k past
last_grant c k (clears ∷ past) = none

step-IsValid : (call : Call) (c : DecisionCache) → IsValid c → IsValid (step call c)
unfolding step
step-IsValid (gets now k) c v = get-IsValid now k c v
step-IsValid (grants now k p) c v = set_allow-IsValid now k p c v
step-IsValid clears c v = clear-IsValid c v

-- Whatever the calls, a valid cache stays valid: within its limit, and with each key once.
pub run-IsValid : (past : List Call) (c : DecisionCache) → IsValid c → IsValid (run past c)
unfolding run
run-IsValid [] c v = v
run-IsValid (call ∷ past) c v = step-IsValid call (run past c) (run-IsValid past c v)

effective_ttl-step :
    (p : Option ℕ) (call : Call) (c : DecisionCache)
    → effective_ttl p (step call c) ≡ effective_ttl p c
unfolding effective_ttl step get set_allow clear
effective_ttl-step p (gets now k) c = ground arith
effective_ttl-step p (grants now k q) c = ground arith
effective_ttl-step p clears c = ground arith

effective_ttl-run :
    (p : Option ℕ) (past : List Call) (c : DecisionCache)
    → effective_ttl p (run past c) ≡ effective_ttl p c
unfolding run
effective_ttl-run p [] c = refl
effective_ttl-run p (call ∷ past) c = rw effective_ttl-step (effective_ttl-run p past c)

lookup-make_room :
    (j k : String) (c : DecisionCache) (e : ℕ)
    → IsValid c
    → lookup j (make_room k c) ≡ some e
    → lookup j c.entries ≡ some e
unfolding make_room
lookup-make_room j k c e v h = ground (arith, lookup-remove_first j c.entries {v = e} v.distinct)

pub lookup-get :
    (now : ℕ) (j k : String) (c : DecisionCache) (e : ℕ)
    → IsValid c
    → lookup j (get now k c).1.entries ≡ some e
    → lookup j c.entries ≡ some e
unfolding get
lookup-get now j k c e v h = ground (arith, lookup-remove k j c.entries v.distinct)

-- An entry after `set_allow` is the new one, or was there before.
pub lookup-set_allow :
    (now : ℕ) (j k : String) (p : Option ℕ) (c : DecisionCache) (e : ℕ)
    → IsValid c
    → lookup k (set_allow now j p c).entries ≡ some e
    → (((j == k && not (leb (effective_ttl p c) 0)) ≡ true) × (e ≡ now + effective_ttl p c))
      ⊎ (((j == k && not (leb (effective_ttl p c) 0)) ≡ false) × (lookup k c.entries ≡ some e))
unfolding set_allow
lookup-set_allow now j k p c e v h = elim (Bool-cases (leb (effective_ttl p c) 0)) [
  | inl z ↦ inr (rw z (ground arith), rw (z, set_allow) at h)
  | inr z ↦
      let h' : lookup k (insert j (now + effective_ttl p c) (make_room j c)) ≡ some e =
        rw (z, set_allow) at h in
      elim (Bool-cases (j == k)) [
        | inl q ↦
            inl (
              rw (z, q),
              ground (arith, lookup-insert j k (now + effective_ttl p c) (make_room j c)),
            )
        | inr q ↦ inr (
          rw (z, q),
          lookup-make_room k j c e v
              (ground (arith, lookup-insert j k (now + effective_ttl p c) (make_room j c))),
        )
      ]
]

-- Every entry comes from the last ALLOW for its key.
entry-last_grant :
    (past : List Call) (c : DecisionCache) (k : String) (e : ℕ)
    → IsValid c
    → c.entries ≡ []
    → lookup k (run past c).entries ≡ some e
    → (t : ℕ) × (last_grant c k past ≡ some (t, e))
unfolding run step last_grant set_allow clear lookup
entry-last_grant [] c k e v empty h = absurd (ground arith)
entry-last_grant (gets now j ∷ past) c k e v empty h =
    entry-last_grant past c k e v empty (lookup-get now k j (run past c) e (run-IsValid past c v) h)
entry-last_grant (grants now j p ∷ past) c k e v empty h =
    elim (lookup-set_allow now j k p (run past c) e (run-IsValid past c v) h) [
      | inl (fresh, at) ↦ (now, ground (arith, effective_ttl-run p past c, fresh, at))
      | inr (old, before) ↦
          let (t, known) = entry-last_grant past c k e v empty before in
          (t, ground (arith, effective_ttl-run p past c, old, known))
    ]
entry-last_grant (clears ∷ past) c k e v empty h = absurd (ground arith)

effective_ttl-le-max_ttl :
    (p : Option ℕ) (c : DecisionCache) → IsValid c → effective_ttl p c ≤ c.max_ttl
unfolding effective_ttl
effective_ttl-le-max_ttl none c v = v.clamped
effective_ttl-le-max_ttl (some t) c v = omega arith

-- An expiry is at most `max_ttl` behind the time of its ALLOW.
last_grant-le :
    (past : List Call) (c : DecisionCache) (k : String) (t e : ℕ)
    → IsValid c
    → last_grant c k past ≡ some (t, e)
    → e ≤ t + c.max_ttl
unfolding last_grant
last_grant-le [] c k t e v h = absurd (ground arith)
last_grant-le (gets now j ∷ past) c k t e v h = last_grant-le past c k t e v h
last_grant-le (grants now j p ∷ past) c k t e v h =
    ground (arith, last_grant-le past c k t e v, effective_ttl-le-max_ttl p c v)
last_grant-le (clears ∷ past) c k t e v h = absurd (ground arith)

pub get-hit :
    (now : ℕ) (k : String) (c : DecisionCache)
    → (get now k c).0 ≡ some true
    → (e : ℕ) × (lookup k c.entries ≡ some e) × (now < e)
unfolding get
get-hit now k c h = elim (Option-cases (lookup k c.entries)) [
  | inl n ↦ absurd (ground arith)
  | inr (e, s) ↦ (e, s, ground arith)
]

-- After any calls on a new cache, a hit for a key at time `now` proves that an ALLOW for that very
-- key was stored at a time `t`, after the last flush; that no later ALLOW for it replaced its
-- expiry; that `now` is before this expiry; and that the expiry is no more than `max_ttl` after `t`.
pub get-last_grant :
    (ttl max_ttl max_entries now : ℕ) (k : String) (past : List Call)
    → (get now k (run past (init ttl max_ttl max_entries))).0 ≡ some true
    → (t : ℕ) × (e : ℕ) × (last_grant (init ttl max_ttl max_entries) k past ≡ some (t, e))
      × (now < e)
      × (e ≤ t + max_ttl)
get-last_grant ttl max_ttl max_entries now k past h =
    let c = init ttl max_ttl max_entries in
    let v = init-IsValid ttl max_ttl max_entries in
    let (e, stored, fresh) = get-hit now k (run past c) h in
    let (t, known) = entry-last_grant past c k e v (unfold init in refl) stored in
    (t, e, known, fresh, unfold init in last_grant-le past c k t e v known)
