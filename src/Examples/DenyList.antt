-- ===== src/Examples/DenyList.antt =====
-- examples/mock_pdp/mock_pdp.py: which requests a list of rules denies.
use apparitor.Prelude.{
  String, ◌≡◌, ◌↔◌, ◌⊎◌, inl, inr, true, false, [], ◌∷◌, arith, ◌==◌, eq_iff, contains, concat,
  concat-injective, Bool-cases, sym,
}
use apparitor.Examples.Http.{Host}
use apparitor.Examples.MockPdp.{mem, colon_join, two_part, three_part, permits}

abbrev pub HasNoColon : String → Type 0
HasNoColon s = contains b':' s ≡ false

colon_join-injective :
    (a b a' b' : String)
    → HasNoColon a
    → HasNoColon a'
    → colon_join a b ≡ colon_join a' b'
    → (a ≡ a') × (b ≡ b')
unfolding colon_join concat
colon_join-injective a b a' b' h h' e = concat-injective ":" a b a' b' h h' e

module _ {W : Type 0} (host : Host W) where
  permits_one :
      (rule s a r : String)
      → (permits host (rule ∷ []) s a r ≡ false)
        ↔ ((rule ≡ two_part a r) ⊎ (rule ≡ three_part s a r))
  unfolding permits mem
  permits_one rule s a r = (
    λ h. elim (Bool-cases (rule == two_part a r)) [
      | inl e ↦ inl ((eq_iff rule (two_part a r)).0 e)
      | inr n ↦ elim (Bool-cases (rule == three_part s a r)) [
        | inl e ↦ inr ((eq_iff rule (three_part s a r)).0 e)
        | inr m ↦ absurd (ground (arith, h))
      ]
    ],
    λ h. elim h [
      | inl e ↦
          let t : (rule == two_part a r) ≡ true = (eq_iff rule (two_part a r)).1 e in ground arith
      | inr e ↦
          let t : (rule == three_part s a r) ≡ true = (eq_iff rule (three_part s a r)).1 e in
          ground arith
    ],
  )

  -- With no colon in a subject's id or an action's name, a rule for a subject denies the subject's
  -- request for the action on the resource, and beside it, for every subject, the request for the
  -- action that is called like the rule's subject on the resource whose id is the rest of the rule.
  pub three_part_rule :
      (s a r s' a' r' : String)
      → HasNoColon s
      → HasNoColon a
      → HasNoColon s'
      → HasNoColon a'
      → (permits host (three_part s a r ∷ []) s' a' r' ≡ false)
        ↔ (((s' ≡ s) × (a' ≡ a) × (r' ≡ r)) ⊎ ((a' ≡ s) × (r' ≡ colon_join a r)))
  unfolding two_part three_part
  three_part_rule s a r s' a' r' hs ha hs' ha' =
      let (there, back) = permits_one (three_part s a r) s' a' r' in
      (
        λ h. elim (there h) [
          | inl e ↦
              let (p, q) = colon_join-injective s (colon_join a r) a' r' hs ha' e in
              inr (sym p, sym q)
          | inr e ↦
              let (p, q) = colon_join-injective s (colon_join a r) s' (colon_join a' r') hs hs' e in
              let (p', q') = colon_join-injective a r a' r' ha ha' q in inl (sym p, sym p', sym q')
        ],
        λ h. elim h [
          | inl (p, q, t) ↦ back (inr (ground (arith, p, q, t)))
          | inr (p, q) ↦ back (inl (ground (arith, p, q)))
        ],
      )
