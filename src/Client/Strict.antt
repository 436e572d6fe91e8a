-- ===== src/Client/Strict.antt =====
-- The strict JSON reader refuses exactly the texts with a duplicate key, at any depth.
use apparitor.Prelude.{
  String, ◌≡◌, ◌↔◌, refl, sym, ap, false, ◌||◌, arith, ◌==◌, eq_iff, ◌∙◌, inl, inr, Bool-cases,
}
use apparitor.Client.Json.{
  reject_duplicates, strict_value, strict_items, strict_members, strict_json,
  value_error_is_malformed,
}
use apparitor.Result.{Result, ok, raise, cancelled, ◌>>=◌, >>=-ok}
use apparitor.Runtime.{Runtime}
use apparitor.Value.{
  Value, null, bool, int, float, str, arr, obj, subject, other, Items, nil, cons, Fields, end,
  field, has, put,
}

abbrev pub Distinct : Fields → Type 0
Distinct end = Unit
Distinct (field k v fs) = (has k fs ≡ false) × Distinct fs

-- No object in the value has a key twice.
abbrev mutual
  pub HasUniqueKeys : Value → Type 0
  HasUniqueKeys (arr xs) = HaveUniqueKeys xs
  HasUniqueKeys (obj fs) = Distinct fs × MembersHaveUniqueKeys fs
  HasUniqueKeys null = Unit
  HasUniqueKeys (bool b) = Unit
  HasUniqueKeys (int z) = Unit
  HasUniqueKeys (float r) = Unit
  HasUniqueKeys (str s) = Unit
  HasUniqueKeys (subject t i p) = Unit
  HasUniqueKeys (other s) = Unit

  pub HaveUniqueKeys : Items → Type 0
  HaveUniqueKeys nil = Unit
  HaveUniqueKeys (cons v xs) = HasUniqueKeys v × HaveUniqueKeys xs

  pub MembersHaveUniqueKeys : Fields → Type 0
  MembersHaveUniqueKeys end = Unit
  MembersHaveUniqueKeys (field k v fs) = HasUniqueKeys v × MembersHaveUniqueKeys fs

abbrev append_fields : Fields → Fields → Fields
append_fields end gs = gs
append_fields (field k v fs) gs = field k v (append_fields fs gs)

-- No key of the pairs is in the dictionary.
abbrev Avoids : Fields → Fields → Type 0
Avoids d end = Unit
Avoids d (field k v ps) = (has k d ≡ false) × Avoids d ps

has-put : (k j : String) (v : Value) (d : Fields) → has j (put k v d) ≡ (k == j || has j d)
unfolding has put
has-put k j v end = refl
has-put k j v (field i w d) = ground (arith, eq_iff i k, eq_iff i j, eq_iff k j, has-put k j v d)

put-append_fields :
    (k : String) (v : Value) (d ps : Fields)
    → has k d ≡ false
    → append_fields (put k v d) ps ≡ append_fields d (field k v ps)
unfolding has put
put-append_fields k v end ps h = refl
put-append_fields k v (field i w d) ps h = ground (arith, put-append_fields k v d ps)

Avoids-put :
    (k : String) (v : Value) (d ps : Fields)
    → (Avoids (put k v d) ps) ↔ ((has k ps ≡ false) × Avoids d ps)
unfolding has
Avoids-put k v d end = (λ h. (refl, tt), λ h. tt)
Avoids-put k v d (field j w ps) =
    let (there, back) = Avoids-put k v d ps in
    (
      λ (h, rest).
          let (apart, others) = there rest in
          (
            ground (arith, has-put k j v d, eq_iff k j, eq_iff j k, h, apart),
            (ground (arith, has-put k j v d, h), others),
          ),
      λ (apart, (h, rest)). (
        ground (arith, has-put k j v d, eq_iff k j, eq_iff j k, h, apart),
        back (ground (arith, apart), rest),
      ),
    )

append_fields-end : (d : Fields) → append_fields d end ≡ d
append_fields-end end = refl
append_fields-end (field k v d) = ap (field k v) (append_fields-end d)

-- The loop over the pairs ends without an exception exactly if their keys are new and distinct, and
-- then it has appended them.
reject_duplicates-ok :
    (d ps r : Fields)
    → (reject_duplicates d ps ≡ ok r) ↔ ((r ≡ append_fields d ps) × Distinct ps × Avoids d ps)
unfolding reject_duplicates
reject_duplicates-ok d end r =
    rw append_fields-end ((λ h. (ground (arith, h), tt, tt)), (λ h. ground (arith, h.0)))
reject_duplicates-ok d (field k v ps) r =
    let (there, back) = reject_duplicates-ok (put k v d) ps r in
    let (apart, join) = Avoids-put k v d ps in
    elim (Bool-cases (has k d)) [
      | inl old ↦ rw old ((λ h. absurd (ground (arith, h))), (λ h. absurd (ground (arith, h.2.0))))
      | inr new ↦ (
        λ h.
            let (same, distinct, avoids) = there (rw new at h) in
            let (fresh, others) = apart avoids in
            (same ∙ put-append_fields k v d ps new, (fresh, distinct), (new, others)),
        λ (same, (fresh, distinct), (h, others)).
            rw new
              (back (same ∙ sym (put-append_fields k v d ps new), distinct, join (fresh, others))),
      )
    ]

Avoids-end : (ps : Fields) → Avoids end ps
unfolding has
Avoids-end end = tt
Avoids-end (field k v ps) = (refl, Avoids-end ps)

unique_object : (ps r : Fields) → (reject_duplicates end ps ≡ ok r) ↔ ((r ≡ ps) × Distinct ps)
unique_object ps r =
    let (there, back) = reject_duplicates-ok end ps r in
    (
      λ h. let (same, distinct, _) = there h in (same, distinct),
      λ (same, distinct). back (same, distinct, Avoids-end ps),
    )

mutual
  unfolding strict_value strict_items strict_members

  strict_value-ok : (v u : Value) → strict_value v ≡ ok u → (u ≡ v) × HasUniqueKeys v
  strict_value-ok (arr xs) u h =
      let (ys, read, h₁) = >>=-ok (strict_items xs) (λ zs. ok (arr zs)) h in
      let (same, unique) = strict_items-ok xs ys read in (ground (arith, same, h₁), unique)
  strict_value-ok (obj fs) u h =
      let (gs, read, h₁) =
        >>=-ok (strict_members fs) (λ gs. reject_duplicates end gs >>= λ d. ok (obj d)) h in
      let (d, checked, h₂) = >>=-ok (reject_duplicates end gs) (λ d. ok (obj d)) h₁ in
      let (same, unique) = strict_members-ok fs gs read in
      let (kept, distinct) = (unique_object gs d).0 checked in
      (ground (arith, same, kept, h₂), (rw same at distinct, unique))
  strict_value-ok v u h = (ground (arith, h), tt)

  strict_items-ok : (xs ys : Items) → strict_items xs ≡ ok ys → (ys ≡ xs) × HaveUniqueKeys xs
  strict_items-ok nil ys h = (ground (arith, h), tt)
  strict_items-ok (cons v xs) ys h =
      let (w, head, h₁) =
        >>=-ok (strict_value v) (λ w. strict_items xs >>= λ zs. ok (cons w zs)) h in
      let (zs, rest, h₂) = >>=-ok (strict_items xs) (λ zs. ok (cons w zs)) h₁ in
      let (a, p) = strict_value-ok v w head in
      let (b, q) = strict_items-ok xs zs rest in (ground (arith, a, b, h₂), (p, q))

  strict_members-ok :
      (fs gs : Fields) → strict_members fs ≡ ok gs → (gs ≡ fs) × MembersHaveUniqueKeys fs
  strict_members-ok end gs h = (ground (arith, h), tt)
  strict_members-ok (field k v fs) gs h =
      let (w, head, h₁) =
        >>=-ok (strict_value v) (λ w. strict_members fs >>= λ zs. ok (field k w zs)) h in
      let (zs, rest, h₂) = >>=-ok (strict_members fs) (λ zs. ok (field k w zs)) h₁ in
      let (a, p) = strict_value-ok v w head in
      let (b, q) = strict_members-ok fs zs rest in (ground (arith, a, b, h₂), (p, q))

mutual
  unfolding strict_value strict_items strict_members

  strict_value_of_unique : (v : Value) → HasUniqueKeys v → strict_value v ≡ ok v
  strict_value_of_unique (arr xs) u = rw (strict_items_of_unique xs u)
  strict_value_of_unique (obj fs) u =
      rw (strict_members_of_unique fs u.1, (unique_object fs fs).1 (refl, u.0))
  strict_value_of_unique v u = refl

  strict_items_of_unique : (xs : Items) → HaveUniqueKeys xs → strict_items xs ≡ ok xs
  strict_items_of_unique nil u = refl
  strict_items_of_unique (cons v xs) u =
      rw (strict_value_of_unique v u.0, strict_items_of_unique xs u.1)

  strict_members_of_unique : (fs : Fields) → MembersHaveUniqueKeys fs → strict_members fs ≡ ok fs
  strict_members_of_unique end u = refl
  strict_members_of_unique (field k v fs) u =
      rw (strict_value_of_unique v u.0, strict_members_of_unique fs u.1)

converts-ok : (r : Result Value) {u : Value} → value_error_is_malformed r ≡ ok u → r ≡ ok u
converts-ok (ok v) h = h
converts-ok (raise exc) h = absurd (ground (arith, h))
converts-ok cancelled h = absurd (ground (arith, h))

-- On a text that parses, the strict reader returns a value exactly if no object in the parsed one,
-- at any depth, has a key twice, and then it returns the parsed value itself.
pub strict_json-HasUniqueKeys :
    (rt : Runtime) (raw : String) (v u : Value)
    → rt.loads raw ≡ ok v
    → (strict_json rt raw ≡ ok u) ↔ ((u ≡ v) × HasUniqueKeys v)
unfolding strict_json
strict_json-HasUniqueKeys rt raw v u parsed = rw parsed (
  λ h. strict_value-ok v u (converts-ok (strict_value v) h),
  λ (same, unique). rw same (rw (strict_value_of_unique v unique)),
)

-- What the strict reader returns has no key twice, at any depth.
pub strict_json_unique :
    (rt : Runtime) (raw : String) (u : Value) → strict_json rt raw ≡ ok u → HasUniqueKeys u
unfolding strict_json
strict_json_unique rt raw u h =
    let (v, parsed, h₁) = >>=-ok (rt.loads raw) strict_value (converts-ok _ h) in
    let (same, unique) = strict_value-ok v u h₁ in rw same unique
