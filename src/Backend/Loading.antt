-- ===== src/Backend/Loading.antt =====
-- cedar.py: what a Cedar backend that could be constructed rests on, and how its construction fails.
use apparitor.Prelude.{
  String, ◌≡◌, refl, ◌⊎◌, inl, inr, Bool, true, false, not, ◌||◌, Option, arith, Bool-cases,
}
use apparitor.Backend.Cedar.{Cedarpy}
use apparitor.Backend.Policies.{
  Binding, Loaded, given, is_null, is_load_error, is_policy_error, as_config_error, load_json,
  load_schema, read_files, validate, init,
}
use apparitor.Config.{ScannerConfig}
use apparitor.Result.{
  Exception, config_error, Result, ok, raise, cancelled, raise_if, ◌>>=◌, >>=-ok,
}
use apparitor.Runtime.{Runtime}
use apparitor.Value.{Value}

as_config_error-ok {ℓ} :
    {A : Type ℓ} (caught : Exception → Bool) (r : Result A) {a : A}
    → as_config_error caught r ≡ ok a
    → r ≡ ok a
as_config_error-ok caught (ok b) h = h
as_config_error-ok caught (raise exc) h = elim (Bool-cases (caught exc)) [
  | inl e ↦ absurd (ground (arith, rw (e, as_config_error) at h))
  | inr e ↦ absurd (ground (arith, rw (e, as_config_error) at h))
]
as_config_error-ok caught cancelled h = absurd (ground (arith, h))

pub raise_if-ok : (b : Bool) (exc : Exception) {u : Unit {0}} → raise_if b exc ≡ ok u → b ≡ false
raise_if-ok true exc h = absurd (ground (arith, h))
raise_if-ok false exc h = refl

module _ {W : Type 0} (rt : Runtime) (binding : Binding W) where
  -- The policies parse, or, with a schema, validate against it.
  abbrev pub IsChecked : Loaded → Type 0
  IsChecked loaded =
      ((is_null loaded.schema ≡ true) × (binding.format_policies loaded.policies ≡ ok tt))
      ⊎ ((is_null loaded.schema ≡ false)
          × (binding.validate_policies loaded.policies loaded.schema ≡ ok true))

  validate-IsChecked :
      (loaded : Loaded) {u : Unit {0}} → validate rt binding loaded ≡ ok u → IsChecked loaded
  unfolding validate
  validate-IsChecked loaded h = elim (Bool-cases (is_null loaded.schema)) [
    | inl e ↦ inl (
      e,
      as_config_error-ok is_policy_error (binding.format_policies loaded.policies)
          (rw (e, validate) at h),
    )
    | inr e ↦
        let (passed, checked, h₁) =
          >>=-ok
            (as_config_error is_policy_error
              (binding.validate_policies loaded.policies loaded.schema))
            (λ passed. raise_if (not passed) config_error) (rw (e, validate) at h) in
        let yes_passed : passed ≡ true = ground (arith, raise_if-ok (not passed) config_error h₁) in
        inr (
          e,
          rw yes_passed at (
              as_config_error-ok is_policy_error
                (binding.validate_policies loaded.policies loaded.schema) checked),
        )
  ]

  -- A Cedar engine is set up only if both paths are given, the files could be read, and the policies
  -- parse or, if there is a schema, validate against it; it is then the engine at these files.
  pub init-IsChecked :
      (config : ScannerConfig) (cedarpy : Cedarpy W)
      → init rt binding config ≡ ok cedarpy
      → (given config.cedar_policies_path ≡ true)
        × (given config.cedar_entities_path ≡ true)
        × (loaded : Loaded) × (read_files rt binding config ≡ ok loaded)
        × IsChecked loaded
        × (cedarpy ≡ binding.engine loaded.policies loaded.entities loaded.schema)
  unfolding init
  init-IsChecked config cedarpy h =
      let (u, guard, h₁) =
        >>=-ok
          (raise_if
            (not (given config.cedar_policies_path) || not (given config.cedar_entities_path))
            config_error)
          _ h in
      let both = raise_if-ok _ config_error guard in
      let (loaded, files, h₂) =
        >>=-ok (as_config_error is_load_error (read_files rt binding config)) _ h₁ in
      let (u', checked, h₃) = >>=-ok (validate rt binding loaded) _ h₂ in
      (
        ground (arith, both),
        ground (arith, both),
        loaded,
        as_config_error-ok is_load_error (read_files rt binding config) files,
        validate-IsChecked loaded checked,
        ground (arith, h₃),
      )

-- A call raises only exceptions that pass the test.
abbrev pub RaisesOnly {ℓ} : {A : Type ℓ} → (Exception → Bool) → Result A → Type 0
RaisesOnly caught (raise exc) = caught exc ≡ true
RaisesOnly caught r = Unit {0}

abbrev pub is_config_error : Exception → Bool
is_config_error config_error = true
is_config_error _ = false

>>=-RaisesOnly {ℓ} :
    {A B : Type ℓ} (caught : Exception → Bool) (r : Result A) (f : A → Result B)
    → RaisesOnly caught r
    → ((a : A) → RaisesOnly caught (f a))
    → RaisesOnly caught (r >>= f)
>>=-RaisesOnly caught (ok a) f h k = k a
>>=-RaisesOnly caught (raise exc) f h k = h
>>=-RaisesOnly caught cancelled f h k = tt

as_config_error-RaisesOnly {ℓ} :
    {A : Type ℓ} (caught : Exception → Bool) (r : Result A)
    → RaisesOnly caught r
    → RaisesOnly is_config_error (as_config_error caught r)
as_config_error-RaisesOnly caught (ok a) h = tt
as_config_error-RaisesOnly caught (raise exc) h = rw (h, as_config_error) refl
as_config_error-RaisesOnly caught cancelled h = tt

raise_if-RaisesOnly : (b : Bool) → RaisesOnly is_config_error (raise_if b config_error)
raise_if-RaisesOnly true = refl
raise_if-RaisesOnly false = tt

module _ {W : Type 0} (rt : Runtime) (binding : Binding W)
    (reads : (path : String) → RaisesOnly is_load_error (binding.read_text path))
    (parses : (text : String) → RaisesOnly is_load_error (rt.loads text))
    (formats : (policies : String) → RaisesOnly is_policy_error (binding.format_policies policies))
    (validates : (policies : String) (schema : Value)
      → RaisesOnly is_policy_error (binding.validate_policies policies schema)) where
  load_json-RaisesOnly : (path : String) → RaisesOnly is_load_error (load_json rt binding path)
  load_json-RaisesOnly path =
      >>=-RaisesOnly is_load_error (binding.read_text path) _ (reads path)
        (λ text. >>=-RaisesOnly is_load_error (rt.loads text) _ (parses text) (λ v. tt))

  load_schema-RaisesOnly :
      (path : Option String) → RaisesOnly is_load_error (load_schema rt binding path)
  load_schema-RaisesOnly path = elim (Bool-cases (given path)) [
    | inl e ↦ rw (e, load_schema) (load_json-RaisesOnly _)
    | inr e ↦ rw (e, load_schema) tt
  ]

  read_files-RaisesOnly :
      (config : ScannerConfig) → RaisesOnly is_load_error (read_files rt binding config)
  unfolding read_files
  read_files-RaisesOnly config =
      >>=-RaisesOnly is_load_error (binding.read_text _) _ (reads _) (λ policies.
        >>=-RaisesOnly is_load_error (load_json rt binding _) _ (load_json-RaisesOnly _)
          (λ entities.
            >>=-RaisesOnly is_load_error (load_schema rt binding config.cedar_schema_path)
              (λ schema. ok (record { policies = policies; entities = entities; schema = schema }))
              (load_schema-RaisesOnly config.cedar_schema_path) (λ schema. tt)))

  validate-RaisesOnly : (loaded : Loaded) → RaisesOnly is_config_error (validate rt binding loaded)
  unfolding validate
  validate-RaisesOnly loaded = elim (Bool-cases (is_null loaded.schema)) [
    | inl e ↦ rw e (as_config_error-RaisesOnly is_policy_error _ (formats _))
    | inr e ↦ rw e (
        >>=-RaisesOnly is_config_error _ _
          (as_config_error-RaisesOnly is_policy_error _ (validates _ _))
          (λ passed. raise_if-RaisesOnly (not passed)))
  ]

  -- If the files fail with an `OSError` or a `ValueError` only, and the binding's checks with a
  -- `ValueError` or a `RuntimeError` only, the construction fails with a configuration error only:
  -- also for policies that do not parse, and for ones that the schema does not validate.
  pub init-RaisesOnly :
      (config : ScannerConfig) → RaisesOnly is_config_error (init rt binding config)
  unfolding init
  init-RaisesOnly config = >>=-RaisesOnly is_config_error _ _ (raise_if-RaisesOnly _) (λ u.
      >>=-RaisesOnly is_config_error _ _
        (as_config_error-RaisesOnly is_load_error _ (read_files-RaisesOnly config))
        (λ loaded. >>=-RaisesOnly is_config_error _ _ (validate-RaisesOnly loaded) (λ u'. tt)))
