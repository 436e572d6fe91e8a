-- ===== src/Backend/Policies.antt =====
-- cedar.py: `CedarBackend.__init__` and `_validate_policies`, over the file system and the binding.
use apparitor.Prelude.{
  String, Bool, true, false, not, ◌||◌, Option, none, some, nonempty, if◌then◌else◌,
}
use apparitor.Backend.Cedar.{Cedarpy}
use apparitor.Config.{ScannerConfig}
use apparitor.Result.{
  Exception, config_error, os_error, runtime_error, Result, ok, raise, is_value_error, raise_if,
  ◌>>=◌, ◌>>◌,
}
use apparitor.Runtime.{Runtime}
use apparitor.Value.Dicts.{as_dict}
use apparitor.Value.{Value, null}

-- The files and the binding: what `read_text` returns, `format_policies`, the `validation_passed` of
-- `validate_policies`, and the engine at the policies, the entities and the schema.
pub record Binding (W : Type 0) : Type 0 where
  pub read_text : String → Result String
  pub format_policies : String → Result (Unit {0})
  pub validate_policies : String → Value → Result Bool
  pub engine : String → Value → Value → Cedarpy W

-- A path that is missing or empty counts as not given.
abbrev pub given : Option String → Bool
given none = false
given (some s) = nonempty s

abbrev path_of : Option String → String
path_of none = ""
path_of (some s) = s

-- `except (OSError, ValueError)` and `except (ValueError, RuntimeError)`
abbrev pub is_load_error : Exception → Bool
is_load_error os_error = true
is_load_error exc = is_value_error exc

abbrev pub is_policy_error : Exception → Bool
is_policy_error runtime_error = true
is_policy_error exc = is_value_error exc

abbrev pub as_config_error {ℓ} : {A : Type ℓ} → (Exception → Bool) → Result A → Result A
as_config_error caught (raise exc) = elim (caught exc) [
  | true ↦ raise config_error
  | false ↦ raise exc
]
as_config_error caught r = r

pub record Loaded : Type 0 where
  pub policies : String
  pub entities : Value
  pub schema : Value

-- `self._schema is not None`
abbrev pub is_null : Value → Bool
is_null null = true
is_null _ = false

module _ {W : Type 0} (rt : Runtime) (binding : Binding W) where
  abbrev pub load_json : String → Result Value
  load_json path = binding.read_text path >>= λ text. rt.loads text >>= λ v. ok (as_dict v)

  -- The schema is optional.
  abbrev pub load_schema : Option String → Result Value
  load_schema path = if given path then load_json (path_of path) else ok null

  -- What the `try` in the constructor reads.
  unfoldable pub read_files : ScannerConfig → Result Loaded
  unfolding as_dict
  read_files config = do
    policies ← binding.read_text (path_of config.cedar_policies_path)
    entities ← load_json (path_of config.cedar_entities_path)
    schema ← load_schema config.cedar_schema_path
    ok (record { policies = policies; entities = entities; schema = schema })

  -- With a schema the policies are validated against it, and without one they are only parsed.
  unfoldable pub validate : Loaded → Result (Unit {0})
  validate loaded =
      if is_null loaded.schema
      then as_config_error is_policy_error (binding.format_policies loaded.policies)
      else (as_config_error is_policy_error
            (binding.validate_policies loaded.policies loaded.schema)
          >>= λ passed. raise_if (not passed) config_error)

  unfoldable pub init : ScannerConfig → Result (Cedarpy W)
  unfolding read_files validate
  init config = do
    raise_if (not (given config.cedar_policies_path) || not (given config.cedar_entities_path))
        config_error
    loaded ← as_config_error is_load_error (read_files config)
    validate loaded
    ok (binding.engine loaded.policies loaded.entities loaded.schema)
