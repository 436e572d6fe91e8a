-- ===== src/Runtime.antt =====
-- What the modelled code takes from the interpreter, its standard library and pydantic without
-- looking inside: the Unicode tables, the JSON reader and printer, `str`, SHA-256, and the dump of
-- a dictionary in a model.
use apparitor.Prelude.{String}
use apparitor.Result.{Result}
use apparitor.Value.{Value, Fields}

pub record Runtime : Type 0 where
  -- s.lower()
  pub lower : String → String
  -- json.loads(s), with the members of an object as they stand, duplicates too: a text that is no JSON raises `value_error`; one that is nested too deeply for
  -- the interpreter raises `unexpected` (a `RecursionError`).
  pub loads : String → Result Value
  -- json.dumps(d, sort_keys=True), for data that `json_safe` has been through
  pub dumps : Fields → String
  -- json.dumps(d, sort_keys=True, separators=(",", ":"))
  pub dumps_compact : Fields → String
  -- hashlib.sha256(s.encode("utf-8")).hexdigest()
  pub sha256 : String → String
  -- what `model_dump(mode="json")` makes of a field of the type `dict[str, Any]`
  pub dump_dict : Fields → Fields
  -- s.title()
  pub title : String → String
  -- str(v) of a value that is no JSON data
  pub text_of : Value → String
  -- str(v) of the name of a tool call, which raises for what is nested too deeply and for an integer
  -- that is too long
  pub str_of : Value → Result String
