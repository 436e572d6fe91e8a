-- ===== src/Examples/Http.antt =====
-- What the services take from the standard library: `http.server` with a request and the replies to
-- it, `json`, `subprocess.run` and `tempfile`; and `_read_body` and `_send` of examples/opa/gateway.
use Prim.Native.String.{len}
use apparitor.Prelude.{
  ℕ, zero, suc, String, Bool, true, false, Option, none, some, List, [], ◌∷◌, ◌++◌, ltb,
  if◌then◌else◌,
}
use apparitor.Exec.{Exec}
use apparitor.Result.{Result, ok, Exception, value_error, raise_if, ◌>>=◌, ◌>>◌}
use apparitor.Value.Dicts.{as_dict}
use apparitor.Value.{ℤ, pos, negsuc, Value, obj, Fields, end, field, truthy}

-- How `subprocess.run` ends: with an `OSError`, with a `TimeoutExpired`, with any other exception,
-- or with the return code and the standard output of the process.
pub data Process : Type 0 where
  os_error : Process
  timed_out : Process
  failed : Exception → Process
  ended : ℤ → String → Process

pub record Host (W : Type 0) : Type 0 where
  -- int(s), for a header's text
  pub parse_int : String → Result ℤ
  -- json.loads(b), for the bytes of a body, and json.loads(s): an object has its members as they
  -- stand, duplicates too.
  pub loads_bytes : List ℕ → Result Value
  pub loads : String → Result Value
  -- json.dumps(v), which is ASCII
  pub dumps : Value → String
  -- f"{v}", for a value that is no text
  pub text_of : Value → String
  -- s.title()
  pub title : String → String
  -- str(exc)
  pub message : Exception → String
  -- subprocess.run(cmd, input=..., ...)
  pub run : List String → Option String → W → Process × W
  -- tempfile.TemporaryDirectory(), its removal, and Path.write_text below it
  pub make_directory : Exec W String
  pub remove_directory : String → Exec W (Unit {0})
  pub write_text : String → String → Exec W (Unit {0})

-- One request on a connection: the path, the header and the bytes behind the headers.
pub record Request : Type 0 where
  pub path : String
  pub content_length : Option String
  pub bytes : List ℕ

pub record Reply : Type 0 where
  pub status : ℕ
  pub content_type : String
  pub content_length : ℕ
  pub body : String

pub record Connection (W : Type 0) : Type 0 where
  pub world : W
  pub sent : List Reply

-- `_MAX_BODY_BYTES`
abbrev pub max_body_bytes : ℕ
max_body_bytes = 1_048_576

-- `self.rfile.read(n)`: fewer bytes at the end of the stream.
unfoldable pub take {ℓ} : {A : Type ℓ} → ℕ → List A → List A
take zero bs = []
take (suc n) [] = []
take (suc n) (b ∷ bs) = b ∷ take n bs

-- `... or b"{}"`
abbrev pub or_braces : List ℕ → List ℕ
or_braces [] = b'{' ∷ b'}' ∷ []
or_braces (b ∷ bs) = b ∷ bs

-- `v or {}`
abbrev pub or_empty : Value → Value
or_empty v = if truthy v then v else obj end

abbrev pub is_object : Value → Bool
is_object (obj fs) = true
is_object _ = false

abbrev pub entry : String → Value → Fields
entry k v = field k v end

module _ {W : Type 0} (host : Host W) where
  -- `int(self.headers.get("Content-Length", 0))`
  abbrev pub declared_length : Option String → Result ℤ
  declared_length none = ok (pos 0)
  declared_length (some text) = host.parse_int text

  abbrev pub parse : List ℕ → Result Value
  parse bytes = host.loads_bytes (or_braces bytes) >>= λ v. ok (as_dict v)

  abbrev pub read_at : ℤ → List ℕ → Result Value
  read_at (negsuc n) bytes = Result.raise value_error
  read_at (pos n) bytes = raise_if (ltb max_body_bytes n) value_error >> parse (take n bytes)

  unfoldable pub read_body : Request → Result Value
  unfolding take as_dict
  read_body request = declared_length request.content_length >>= λ n. read_at n request.bytes

  unfoldable pub reply : Fields → ℕ → Reply
  reply payload status = record {
    status = status;
    content_type = "application/json";
    content_length = len (host.dumps (obj payload));
    body = host.dumps (obj payload);
  }

  unfoldable pub send : Fields → ℕ → Exec (Connection W) (Unit {0})
  unfolding reply
  send payload status c = (ok tt, record c { sent = c.sent ++ (reply payload status ∷ []) })
