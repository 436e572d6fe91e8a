-- ===== src/Exports.antt =====
-- __init__.py: the exports that are loaded when they are first asked for. The import of a module and
-- the look for a name in it are parameters.
use apparitor.Prelude.{
  String, ◌≡◌, refl, arith, Bool, true, false, ◌||◌, Option, none, some, List, [], ◌∷◌, ◌==◌,
  eq_iff, Bool-cases, inl, inr, subst,
}
use apparitor.Dict.{lookup}
use apparitor.Result.{Result, ok, raise, unexpected, ◌>>=◌}

-- `__all__`
abbrev pub all_names : List String
all_names =
    "__version__" ∷ "AuthZENScanner" ∷ "NeMoAuthorizationRails" ∷ "FastMCPAuthorizationMiddleware"
    ∷ "A2AAuthorizationExecutor" ∷ "ScannerConfig" ∷ "OnError" ∷ "Backend" ∷ "DecisionBackend"
    ∷ "OPABackend" ∷ "CedarBackend" ∷ "build_backend" ∷ "AuthorizationEngine" ∷ "ReviewPredicate"
    ∷ "Verdict" ∷ "VerdictResult" ∷ "VerdictStatus" ∷ "MetricsSink" ∷ "InMemoryMetrics"
    ∷ "NoopMetrics" ∷ "DEFAULT_BUCKETS" ∷ "Subject" ∷ "Action" ∷ "Resource" ∷ "EvaluationRequest"
    ∷ "EvaluationResponse" ∷ "EvaluationItem" ∷ "EvaluationsOptions" ∷ "EvaluationSemantic"
    ∷ "BatchEvaluationRequest" ∷ "BatchEvaluationResponse" ∷ "NormalizedToolCall"
    ∷ "ToolCallAdapter" ∷ "OpenAIToolCallAdapter" ∷ "AnthropicToolCallAdapter"
    ∷ "LangChainToolCallAdapter" ∷ "detect_adapter" ∷ "ToolCallMapper" ∷ "DefaultToolCallMapper"
    ∷ "DualPrincipalMapper" ∷ "MCPResourceMapper" ∷ "build_boundary_leg" ∷ "MCP_SERVER_LABEL_KEY"
    ∷ "current_subject" ∷ "current_request_context" ∷ "subject_scope" ∷ "request_context_scope"
    ∷ "mcp_resource_id" ∷ "AuthZENError" ∷ "AuthZENConfigError" ∷ "AuthZENClientError"
    ∷ "AuthZENServiceError" ∷ "PDPUnavailableError" ∷ "PDPTimeoutError"
    ∷ "MalformedPDPResponseError" ∷ "MissingDependencyError" ∷ []

-- `_LAZY_EXPORTS`
abbrev pub lazy_exports : List (String × String)
lazy_exports =
    ("AuthZENScanner", "scanner")
    ∷ ("CedarBackend", "cedar")
    ∷ ("NeMoAuthorizationRails", "nemo")
    ∷ ("FastMCPAuthorizationMiddleware", "fastmcp")
    ∷ ("A2AAuthorizationExecutor", "a2a")
    ∷ []

-- `name in names`
unfoldable pub is_name : String → List String → Bool
is_name name [] = false
is_name name (n ∷ names) = n == name || is_name name names

module _ {M A : Type 0} (import_module : String → Result M)
    (attribute : M → String → Result A) where
  abbrev pub load : String → Option String → Result A
  load name none = raise unexpected
  load name (some source) = import_module source >>= λ m. attribute m name

  -- `__getattr__`
  unfoldable pub getattr : String → Result A
  unfolding lookup
  getattr name = load name (lookup name lazy_exports)

-- Each key of a table of exports is one of the names.
abbrev AllNamed : List (String × String) → Type 0
AllNamed [] = Unit
AllNamed ((n, m) ∷ table) = (is_name n all_names ≡ true) × AllNamed table

lookup-is_name :
    (name source : String) (table : List (String × String))
    → AllNamed table
    → lookup name table ≡ some source
    → is_name name all_names ≡ true
unfolding lookup
lookup-is_name name source [] named h = absurd (ground (arith, h))
lookup-is_name name source ((n, m) ∷ table) (first, rest) h = elim (Bool-cases (n == name)) [
  | inl e ↦ subst (λ k. is_name k all_names ≡ true) ((eq_iff n name).0 e) first
  | inr e ↦ lookup-is_name name source table rest (rw (e, lookup) at h)
]

lazy_exports-AllNamed : AllNamed lazy_exports
unfolding is_name
lazy_exports-AllNamed = (refl, (refl, (refl, (refl, (refl, tt)))))

load-is_name :
    {M A : Type 0} (import_module : String → Result M) (attribute : M → String → Result A)
    (name : String) (o : Option String) (a : A)
    → lookup name lazy_exports ≡ o
    → load import_module attribute name o ≡ ok a
    → is_name name all_names ≡ true
load-is_name import_module attribute name none a found h = absurd (ground (arith, h))
load-is_name import_module attribute name (some source) a found h =
    lookup-is_name name source lazy_exports lazy_exports-AllNamed found

-- What is loaded at the first use is one of the names that the package announces.
pub getattr-is_name :
    {M A : Type 0} (import_module : String → Result M) (attribute : M → String → Result A)
    (name : String) (a : A)
    → getattr import_module attribute name ≡ ok a
    → is_name name all_names ≡ true
unfolding getattr
getattr-is_name import_module attribute name a h =
    load-is_name import_module attribute name (lookup name lazy_exports) a refl h
