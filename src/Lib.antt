-- ===== src/Lib.antt =====
-- apparitor authorizes the tool calls of agents against a policy decision point (PDP). Adapters
-- read a tool call of a provider, a mapper turns it into evaluation requests, the engine asks a
-- decision backend for each of them and folds the responses into one verdict, and an enforcement
-- point acts on the verdict. The design is to fail closed: an error is to end in a refusal.
--
-- The parts, and where they are modelled (sources under src/apparitor):
--   errors.py: Result (an exception is its class; a call ends with a value, an exception or a
--     cancellation) and Exec (a method on a state, which stays written when the method raises);
--   __init__.py: Exports;
--   models.py: Models, with the validation of responses in Models/Responses
--     and `model_dump` of the requests in Models/Dump; config.py: Config, with the ranges of the
--     fields in Config/Validation; JSON data and `_json_safe` of mapping.py: Value, Value/Json;
--   adapters.py: Adapters, with what it refuses in Adapters/Refusals;
--   mapping.py: Mapping (`DefaultToolCallMapper.map` is `default_map`, `MCPResourceMapper` is
--     `mcp_map`), Mapping/Dual (`DualPrincipalMapper.map` is `dual_map`, `build_boundary_leg`),
--     Mapping/Keys; the context variables and their context managers in Mapping/Scopes;
--   decision.py: Decision, Decision/Gateway, Decision/Lattice, Decision/Outcomes;
--   cache.py: Cache over the association lists of Dict, with Cache/Bounds, Cache/History
--     (sequences of calls) and Cache/Reads;
--   engine.py: Engine/Base (the parts of the engine, the fault table, metrics and log),
--     Engine/Evaluate (`_evaluate_single` to `_evaluate_guarded`), Engine/Entry (the entry points
--     for one verdict), Engine/Each (`evaluate_each`), and the proofs beside them, with the causes
--     of a cancellation in Engine/Causes; two engines with different telemetry in
--     Engine/Telemetry, Engine/Indifference, Engine/Quiet, Engine/QuietEach; evaluations that
--     interleave over one cache in Engine/Interleaving. `_evaluate_x` of the source is
--     `evaluate_x` here. The state is the cache and a world of any type, on which the decision
--     service, the metrics sink, the logger and the clocks act;
--   client.py: Client/Url (`validate_pdp_url`), Client/Json (`_strict_json`, `_parse`),
--     Client/Transport (`_post`, `_backoff`), Client/Authzen (`AuthZENClient`), Client/Strict,
--     Client/Rounds, Client/Trace (the network that records what is asked of it), Client/Retries,
--     Client/Recovery and Client/Answers; the making and closing of the HTTP client in
--     Client/Lifecycle;
--   backends.py: Backend, Backend/Opa, Backend/Gather; cedar.py: Backend/Cedar,
--     Backend/CedarSafety; `CedarBackend.__init__` and `_validate_policies`: Backend/Policies,
--     Backend/Loading; the constructors and `build_backend`: Backend/Build;
--   metrics.py: Metrics, Metrics/InMemory, Metrics/Histogram;
--   fastmcp.py: Gateway (the gate, shared with a2a.py), Gateway/Requests, Gateway/Fastmcp,
--     Gateway/Subjects, Gateway/Shield, Gateway/Mcp, Gateway/Identity, Gateway/Listing; a2a.py:
--     Gateway/A2a, Gateway/Invocation;
--   scanner.py and nemo.py: Gateway/Inline, Gateway/Agreement, Gateway/Inspection; `build_engine`
--     and the constructors of all four: Gateway/Construction, Gateway/Guarded;
--   examples/opa/gateway/gateway.py and examples/cedar/gateway/gateway.py: Examples/Http and
--     Examples/Service (the handler, which both have), Examples/Opa and Examples/Cedar (the
--     evaluators), Examples/Bounds, Examples/Replies, Examples/Grounds, Examples/CedarGrounds,
--     Examples/Batches, Examples/Singles, and the client before a gateway in Examples/EndToEnd;
--   examples/mock_pdp/mock_pdp.py: Examples/MockPdp, Examples/DenyList;
--   examples/three-peps/demo.py: Examples/Lanes, Examples/Verdicts, Examples/ExitCode; the decision
--     service of examples/observability/run.py: Examples/Review, Examples/Oversight.
-- The grounds of an ALLOW for some requests, which the results below speak of, are `Granted` of
-- Engine/Soundness: there is one request, with an unexpired ALLOW in the cache; or there is one
-- request, and the decision service answers it with a response that passes; or the service answers
-- the batch of the requests with one response for each, and all of them pass. A response passes if
-- it is an allow and the review predicate does not ask for its review.
--
-- Prelude holds the names and lemmas that the parts share, Tests the runs at concrete inputs.
--
-- Runtime stands for the interpreter, its standard library and pydantic: Unicode case mapping, the
-- JSON reader and printer, `str` (which may raise on the name of a tool), SHA-256, and the dump of
-- a dictionary in a model. httpx, the event loop's clock, `asyncio.sleep` and `random.uniform` are
-- the record Network, cedarpy is the record Cedarpy; urlparse, ip_address and pydantic's
-- AnyHttpUrl are arguments. `asyncio.gather` is modelled over the outcomes of its awaitables and
-- the order in which they end. A text that has a duplicate key and also makes the reader raise is
-- refused either way; the model raises the reader's exception.
--
-- Numbers: times are natural numbers of a fixed small unit, where the source has floating-point
-- seconds. The retry loop of `_post` runs on fuel, one round for each permitted retry and the first
-- attempt: `max_retries + 1`.
--
-- The programs behind the example gateways, their directories and the bytes of a request are the
-- record Host of Examples/Http; the Cedar files and the checks of the binding are the record
-- Binding of Backend/Policies.
--
-- Not modelled: the texts of log messages and exceptions, how pydantic makes a number, an
-- enumeration or a URL of a text, that `model_dump` or `json.dumps` may raise while a cache key
-- is made, the warnings that engine.py logs for the operator (and that logging them may raise),
-- `NoopMetrics`, the sockets and command lines of the example services, the other
-- demonstrations and the rest of examples/observability/run.py (scripts that print what the
-- library returns for fixed calls), the FastMCP server that examples/three-peps/demo.py builds,
-- and the fuzz targets (drivers of a fuzzer).
pub mod Prelude
pub mod Result
pub mod Value
pub mod Models
pub mod Config
pub mod Metrics
pub mod Runtime
pub mod Adapters
pub mod Mapping
pub mod Exec
pub mod Backend
pub mod Client
pub mod Engine
pub mod Examples
pub mod Dict
pub mod Cache
pub mod Decision
pub mod Tests
pub mod Gateway
pub mod Exports
