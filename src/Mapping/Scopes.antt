-- ===== src/Mapping/Scopes.antt =====
-- mapping.py: the context variables `current_subject` and `current_request_context`, and the context
-- managers that bind them for the duration of a block. The values are those of one task's context;
-- a block ends in the task in which it began, so that `reset` takes the token of that context.
use apparitor.Prelude.{
  ℕ, zero, suc, get_elem?, ◌≡◌, refl, Option, none, some, List, [], ◌∷◌, map, arith, ap, ◌∙◌,
}
use apparitor.Adapters.{NormalizedToolCall}
use apparitor.Config.{ScannerConfig}
use apparitor.Exec.{Exec}
use apparitor.Mapping.{
  Mapped, one, default_map, map_call, resolve_subject, request_scoped_subject, as_subject,
}
use apparitor.Models.{Subject, EvaluationRequest}
use apparitor.Result.{Result, ok, >>=-ok}
use apparitor.Runtime.{Runtime}
use apparitor.Value.{Fields, end, get}

-- `none` is a variable that was not set, or was reset to that: its `get` is the default, `None`.
pub record Context : Type 0 where
  pub current_subject : Option Subject
  pub current_request_context : Option Fields

-- `set` keeps what was there in the token, and `reset` puts that back, however the block ends.
unfoldable pub subject_scope : {A : Type 0} → Subject → Exec Context A → Exec Context A
subject_scope bound block s =
    let token = s.current_subject in
    let (r, s') = block (record s { current_subject = some bound }) in
    (r, record s' { current_subject = token })

unfoldable pub request_context_scope : {A : Type 0} → Fields → Exec Context A → Exec Context A
request_context_scope bound block s =
    let token = s.current_request_context in
    let (r, s') = block (record s { current_request_context = some bound }) in
    (r, record s' { current_request_context = token })

-- A request that a host handles: its subject, its context, and any code that runs for it.
pub record Job (A : Type 0) : Type 0 where
  pub principal : Subject
  pub context : Fields
  pub block : Exec Context A

abbrev pub run_job : {A : Type 0} → Job A → Exec Context A
run_job job = subject_scope job.principal (request_context_scope job.context job.block)

-- One task handles one request after the other, whatever becomes of each.
unfoldable pub serve : {A : Type 0} → List (Job A) → Context → List (Result A) × Context
unfolding subject_scope request_context_scope
serve [] s = ([], s)
serve (job ∷ jobs) s = let (r, s') = run_job job s in let (rs, s'') = serve jobs s' in (r ∷ rs, s'')

run_job_restores : {A : Type 0} (job : Job A) (s : Context) → (run_job job s).1 ≡ s
unfolding subject_scope request_context_scope
run_job_restores job s = refl

-- Requests that one task handles in the two scopes do not see one another: each ends as it would
-- alone, and the context is left as it was, whatever the code of each request does to the two
-- variables, and whether it returns, raises or is cancelled.
pub serve-run_job :
    {A : Type 0} (jobs : List (Job A)) (s : Context)
    → serve jobs s ≡ (map (λ job. (run_job job s).0) jobs, s)
unfolding serve
serve-run_job [] s = refl
serve-run_job (job ∷ jobs) s =
    let rest = serve-run_job jobs s in ap (λ (p : _). ((run_job job s).0 ∷ p.0, p.1)) rest

-- What a request's code is, where it maps one tool call of the request.
pub record MappedCall : Type 0 where
  pub principal : Subject
  pub context : Fields
  pub call : NormalizedToolCall

-- `current_request_context.get() or {}`
abbrev pub context_of : Option Fields → Fields
context_of none = end
context_of (some fs) = fs

-- The trusted subject of a request's context, or the one that is bound for the request.
abbrev pub own_subject : MappedCall → Subject
own_subject m = elim (as_subject (get "subject" m.context)) [ none ↦ m.principal | some p ↦ p ]

module _ (rt : Runtime) (config : ScannerConfig) where
  abbrev pub map_job : MappedCall → Job Mapped
  map_job m = record {
    principal = m.principal;
    context = m.context;
    block = λ s.
        (default_map rt config s.current_subject m.call (context_of s.current_request_context), s);
  }

  resolve_subject-own_subject :
      (m : MappedCall) {p : Subject}
      → resolve_subject config (some m.principal) m.context ≡ ok p
      → p ≡ own_subject m
  unfolding resolve_subject request_scoped_subject
  resolve_subject-own_subject m h = ground (arith, h)

  default_map-subject :
      (ambient : Option Subject) (call : NormalizedToolCall) (ctx : Fields) (r : EvaluationRequest)
      → default_map rt config ambient call ctx ≡ ok (one r)
      → resolve_subject config ambient ctx ≡ ok r.subject
  unfolding default_map map_call
  default_map-subject ambient call ctx r h =
      let (p, e, h₁) = >>=-ok (resolve_subject config ambient ctx) _ h in
      let same : p ≡ r.subject = ground (arith, h₁) in e ∙ ap ok same

  map_job-subject :
      (m : MappedCall) (s : Context) (r : EvaluationRequest)
      → (run_job (map_job m) s).0 ≡ ok (one r)
      → r.subject ≡ own_subject m
  unfolding subject_scope request_context_scope
  map_job-subject m s r h =
      resolve_subject-own_subject m (default_map-subject (some m.principal) m.call m.context r h)

  outcome-subject :
      (ms : List MappedCall) (s : Context) (i : ℕ) (r : EvaluationRequest)
      → get_elem? (map (λ job. (run_job job s).0) (map map_job ms)) i ≡ some (ok (one r))
      → (m : MappedCall) × (get_elem? ms i ≡ some m) × (r.subject ≡ own_subject m)
  outcome-subject [] s i r h = absurd (ground (arith, h))
  outcome-subject (m ∷ ms) s zero r h =
      let e : (run_job (map_job m) s).0 ≡ ok (one r) = ground (arith, h) in
      (m, refl, map_job-subject m s r e)
  outcome-subject (m ∷ ms) s (suc i) r h = outcome-subject ms s i r h

  -- A subject does not leak: of the requests that one task handles in the scopes, each is mapped to
  -- an evaluation request for its own subject, the trusted one of its own context or else the one
  -- that was bound for it; and behind them both variables are what they were before.
  pub serve-own_subject :
      (ms : List MappedCall) (s : Context) (i : ℕ) (r : EvaluationRequest)
      → get_elem? (serve (map map_job ms) s).0 i ≡ some (ok (one r))
      → ((m : MappedCall) × (get_elem? ms i ≡ some m) × (r.subject ≡ own_subject m))
        × ((serve (map map_job ms) s).1 ≡ s)
  serve-own_subject ms s i r h =
      let alone = serve-run_job (map map_job ms) s in
      (outcome-subject ms s i r (rw alone at h), ap (λ p. p.1) alone)
