-- ===== src/Examples/CedarGrounds.antt =====
-- examples/cedar: on what grounds the evaluator returns `True`.
use apparitor.Prelude.{
  ap, ap₂, zero, suc, String, ◌≡◌, refl, Bool, true, false, none, List, [], ◌∷◌, arith, Bool-cases,
  inl, inr, concat, ◌++◌, ◌⊎◌,
}
use apparitor.Examples.Cedar
use apparitor.Examples.Cedar.{has_quote, member_of, kind_of}
use apparitor.Examples.Http.{Host, Process, os_error, timed_out, failed, ended}
use apparitor.Examples.Opa.{require_ids, part}
use apparitor.Exec.{after-ok}
use apparitor.Result.{Result, ok, raise, cancelled, value_error, raise_if, >>=-ok}
use apparitor.Value.{pos, negsuc, Value, obj, Fields, get, or_null, truthy}
use apparitor.Examples.Grounds.{HasIds, require_ids-HasMember}

pair-eq : {A B : Type 0} {p : A × B} {a : A} {b : B} → p.0 ≡ a → p.1 ≡ b → p ≡ (a, b)
pair-eq e f = ap₂ (λ x y. (x, y)) e f

no_quote : (b : Bool) {u : Unit {0}} → raise_if b value_error ≡ ok u → b ≡ false
no_quote true h = absurd (cc)
no_quote false h = refl

module _ {W : Type 0} (host : Host W) (policies entities : String) where
  entity_uid-has_quote :
      (kind identifier : Value) {uid : String}
      → Cedar.entity_uid host policies entities kind identifier ≡ ok uid
      → has_quote identifier ≡ ok false
  unfolding Cedar.entity_uid
  entity_uid-has_quote kind identifier h =
      let (quote, e, h₁) = >>=-ok (has_quote identifier) _ h in
      let (u, g, h₂) = >>=-ok (raise_if quote value_error) _ h₁ in rw e (ap ok (no_quote quote g))

  -- Neither identifier holds a double quote.
  abbrev pub Unquoted : Value → Value → Type 0
  Unquoted principal resource =
      (has_quote (member_of "id" principal) ≡ ok false)
      × (has_quote (member_of "id" resource) ≡ ok false)

  command-Unquoted :
      (principal action resource : Value) {cmd : List String}
      → Cedar.command host policies entities principal action resource ≡ ok cmd
      → Unquoted principal resource
  unfolding Cedar.command
  command-Unquoted principal action resource h =
      let uid = Cedar.entity_uid host policies entities in
      let (p, e, h₁) = >>=-ok (uid (kind_of principal "agent") (member_of "id" principal)) _ h in
      let (r, f, h₂) = >>=-ok (uid (kind_of resource "tool") (member_of "id" resource)) _ h₁ in
      (entity_uid-has_quote _ _ e, entity_uid-has_quote _ _ f)

  -- `cedar authorize` ended with return code 0.
  abbrev pub Ran : List String → W → Type 0
  Ran cmd w = (stdout : String) × (w' : W) × (host.run cmd none w ≡ (ended (pos 0) stdout, w'))

  -- It ran below a directory, with the file of a context that counts as true.
  abbrev pub RanIn : List String → Value → String → W → Type 0
  RanIn cmd context tmp w =
      ((truthy context ≡ false) × Ran cmd w)
      ⊎ ((truthy context ≡ true)
          × (w' : W) × (host.write_text (concat tmp "/context.json") (host.dumps context) w
              ≡ (ok tt, w'))
          × Ran (cmd ++ ("--context" ∷ concat tmp "/context.json" ∷ [])) w')

  cedar_judge-true :
      (process : Process)
      → Cedar.judge host policies entities process ≡ ok true
      → (stdout : String) × (process ≡ ended (pos 0) stdout)
  cedar_judge-true os_error h = absurd (ground (arith, h))
  cedar_judge-true timed_out h = absurd (ground (arith, h))
  cedar_judge-true (failed exc) h = absurd (cc)
  cedar_judge-true (ended (pos zero) stdout) h = (stdout, refl)
  cedar_judge-true (ended (pos (suc n)) stdout) h = absurd (ground (arith, h))
  cedar_judge-true (ended (negsuc n) stdout) h = absurd (ground (arith, h))

  call-Ran :
      (cmd : List String) (w : W)
      → (Cedar.call host policies entities cmd w).0 ≡ ok true
      → Ran cmd w
  call-Ran cmd w h =
      let (stdout, e) = cedar_judge-true (host.run cmd none w).0 h in
      (stdout, (host.run cmd none w).1, pair-eq e refl)

  call_in-RanIn :
      (cmd : List String) (context : Value) (tmp : String) (w : W)
      → (Cedar.call_in host policies entities cmd context tmp w).0 ≡ ok true
      → RanIn cmd context tmp w
  call_in-RanIn cmd context tmp w h = elim (Bool-cases (truthy context)) [
    | inl given ↦
        let path = concat tmp "/context.json" in
        let (r, w') = host.write_text path (host.dumps context) w in
        let (u, e, ran) =
          after-ok r (λ u. Cedar.call host policies entities (cmd ++ ("--context" ∷ path ∷ []))) w'
            (rw (given, Cedar.call_in) at h) in
        inr (given, w', pair-eq e refl, call-Ran _ w' ran)
    | inr empty ↦ inl (empty, call-Ran cmd w (rw (empty, Cedar.call_in) at h))
  ]

  in_directory-RanIn :
      (made : Result String) (cmd : List String) (context : Value) (w : W)
      → (Cedar.in_directory host policies entities made
          (Cedar.call_in host policies entities cmd context)
          w).0
        ≡ ok true
      → (tmp : String) × (made ≡ ok tmp) × RanIn cmd context tmp w
  in_directory-RanIn (ok tmp) cmd context w h =
      let (r, w₁) = Cedar.call_in host policies entities cmd context tmp w in
      let (u, e, ran) = >>=-ok (host.remove_directory tmp w₁).0 (λ u. r) h in
      (tmp, refl, call_in-RanIn cmd context tmp w ran)
  in_directory-RanIn (raise exc) cmd context w h = absurd (cc)
  in_directory-RanIn cancelled cmd context w h = absurd (cc)

  cedar_ask-RanIn :
      (context : Value) (checked : Result (List String)) (w : W)
      → (Cedar.ask host policies entities context checked w).0 ≡ ok true
      → (cmd : List String) × (checked ≡ ok cmd)
        × (tmp : String) × (w₁ : W) × (host.make_directory w ≡ (ok tmp, w₁))
        × RanIn cmd context tmp w₁
  cedar_ask-RanIn context (ok cmd) w h =
      let (made, w₁) = host.make_directory w in
      let (tmp, e, ran) = in_directory-RanIn made cmd context w₁ h in
      (cmd, refl, tmp, w₁, pair-eq e refl, ran)
  cedar_ask-RanIn context (raise exc) w h = absurd (cc)
  cedar_ask-RanIn context cancelled w h = absurd (cc)

  -- The Cedar gateway's evaluator allows a request only if it is an object whose subject, action and
  -- resource are objects with an id, a name and an id, no double quote stands in the two ids, and
  -- `cedar authorize` ended with return code 0 on the command line made of the three, with the file
  -- of the request's context, if that counts as true, below the directory that was made for it.
  pub cedar_decide-RanIn :
      (body : Value) (w : W)
      → (Cedar.decide host policies entities body w).0 ≡ ok true
      → (fs : Fields) × (body ≡ obj fs)
        × HasIds fs
        × Unquoted (part "subject" fs) (part "resource" fs)
        × (cmd : List String) × (Cedar.command host policies entities
              (part "subject" fs)
              (part "action" fs)
              (part "resource" fs)
            ≡ ok cmd)
        × (tmp : String) × (w₁ : W) × (host.make_directory w ≡ (ok tmp, w₁))
        × RanIn cmd (or_null (get "context" fs)) tmp w₁
  unfolding Cedar.decide
  cedar_decide-RanIn (obj fs) w h =
      let checked = Cedar.checked_command host policies entities fs in
      let (cmd, e, tmp, w₁, made, ran) = cedar_ask-RanIn (or_null (get "context" fs)) checked w h in
      let (u, g, built) =
        >>=-ok (require_ids (part "subject" fs) (part "action" fs) (part "resource" fs)) _ e in
      (
        fs,
        refl,
        require_ids-HasMember _ _ _ g,
        command-Unquoted (part "subject" fs) (part "action" fs) (part "resource" fs) built,
        cmd,
        built,
        tmp,
        w₁,
        made,
        ran,
      )
  cedar_decide-RanIn _ w h = absurd (ground (arith, h))
