-- ===== src/Gateway/Listing.antt =====
-- fastmcp.py: what a filtered listing shows.
use apparitor.Prelude.{
  ℕ, suc, String, true, Option, none, some, List, [], ◌∷◌, map, eq_iff, ◌≡◌, refl, get_elem?, arith,
  Bool-cases, inl, inr,
}
use apparitor.Decision.{VerdictResult, is_allowed_gateway}
use apparitor.Engine.Base.{Engine, State}
use apparitor.Engine.Each.{evaluate_each}
use apparitor.Exec.{Exec, after-ok}
use apparitor.Gateway.Fastmcp.{
  Tool, name_of, is_member, allowed_names, keep, plain_call, visible_for, visible_tools, filtered,
  on_list_tools,
}
use apparitor.Gateway.Subjects.{IsResolvedIn, request_context-IsResolvedIn}
use apparitor.Gateway.Requests.{Settings, Surroundings, request_context}
use apparitor.Models.{Subject}
use apparitor.Result.{>>=-ok, Result, ok, raise, cancelled}
use apparitor.Value.{Fields}

-- A name with a clean ALLOW at its position.
abbrev pub IsAllowedAmong : List String → List VerdictResult → String → Type 0
IsAllowedAmong names vs n =
    (i : ℕ) × (v : VerdictResult) × (get_elem? names i ≡ some n)
    × (get_elem? vs i ≡ some v)
    × (is_allowed_gateway v ≡ true)

allowed_names_sound :
    (names : List String) (vs : List VerdictResult) (visible : List String) (n : String)
    → allowed_names names vs ≡ ok visible
    → is_member n visible ≡ true
    → IsAllowedAmong names vs n
unfolding allowed_names
allowed_names_sound [] [] visible n h q = absurd (ground (arith, h, q))
allowed_names_sound [] (v ∷ vs) visible n h q = absurd (ground (arith, h))
allowed_names_sound (m ∷ names) [] visible n h q = absurd (ground (arith, h))
allowed_names_sound (m ∷ names) (v ∷ vs) visible n h q =
    let (rest, others, h₁) = >>=-ok (allowed_names names vs) _ h in
    elim (Bool-cases (is_member n rest)) [
      | inl later ↦
          let (i, u, name, verdict, clean) = allowed_names_sound names vs rest n others later in
          (suc i, u, name, verdict, clean)
      | inr here ↦ elim (Bool-cases (is_allowed_gateway v)) [
        | inl clean ↦
            let same : visible ≡ m ∷ rest = ground (arith, h₁, clean) in
            let found : is_member n (m ∷ rest) ≡ true = rw same at q in
            let first : m ≡ n = ground (arith, found, here, eq_iff m n) in
            (0, v, ground (arith, first), refl, clean)
        | inr unclean ↦
            let same : visible ≡ rest = ground (arith, h₁, unclean) in
            let found : is_member n rest ≡ true = rw same at q in
            absurd (ground (arith, found, here))
      ]
    ]

keep_none : (tools : List Tool) → keep [] tools ≡ []
keep_none [] = refl
keep_none (t ∷ tools) = keep_none tools

module _ {W : Type 0} (e : Engine W) (m : Settings) (around : Surroundings) where
  -- The engine gave the name a clean ALLOW in a context that holds the subject that the middleware
  -- resolved.
  abbrev pub IsVisible : List String → State W → String → Type 0
  IsVisible names s n =
      (p : Subject) × (ctx : Fields) × (vs : List VerdictResult) × IsResolvedIn m around p ctx
      × (request_context m around ≡ some (p, ctx))
      × ((evaluate_each e (map plain_call names) ctx s).0 ≡ ok vs)
      × IsAllowedAmong names vs n

  visible_for_sound :
      (names : List String) (found : Option (Subject × Fields)) (s : State W)
      (visible : List String) (n : String)
      → request_context m around ≡ found
      → (visible_for e m around names found s).0 ≡ ok visible
      → is_member n visible ≡ true
      → IsVisible names s n
  visible_for_sound names none s visible n there h q =
      let nothing : [] ≡ visible = ground (arith, h) in absurd (ground (arith, rw (← nothing) at q))
  visible_for_sound names (some (p, ctx)) s visible n there h q =
      let (vs, judged, h₁) = after-ok (evaluate_each e (map plain_call names) ctx s).0 _ _ h in
      (
        p,
        ctx,
        vs,
        request_context-IsResolvedIn m around p ctx there,
        there,
        judged,
        allowed_names_sound names vs visible n h₁ q,
      )

  visible_tools_sound :
      (names : List String) (s : State W) (visible : List String) (n : String)
      → (visible_tools e m around names s).0 ≡ ok visible
      → is_member n visible ≡ true
      → IsVisible names s n
  unfolding visible_tools
  visible_tools_sound [] s visible n h q =
      let nothing : [] ≡ visible = ground (arith, h) in absurd (ground (arith, rw (← nothing) at q))
  visible_tools_sound (k ∷ names) s visible n h q =
      visible_for_sound (k ∷ names) (request_context m around) s visible n refl h q

  abbrev Shows : List Tool → State W → List Tool → Type 0
  Shows tools s shown =
      (visible : List String) × (shown ≡ keep visible tools)
      × ((n : String) → is_member n visible ≡ true → IsVisible (map name_of tools) s n)

  filtered-Shows :
      (tools : List Tool) (r : Result (List String)) (s s' : State W) (shown : List Tool)
      → (visible_tools e m around (map name_of tools) s).0 ≡ r
      → (filtered e m around tools r s').0 ≡ ok shown
      → Shows tools s shown
  filtered-Shows tools (ok visible) s s' shown judged h = (
    visible,
    ground (arith, h),
    λ n q. visible_tools_sound (map name_of tools) s visible n judged q,
  )
  filtered-Shows tools (raise exc) s s' shown judged h =
      ([], ground (arith, h, keep_none tools), λ n q. absurd (ground (arith, q)))
  filtered-Shows tools cancelled s s' shown judged h = absurd (ground (arith, h))

  -- A filtered listing, where it returns, shows those tools of the server's own listing that are in
  -- a set of visible names, in order, and the engine gave every name of this set a clean ALLOW in
  -- a context that holds the subject that the middleware resolved.
  pub on_list_tools-IsVisible :
      (call_next : Exec (State W) (List Tool)) (s : State W) (shown : List Tool)
      → m.filter_listings ≡ true
      → (on_list_tools e m around call_next s).0 ≡ ok shown
      → (tools : List Tool) × (visible : List String) × ((call_next s).0 ≡ ok tools)
        × (shown ≡ keep visible tools)
        × ((n : String)
            → is_member n visible ≡ true
            → IsVisible (map name_of tools) (call_next s).1 n)
  unfolding on_list_tools
  on_list_tools-IsVisible call_next s shown on h =
      let (tools, listed, h₁) = after-ok (call_next s).0 _ _ h in
      let (visible, kept, sound) =
        filtered-Shows tools (visible_tools e m around (map name_of tools) (call_next s).1).0
          (call_next s).1 _ shown refl (rw on at h₁) in
      (tools, visible, listed, kept, sound)
