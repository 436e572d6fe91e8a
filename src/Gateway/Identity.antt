-- ===== src/Gateway/Identity.antt =====
-- fastmcp.py and a2a.py: whom a request is evaluated for.
use apparitor.Prelude.{
  String, true, false, Option, none, some, ◌≡◌, ◌⊎◌, inl, inr, arith, strip, is_empty, Bool-cases,
  Option-cases,
}
use apparitor.Gateway.Requests.{
  Settings, AccessToken, usable, principal, token_subject, resolve_subject,
}
use apparitor.Models.{Subject}
use apparitor.Value.{Value, str, Fields, get}

-- A claim that can name a subject: a text that is not blank.
abbrev pub Names : Option Value → String → Type 0
Names v id = (v ≡ some (str id)) × (is_empty (strip id) ≡ false)

usable-some : (v : Option Value) (id : String) → usable v ≡ some id → Names v id
usable-some (some (str s)) id h = elim (Bool-cases (is_empty (strip s))) [
  | inl blank ↦ absurd (ground arith)
  | inr usable ↦ (ground arith, ground arith)
]
usable-some none id h = absurd (ground arith)
usable-some (some v) id h = absurd (ground arith)

-- The subject behind a token comes from the token alone, whatever the host provides: it has the
-- configured type and the id of the configured claim, or, if there is no such claim and workload
-- subjects are allowed, the type "workload" and the id of the client.
pub token_subject_lem :
    (m : Settings) (t : AccessToken) (ambient : Option Subject) (ctx : Fields) (p : Subject)
    → resolve_subject m (some t) ambient ctx ≡ some p
    → ((id : String) × Names (get m.subject_claim t.claims) id
        × (p ≡ principal m.subject_type t id))
      ⊎ ((id : String) × (usable (get m.subject_claim t.claims) ≡ none)
          × (m.allow_workload_subject ≡ true)
          × Names (some t.client_id) id
          × (p ≡ principal "workload" t id))
unfolding resolve_subject token_subject
token_subject_lem m t ambient ctx p h =
    elim (Option-cases (usable (get m.subject_claim t.claims))) [
      | inr (id, claimed) ↦
          inl (id, usable-some (get m.subject_claim t.claims) id claimed, ground arith)
      | inl missing ↦ elim (Option-cases (usable (some t.client_id))) [
        | inr (id, client) ↦
            inr (id, missing, ground arith, usable-some (some t.client_id) id client, ground arith)
        | inl nobody ↦ absurd (ground arith)
      ]
    ]
