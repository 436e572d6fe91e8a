-- ===== src/Gateway/Subjects.antt =====
-- fastmcp.py: the subject that the request context of the middleware holds.
use apparitor.Prelude.{
  String, ◌≡◌, refl, Option, none, some, arith, subst, ◌∙◌, Option-cases, inl, inr,
}
use apparitor.Gateway.Requests.{
  Settings, Surroundings, map_option, put_label, with_subject, resolve_subject, request_context,
  usable,
}
use apparitor.Mapping.{mcp_server_label_key}
use apparitor.Models.{Subject}
use apparitor.Value.{Value, str, subject, Fields, get, put, get-put}

-- A context that holds the subject under "subject".
abbrev pub HoldsSubject : Subject → Fields → Type 0
HoldsSubject p ctx = get "subject" ctx ≡ some (subject p.type p.id p.properties)

-- The subject is the one that the middleware resolves around the request, and the context holds it.
abbrev pub IsResolvedIn : Settings → Surroundings → Subject → Fields → Type 0
IsResolvedIn m around p ctx =
    (resolve_subject m around.token around.ambient around.request_context ≡ some p)
    × HoldsSubject p ctx

put-HoldsSubject :
    (v : Value) (p : Subject) (ctx : Fields)
    → HoldsSubject p ctx
    → HoldsSubject p (put mcp_server_label_key v ctx)
put-HoldsSubject v p ctx h = get-put mcp_server_label_key "subject" v ctx ∙ h

put_label-HoldsSubject :
    (label server : Option String) (p : Subject) (ctx : Fields)
    → HoldsSubject p ctx
    → HoldsSubject p (put_label label server ctx)
put_label-HoldsSubject (some l) server p ctx h = put-HoldsSubject (str l) p ctx h
put_label-HoldsSubject none (some name) p ctx h =
    elim (Option-cases (get mcp_server_label_key ctx)) [
      | inl missing ↦ rw (put_label, missing) (put-HoldsSubject (str name) p ctx h)
      | inr (v, there) ↦ rw (put_label, there) h
    ]
put_label-HoldsSubject none none p ctx h = h

with_subject-HoldsSubject :
    (m : Settings) (around : Surroundings) (p : Subject)
    → HoldsSubject p (with_subject m around p).1
with_subject-HoldsSubject m around p =
    put_label-HoldsSubject m.server_label (usable around.server) p _
      (get-put "subject" "subject" (subject p.type p.id p.properties) around.request_context)

map_option-some :
    {A B : Type 0} (f : A → B) (o : Option A) (b : B)
    → map_option f o ≡ some b
    → (a : A) × (o ≡ some a) × (f a ≡ b)
map_option-some f none b h = absurd (ground (arith, h))
map_option-some f (some a) b h = (a, refl, ground (arith, h))

pub request_context-IsResolvedIn :
    (m : Settings) (around : Surroundings) (p : Subject) (ctx : Fields)
    → request_context m around ≡ some (p, ctx)
    → IsResolvedIn m around p ctx
unfolding request_context
request_context-IsResolvedIn m around p ctx h =
    let (q, resolved, made) =
      map_option-some (with_subject m around)
        (resolve_subject m around.token around.ambient around.request_context) (p, ctx) h in
    subst (λ (pair : Subject × Fields). IsResolvedIn m around pair.0 pair.1) made
      (resolved, with_subject-HoldsSubject m around q)
