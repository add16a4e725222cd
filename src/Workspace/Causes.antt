-- ===== src/Workspace/Causes.antt =====
-- frontend/app/app/page.tsx:
-- What the page's claim of an intact chain rests on.
use blackbox_agent_accountab.Prelude.{
  ◌≡◌, ◌≢◌, ◌⊎◌, refl, inl, inr, String, Bool, true, false, Option, none, some, [], Result, ok,
  or_else, truthy, not, ◌===◌, ◌==◌, ◌||◌, ◌+◌, same, List,
}
use blackbox_agent_accountab.Runtime.{World, Reach}
use blackbox_agent_accountab.Runtime.Cause.{
  Happened, Awaits, Awaits-only_if, Awaits-with_token, Awaits-then_do, cause,
}
use blackbox_agent_accountab.Workspace.{
  Page, Handler, Req, Reply, Recorded, verify, page_size, load_sessions, load_session,
  audit_session, seed_demo, open_evidence, download_evidence_pdf, got_events, verified,
}
use blackbox_agent_accountab.Workspace.Events.{
  Event, session, type_search, type_session_id, debounce_fires, click_load, click_session,
  click_more, click_audit, click_seed, click_evidence, click_pdf, confirm_expires, fire_typed,
  handle,
}

-- A call of the verification that answers that the chain is intact.
abbrev pub VerifiedIntact : (q : Req) → Result (Reply q) → Type 0
VerifiedIntact (verify t id) x = x ≡ ok true
VerifiedIntact _ x = ⊥

abbrev NotIntact : Page → Type 0
NotIntact s = s.chain ≢ some true

abbrev Careful : Handler → Type 0
Careful p = Awaits VerifiedIntact NotIntact p

load_sessions-Awaits : (s : Page) → Careful (load_sessions s)
unfolding load_sessions
load_sessions-Awaits s =
    Awaits-with_token VerifiedIntact NotIntact s.token _
      λ t. elim [ ok rows ↦ inr (λ v h. h, tt) | Result.err e ↦ inr (λ v h. h, tt) ]

false_is_not_true : some false ≢ some true
false_is_not_true e = cc

verified-Awaits :
    (t id : String) (x : Result Bool) → VerifiedIntact (verify t id) x ⊎ Careful (verified x)
verified-Awaits t id (ok true) = inl refl
verified-Awaits t id (ok false) = inr (λ v h. false_is_not_true, (λ v h. h, tt))
verified-Awaits t id (Result.err e) = inr (λ v h. h, (λ v h. h, tt))

got_events-Awaits : (t id : String) (x : Result (List Recorded)) → Careful (got_events t id x)
got_events-Awaits t id (ok es) = (λ v h. h, verified-Awaits t id)
got_events-Awaits t id (Result.err e) = (λ v h. h, (λ v h. h, tt))

load_session-Awaits : (sid : Option String) (s : Page) → Careful (load_session sid s)
unfolding load_session
load_session-Awaits sid s = Awaits-with_token VerifiedIntact NotIntact s.token _ λ t.
    Awaits-only_if VerifiedIntact NotIntact (truthy (or_else sid s.session_id)) _
      (λ v h. h, λ x. inr (got_events-Awaits t (or_else sid s.session_id) x))

audit_session-Awaits : (s : Page) → Careful (audit_session s)
unfolding audit_session
audit_session-Awaits s = Awaits-with_token VerifiedIntact NotIntact s.token _ λ t.
    Awaits-only_if VerifiedIntact NotIntact (truthy s.session_id) _ (
      λ v h. h,
      elim [
        | ok vs ↦ inr (λ v h. h, (λ v h. h, tt))
        | Result.err e ↦ inr (λ v h. h, (λ v h. h, tt))
      ],
    )

seed_demo-Awaits : (s : Page) → Careful (seed_demo s)
unfolding seed_demo
seed_demo-Awaits s = Awaits-with_token VerifiedIntact NotIntact s.token _ λ t. (
  λ v h. h,
  elim [
    | ok id ↦ inr (
        Awaits-then_do VerifiedIntact NotIntact (load_sessions s) _ (load_sessions-Awaits s) (
          Awaits-then_do VerifiedIntact NotIntact (load_session (some id) s) _
            (load_session-Awaits (some id) s) (λ v h. h, tt)))
    | Result.err e ↦ inr (λ v h. h, (λ v h. h, tt))
  ],
)

open_evidence-Awaits : (s : Page) → Careful (open_evidence s)
unfolding open_evidence
open_evidence-Awaits s = Awaits-with_token VerifiedIntact NotIntact s.token _ λ t.
    Awaits-only_if VerifiedIntact NotIntact (truthy s.session_id) _
      (elim [ ok html ↦ inr (λ v h. h, tt) | Result.err e ↦ inr (λ v h. h, tt) ])

download_evidence_pdf-Awaits : (s : Page) → Careful (download_evidence_pdf s)
unfolding download_evidence_pdf
download_evidence_pdf-Awaits s = Awaits-with_token VerifiedIntact NotIntact s.token _ λ t.
    Awaits-only_if VerifiedIntact NotIntact (truthy s.session_id) _ (
      λ v h. h,
      elim [
        | ok blob ↦ inr (λ v h. h, (λ v h. h, tt))
        | Result.err e ↦ inr (λ v h. h, (λ v h. h, tt))
      ],
    )

fire_typed-Awaits : (o : Option String) (s : Page) → Careful (fire_typed o s)
unfolding load_sessions
fire_typed-Awaits none s = tt
fire_typed-Awaits (some q) s =
    let s' = record s { debounced_search = q; sessions_limit = page_size } in
    (
      λ v h. h,
      Awaits-only_if VerifiedIntact NotIntact
          (not (s.debounced_search === q) || not (s.sessions_limit == page_size)) (load_sessions s')
          (load_sessions-Awaits s'),
    )

handle-Awaits : (e : Event) (s : Page) → Careful (handle e s)
unfolding handle
handle-Awaits (session t) s = (
  λ v h. h,
  (
    λ v h. h,
    Awaits-only_if VerifiedIntact NotIntact (not (same s.token t))
        (load_sessions (record s { token = t })) (load_sessions-Awaits (record s { token = t })),
  ),
)
handle-Awaits (type_search q) s = (λ v h. h, tt)
handle-Awaits (type_session_id q) s = (λ v h. h, tt)
handle-Awaits debounce_fires s = fire_typed-Awaits s.typing s
handle-Awaits click_load s = load_session-Awaits none s
handle-Awaits (click_session id) s = load_session-Awaits (some id) s
handle-Awaits click_more s =
    (λ v h. h, load_sessions-Awaits (record s { sessions_limit = s.sessions_limit + page_size }))
handle-Awaits click_audit s = audit_session-Awaits s
handle-Awaits click_seed s = seed_demo-Awaits s
handle-Awaits click_evidence s = open_evidence-Awaits s
handle-Awaits click_pdf s = download_evidence_pdf-Awaits s
handle-Awaits confirm_expires s = (λ v h. h, tt)

-- From a page that does not say so, with no call waiting, and however events and replies interleave:
-- if the page has the chain as intact, then a call of the verification has answered that a chain
-- is intact.
pub intact_is_verified :
    {s : Page} {w : World Page Req Reply} (r : Reach handle (record { state = s; tasks = [] }) w)
    → s.chain ≢ some true
    → w.state.chain ≡ some true
    → Happened VerifiedIntact r
intact_is_verified r h e = elim (cause VerifiedIntact NotIntact handle handle-Awaits h r) [
  | inl happened ↦ happened
  | inr kept ↦ absurd (kept e)
]
