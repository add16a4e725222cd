-- ===== src/Workspace/Quiescence.antt =====
-- frontend/app/app/page.tsx:
-- The busy flag of the page and its calls, over every interleaving of events and replies.
use blackbox_agent_accountab.Prelude.{
  ◌≡◌, refl, inl, inr, String, Option, none, some, List, [], false, Result, ok, truthy, or_else,
  not, ◌===◌, ◌==◌, ◌||◌, same, ◌+◌,
}
use blackbox_agent_accountab.Runtime.{World, Reach}
use blackbox_agent_accountab.Runtime.Quiet.{
  Keeps, Restores, Keeps-only_if, Keeps-with_token, Restores-then_do,
}
use blackbox_agent_accountab.Runtime.Waiting.{quiet}
use blackbox_agent_accountab.Workspace.{
  Page, Req, Reply, idle, page_size, load_sessions, load_session, audit_session, seed_demo,
  open_evidence, download_evidence_pdf, Recorded, got_events, verified, seeded,
}
use blackbox_agent_accountab.Workspace.Events.{
  Event, session, type_search, type_session_id, debounce_fires, click_load, click_session,
  click_more, click_audit, click_seed, click_evidence, click_pdf, confirm_expires, to_login,
  fire_typed, handle,
}

abbrev pub IsIdle : Page → Type 0
IsIdle s = s.busy ≡ idle

-- Whatever a reply is, the flag is cleared when nothing is left to wait for.
load_session-Keeps :
    (sid : Option String) (s u : Page) → Keeps IsIdle (IsIdle u) (load_session sid s) u
unfolding load_session
load_session-Keeps sid s u =
    Keeps-with_token IsIdle _ s.token _ u (λ h. h)
      λ t.
        Keeps-only_if IsIdle _ (truthy (or_else sid s.session_id)) _ u (λ h. h)
          (inr (loaded t (or_else sid s.session_id)))
  where
    loaded :
        (t id : String) (x : Result (List Recorded)) (v : Page)
        → Restores IsIdle (got_events t id x) v
    loaded t id (ok es) v =
        λ y w. elim y as (λ y. Restores IsIdle (verified y) w) [ ok _ ↦ refl | Result.err _ ↦ refl ]
    loaded t id (Result.err e) v = refl

load_sessions-Keeps : (s u : Page) → Keeps IsIdle (IsIdle u) (load_sessions s) u
unfolding load_sessions
load_sessions-Keeps s u =
    Keeps-with_token IsIdle _ s.token _ u (λ h. h)
      λ t. inl (λ h. h, elim [ ok rows ↦ λ v h. h | Result.err e ↦ λ v h. h ])

audit_session-Keeps : (s u : Page) → Keeps IsIdle (IsIdle u) (audit_session s) u
unfolding audit_session
audit_session-Keeps s u =
    Keeps-with_token IsIdle _ s.token _ u (λ h. h)
      λ t.
        Keeps-only_if IsIdle _ (truthy s.session_id) _ u (λ h. h)
          (inr (elim [ ok vs ↦ λ v. refl | Result.err e ↦ λ v. refl ]))

download_evidence_pdf-Keeps : (s u : Page) → Keeps IsIdle (IsIdle u) (download_evidence_pdf s) u
unfolding download_evidence_pdf
download_evidence_pdf-Keeps s u =
    Keeps-with_token IsIdle _ s.token _ u (λ h. h)
      λ t.
        Keeps-only_if IsIdle _ (truthy s.session_id) _ u (λ h. h)
          (inr (elim [ ok blob ↦ λ v. refl | Result.err e ↦ λ v. refl ]))

open_evidence-Keeps : (s u : Page) → Keeps IsIdle (IsIdle u) (open_evidence s) u
unfolding open_evidence
open_evidence-Keeps s u =
    Keeps-with_token IsIdle _ s.token _ u (λ h. h)
      λ t.
        Keeps-only_if IsIdle _ (truthy s.session_id) _ u (λ h. h)
          (inl (λ h. h, elim [ ok html ↦ λ v h. h | Result.err e ↦ λ v h. h ]))

seeded-Restores : (s : Page) (x : Result String) (v : Page) → Restores IsIdle (seeded s x) v
seeded-Restores s (ok id) v =
    Restores-then_do IsIdle _ (load_sessions s) _ v (load_sessions-Keeps s v) λ w.
      Restores-then_do IsIdle _ (load_session (some id) s) _ w (load_session-Keeps (some id) s w)
        (λ _. refl)
seeded-Restores s (Result.err e) v = refl

seed_demo-Keeps : (s u : Page) → Keeps IsIdle (IsIdle u) (seed_demo s) u
unfolding seed_demo
seed_demo-Keeps s u = Keeps-with_token IsIdle _ s.token _ u (λ h. h) λ t. inr (seeded-Restores s)

fire_typed-Keeps : (o : Option String) (s u : Page) → Keeps IsIdle (IsIdle u) (fire_typed o s) u
unfolding load_sessions
fire_typed-Keeps none s u = λ h. h
fire_typed-Keeps (some q) s u =
    let u' = record u { debounced_search = q; sessions_limit = page_size; typing = none } in
    Keeps-only_if IsIdle (IsIdle u)
      (not (s.debounced_search === q) || not (s.sessions_limit == page_size)) _ u' (λ h. h)
      (load_sessions-Keeps (record s { debounced_search = q; sessions_limit = page_size }) u')

pub handle-Keeps : (e : Event) (s : Page) → Keeps IsIdle (IsIdle s) (handle e s) s
unfolding handle
handle-Keeps (session t) s =
    let signed = record s { token = t; session_loading = false } in
    let sent = to_login (s.session_loading || not (same s.token t)) t signed in
    Keeps-only_if IsIdle (IsIdle s) (not (same s.token t)) _ sent (λ h. h)
      (load_sessions-Keeps (record s { token = t }) sent)
handle-Keeps (type_search q) s = λ h. h
handle-Keeps (type_session_id q) s = λ h. h
handle-Keeps debounce_fires s = fire_typed-Keeps s.typing s s
handle-Keeps click_load s = load_session-Keeps none s s
handle-Keeps (click_session id) s = load_session-Keeps (some id) s s
handle-Keeps click_more s =
    load_sessions-Keeps (record s { sessions_limit = s.sessions_limit + page_size })
      (record s { sessions_limit = s.sessions_limit + page_size })
handle-Keeps click_audit s = audit_session-Keeps s s
handle-Keeps click_seed s = seed_demo-Keeps s s
handle-Keeps click_evidence s = open_evidence-Keeps s s
handle-Keeps click_pdf s = download_evidence_pdf-Keeps s s
handle-Keeps confirm_expires s = λ h. h

-- From an idle page with no call waiting, however the user's events, the timers and the replies
-- interleave and whatever the replies are: once no call is waiting, no button of the page is
-- left busy.
pub busy_is_released :
    {s : Page} {w : World Page Req Reply}
    → s.busy ≡ idle
    → Reach handle (record { state = s; tasks = [] }) w
    → w.tasks ≡ []
    → w.state.busy ≡ idle
busy_is_released = quiet IsIdle handle handle-Keeps
