-- ===== src/Workspace/Online/Plain.antt =====
-- frontend/app/app/page.tsx:
-- The handlers of the page await every asynchronous function that they call.
use blackbox_agent_accountab.Prelude.{
  ◌+◌, String, Option, none, some, not, ◌||◌, ◌===◌, ◌==◌, same, Result, ok, or_else, truthy,
}
use blackbox_agent_accountab.Runtime.Alone.{Plain, Plain-only_if, Plain-with_token, Plain-then_do}
use blackbox_agent_accountab.Workspace.{
  Page, page_size, load_sessions, load_session, audit_session, seed_demo, open_evidence,
  download_evidence_pdf,
}
use blackbox_agent_accountab.Workspace.Events.{
  Event, session, type_search, type_session_id, debounce_fires, click_load, click_session,
  click_more, click_audit, click_seed, click_evidence, click_pdf, confirm_expires, fire_typed,
  handle,
}

load_sessions-Plain : (s : Page) → Plain (load_sessions s)
unfolding load_sessions
load_sessions-Plain s = Plain-with_token s.token _ λ t x. tt

load_session-Plain : (sid : Option String) (s : Page) → Plain (load_session sid s)
unfolding load_session
load_session-Plain sid s = Plain-with_token s.token _ λ t.
    Plain-only_if (truthy (or_else sid s.session_id)) _
      (elim [ ok es ↦ elim [ ok b ↦ tt | Result.err e ↦ tt ] | Result.err e ↦ tt ])

audit_session-Plain : (s : Page) → Plain (audit_session s)
unfolding audit_session
audit_session-Plain s =
    Plain-with_token s.token _
      λ t. Plain-only_if (truthy s.session_id) _ (elim [ ok vs ↦ tt | Result.err e ↦ tt ])

open_evidence-Plain : (s : Page) → Plain (open_evidence s)
unfolding open_evidence
open_evidence-Plain s =
    Plain-with_token s.token _ λ t. Plain-only_if (truthy s.session_id) _ (λ x. tt)

download_evidence_pdf-Plain : (s : Page) → Plain (download_evidence_pdf s)
unfolding download_evidence_pdf
download_evidence_pdf-Plain s =
    Plain-with_token s.token _
      λ t. Plain-only_if (truthy s.session_id) _ (elim [ ok blob ↦ tt | Result.err e ↦ tt ])

seed_demo-Plain : (s : Page) → Plain (seed_demo s)
unfolding seed_demo
seed_demo-Plain s = Plain-with_token s.token _ λ t. elim [
  | ok id ↦
      Plain-then_do (load_sessions s) _ (load_sessions-Plain s)
        (Plain-then_do (load_session (some id) s) _ (load_session-Plain (some id) s) tt)
  | Result.err e ↦ tt
]

fire_typed-Plain : (o : Option String) (s : Page) → Plain (fire_typed o s)
unfolding load_sessions
fire_typed-Plain none s = tt
fire_typed-Plain (some q) s =
    Plain-only_if (not (s.debounced_search === q) || not (s.sessions_limit == page_size)) _
      (load_sessions-Plain (record s { debounced_search = q; sessions_limit = page_size }))

pub handle-Plain : (e : Event) (s : Page) → Plain (handle e s)
unfolding handle
handle-Plain (session t) s =
    Plain-only_if (not (same s.token t)) _ (load_sessions-Plain (record s { token = t }))
handle-Plain (type_search q) s = tt
handle-Plain (type_session_id q) s = tt
handle-Plain debounce_fires s = fire_typed-Plain s.typing s
handle-Plain click_load s = load_session-Plain none s
handle-Plain (click_session id) s = load_session-Plain (some id) s
handle-Plain click_more s =
    load_sessions-Plain (record s { sessions_limit = s.sessions_limit + page_size })
handle-Plain click_audit s = audit_session-Plain s
handle-Plain click_seed s = seed_demo-Plain s
handle-Plain click_evidence s = open_evidence-Plain s
handle-Plain click_pdf s = download_evidence_pdf-Plain s
handle-Plain confirm_expires s = tt
