-- ===== src/Workspace/Replies.antt =====
-- frontend/app/app/page.tsx:
-- How many replies the page can wait for.
use blackbox_agent_accountab.Prelude.{
  ℕ, ◌+◌, ◌*◌, ◌≤◌, arith, String, Option, none, some, [], Result, ok, or_else, truthy, not, ◌===◌,
  ◌==◌, ◌||◌, same,
}
use blackbox_agent_accountab.Runtime.{World, Reach}
use blackbox_agent_accountab.Runtime.Bounded.{
  Within, Within-only_if, Within-with_token, Within-then_do, Within-weaken, events, replies,
  replies-le,
}
use blackbox_agent_accountab.Workspace.{
  Page, Handler, Req, Reply, page_size, load_sessions, load_session, audit_session, seed_demo,
  open_evidence, download_evidence_pdf,
}
use blackbox_agent_accountab.Workspace.Events.{
  Event, session, type_search, type_session_id, debounce_fires, click_load, click_session,
  click_more, click_audit, click_seed, click_evidence, click_pdf, confirm_expires, fire_typed,
  handle,
}

load_sessions-Within : (s : Page) → Within 1 (load_sessions s)
unfolding load_sessions
load_sessions-Within s = Within-with_token 1 s.token _ λ t x. tt

load_session-Within : (sid : Option String) (s : Page) → Within 2 (load_session sid s)
unfolding load_session
load_session-Within sid s = Within-with_token 2 s.token _ λ t.
    Within-only_if 2 (truthy (or_else sid s.session_id)) _
      (elim [ ok es ↦ elim [ ok b ↦ tt | Result.err e ↦ tt ] | Result.err e ↦ tt ])

audit_session-Within : (s : Page) → Within 1 (audit_session s)
unfolding audit_session
audit_session-Within s =
    Within-with_token 1 s.token _
      λ t. Within-only_if 1 (truthy s.session_id) _ (elim [ ok vs ↦ tt | Result.err e ↦ tt ])

seed_demo-Within : (s : Page) → Within 4 (seed_demo s)
unfolding seed_demo
seed_demo-Within s = Within-with_token 4 s.token _ λ t. elim [
  | ok id ↦
      Within-then_do 1 2 (load_sessions s) _ (load_sessions-Within s)
        (Within-then_do 2 0 (load_session (some id) s) _ (load_session-Within (some id) s) tt)
  | Result.err e ↦ tt
]

open_evidence-Within : (s : Page) → Within 1 (open_evidence s)
unfolding open_evidence
open_evidence-Within s =
    Within-with_token 1 s.token _ λ t. Within-only_if 1 (truthy s.session_id) _ (λ x. tt)

download_evidence_pdf-Within : (s : Page) → Within 1 (download_evidence_pdf s)
unfolding download_evidence_pdf
download_evidence_pdf-Within s =
    Within-with_token 1 s.token _
      λ t. Within-only_if 1 (truthy s.session_id) _ (elim [ ok blob ↦ tt | Result.err e ↦ tt ])

fire_typed-Within : (o : Option String) (s : Page) → Within 1 (fire_typed o s)
unfolding load_sessions
fire_typed-Within none s = tt
fire_typed-Within (some q) s =
    Within-only_if 1 (not (s.debounced_search === q) || not (s.sessions_limit == page_size)) _
      (load_sessions-Within (record s { debounced_search = q; sessions_limit = page_size }))

few : (n : ℕ) (p : Handler) → n ≤ 4 → Within n p → Within 4 p
few n p h k = Within-weaken n 4 p h k

pub handle-Within : (e : Event) (s : Page) → Within 4 (handle e s)
unfolding handle
handle-Within (session t) s =
    Within-only_if 4 (not (same s.token t)) (load_sessions (record s { token = t })) (
      few 1 (load_sessions (record s { token = t })) (omega arith)
        (load_sessions-Within (record s { token = t })))
handle-Within (type_search q) s = tt
handle-Within (type_session_id q) s = tt
handle-Within debounce_fires s =
    few 1 (fire_typed s.typing s) (omega arith) (fire_typed-Within s.typing s)
handle-Within click_load s = few 2 (load_session none s) (omega arith) (load_session-Within none s)
handle-Within (click_session id) s =
    few 2 (load_session (some id) s) (omega arith) (load_session-Within (some id) s)
handle-Within click_more s =
    let s' = record s { sessions_limit = s.sessions_limit + page_size } in
    few 1 (load_sessions s') (omega arith) (load_sessions-Within s')
handle-Within click_audit s = few 1 (audit_session s) (omega arith) (audit_session-Within s)
handle-Within click_seed s = seed_demo-Within s
handle-Within click_evidence s = few 1 (open_evidence s) (omega arith) (open_evidence-Within s)
handle-Within click_pdf s =
    few 1 (download_evidence_pdf s) (omega arith) (download_evidence_pdf-Within s)
handle-Within confirm_expires s = tt

-- From a page with no call waiting, and however events and replies interleave: at most four replies
-- come for each event.
pub replies_are_bounded :
    {s : Page} {w : World Page Req Reply} (r : Reach handle (record { state = s; tasks = [] }) w)
    → replies r ≤ 4 * events r
replies_are_bounded r = replies-le handle 4 handle-Within r
