-- ===== src/Workspace/Evidence.antt =====
-- frontend/app/app/page.tsx:
-- The calls that the page makes, and the errors of the PDF export.
use blackbox_agent_accountab.Prelude.{
  ◌≡◌, refl, ◌+◌, String, true, Option, none, some, [], Result, ok, All, truthy, or_else, not, ◌||◌,
  ◌===◌, ◌==◌, same, arith,
}
use blackbox_agent_accountab.Js.{includes, to_string}
use blackbox_agent_accountab.Api.{api_error, timed_out}
use blackbox_agent_accountab.Api.Messages.{includes-timed_out, includes-api_error}
use blackbox_agent_accountab.Runtime.{World, Reach}
use blackbox_agent_accountab.Runtime.Sequential.{exec}
use blackbox_agent_accountab.Runtime.Sends.{
  Sends, Waits, Sends-only_if, Sends-with_token, Sends-then_do, every_call,
}
use blackbox_agent_accountab.Workspace.{
  Page, Req, Reply, get_events, verify, run_audit, evidence, evidence_pdf, wire, page_size, idle,
  load_sessions, load_session, audit_session, seed_demo, open_evidence, download_evidence_pdf,
}
use blackbox_agent_accountab.Workspace.Events.{
  Event, session, type_search, type_session_id, debounce_fires, click_load, click_session,
  click_more, click_audit, click_seed, click_evidence, click_pdf, confirm_expires, fire_typed,
  handle,
}

-- The session that a call is about.
abbrev about : Req → Option String
about (get_events _ id) = some id
about (verify _ id) = some id
about (run_audit _ id) = some id
about (evidence _ id) = some id
about (evidence_pdf _ id) = some id
about _ = none

-- A call carries a token, and if it is about a session it names one.
abbrev pub IsProper : Req → Type 0
IsProper r = (truthy (wire r).1.token ≡ true) × (truthy (or_else (about r) "-") ≡ true)

load_sessions-Sends : (s : Page) → Sends IsProper (load_sessions s)
unfolding load_sessions wire
load_sessions-Sends s = Sends-with_token IsProper s.token _ λ t e h. ((h, refl), λ x. tt)

load_session-Sends : (sid : Option String) (s : Page) → Sends IsProper (load_session sid s)
unfolding load_session wire
load_session-Sends sid s = Sends-with_token IsProper s.token _ λ t e h.
    Sends-only_if IsProper (truthy (or_else sid s.session_id)) _ λ i. (
      (h, i),
      elim [ ok es ↦ ((h, i), elim [ ok b ↦ tt | Result.err e ↦ tt ]) | Result.err e ↦ tt ],
    )

audit_session-Sends : (s : Page) → Sends IsProper (audit_session s)
unfolding audit_session wire
audit_session-Sends s = Sends-with_token IsProper s.token _ λ t e h.
    Sends-only_if IsProper (truthy s.session_id) _
      λ i. ((h, i), elim [ ok vs ↦ tt | Result.err e ↦ tt ])

open_evidence-Sends : (s : Page) → Sends IsProper (open_evidence s)
unfolding open_evidence wire
open_evidence-Sends s =
    Sends-with_token IsProper s.token _
      λ t e h. Sends-only_if IsProper (truthy s.session_id) _ λ i. ((h, i), λ x. tt)

download_evidence_pdf-Sends : (s : Page) → Sends IsProper (download_evidence_pdf s)
unfolding download_evidence_pdf wire
download_evidence_pdf-Sends s = Sends-with_token IsProper s.token _ λ t e h.
    Sends-only_if IsProper (truthy s.session_id) _
      λ i. ((h, i), elim [ ok blob ↦ tt | Result.err e ↦ tt ])

seed_demo-Sends : (s : Page) → Sends IsProper (seed_demo s)
unfolding seed_demo wire
seed_demo-Sends s = Sends-with_token IsProper s.token _ λ t e h. (
  (h, refl),
  elim [
    | ok id ↦
        Sends-then_do IsProper (load_sessions s) _ (load_sessions-Sends s)
          (Sends-then_do IsProper (load_session (some id) s) _ (load_session-Sends (some id) s) tt)
    | Result.err e ↦ tt
  ],
)

fire_typed-Sends : (o : Option String) (s : Page) → Sends IsProper (fire_typed o s)
unfolding load_sessions
fire_typed-Sends none s = tt
fire_typed-Sends (some q) s =
    Sends-only_if IsProper (not (s.debounced_search === q) || not (s.sessions_limit == page_size)) _
      λ _. load_sessions-Sends (record s { debounced_search = q; sessions_limit = page_size })

handle-Sends : (e : Event) (s : Page) → Sends IsProper (handle e s)
unfolding handle
handle-Sends (session t) s =
    Sends-only_if IsProper (not (same s.token t)) _
      λ _. load_sessions-Sends (record s { token = t })
handle-Sends (type_search q) s = tt
handle-Sends (type_session_id q) s = tt
handle-Sends debounce_fires s = fire_typed-Sends s.typing s
handle-Sends click_load s = load_session-Sends none s
handle-Sends (click_session id) s = load_session-Sends (some id) s
handle-Sends click_more s =
    load_sessions-Sends (record s { sessions_limit = s.sessions_limit + page_size })
handle-Sends click_audit s = audit_session-Sends s
handle-Sends click_seed s = seed_demo-Sends s
handle-Sends click_evidence s = open_evidence-Sends s
handle-Sends click_pdf s = download_evidence_pdf-Sends s
handle-Sends confirm_expires s = tt

-- From a page with no call waiting, and however events and replies interleave: every call that
-- waits carries a nonempty token, and a call about a session names a nonempty id.
pub every_call-IsProper :
    {s : Page} {w : World Page Req Reply}
    → Reach handle (record { state = s; tasks = [] }) w
    → All (Waits IsProper) w.tasks
every_call-IsProper = every_call IsProper handle handle-Sends

-- With a token and a session selected: if the request of the export times out and its path
-- includes "402", the page shows the message for a missing plan.
pub pdf_timeout_says_pro :
    (reply : (r : Req) → Result (Reply r)) (s : Page) (t : String)
    → s.token ≡ some t
    → truthy t ≡ true
    → truthy s.session_id ≡ true
    → includes (wire (evidence_pdf t s.session_id)).0 "402" ≡ true
    → reply (evidence_pdf t s.session_id)
      ≡ Result.err (timed_out (wire (evidence_pdf t s.session_id)).0)
    → (exec reply (download_evidence_pdf s) s).0.err
      ≡ some "PDF evidence export is a Pro plan feature."
unfolding download_evidence_pdf
pdf_timeout_says_pro reply s t p q i m e =
    let found = includes-timed_out (wire (evidence_pdf t s.session_id)).0 "402" m in ground arith

-- With a token and a session selected: if the export is answered with 402, whatever the text of
-- the response, the page shows the message for a missing plan, has downloaded nothing more, and is
-- idle.
pub pdf_payment_required :
    (reply : (r : Req) → Result (Reply r)) (s : Page) (t body : String)
    → s.token ≡ some t
    → truthy t ≡ true
    → truthy s.session_id ≡ true
    → reply (evidence_pdf t s.session_id) ≡ Result.err (api_error 402 body)
    → let u = (exec reply (download_evidence_pdf s) s).0 in
      (u.err ≡ some "PDF evidence export is a Pro plan feature.")
      × (u.downloads ≡ s.downloads)
      × (u.busy ≡ idle)
unfolding download_evidence_pdf to_string includes
pdf_payment_required reply s t body p q i e =
    let found = includes-api_error 402 body "402" refl in ground arith
