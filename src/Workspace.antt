-- ===== src/Workspace.antt =====
-- frontend/app/app/page.tsx: the sessions of the workspace, their events, audits and evidence.
--
-- This file has the state, the calls and the handlers; Workspace/Events has what starts them and
-- Workspace/View what is rendered.
pub mod Events
pub mod View
pub mod Quiescence
pub mod Searching
pub mod Loading
pub mod Evidence
pub mod Controls
pub mod Replies
pub mod Causes
pub mod Online
use blackbox_agent_accountab.Prelude.{
  ℕ, ◌+◌, String, Bool, true, false, Option, none, some, List, [], ◌∷◌, Result, ok, if◌then◌else◌,
  ◌==◌, truthy, or_else, length,
}
use blackbox_agent_accountab.Js.{template, to_string, includes}
use blackbox_agent_accountab.Js.Encoding.{encode_uri_component, form_encode}
use blackbox_agent_accountab.Api.{Options, bare, fetching}
use blackbox_agent_accountab.Runtime.{Prog, done, act, call, with_token, only_if, then_do}

-- `type Event`
pub record Recorded : Type 0 where
  pub seq : ℕ
  pub session_id : String
  pub kind : String
  pub tool : Option String
  pub intent : String

pub record Verdict : Type 0 where
  pub rule_id : String
  pub severity : String
  pub rationale : String

pub record SessionRow : Type 0 where
  pub session_id : String
  pub events : ℕ
  pub last_ts : String

pub data Busy : Type 0 where
  idle load audit demo pdf : Busy

abbrev pub page_size : ℕ
page_size = 25

-- The state of the page, with the debounce timer, the documents opened, the files downloaded and
-- the pages pushed to the router, the latest first.
pub record Page : Type 0 where
  pub token : Option String
  pub session_loading : Bool
  pub sessions : List SessionRow
  pub search : String
  pub debounced_search : String
  pub sessions_limit : ℕ
  pub has_more : Bool
  pub session_id : String
  pub events : List Recorded
  pub verdicts : List Verdict
  pub chain : Option Bool
  pub busy : Busy
  pub err : Option String
  pub confirm : Option String
  -- the text that the timer sets when it fires
  pub typing : Option String
  pub opened : List String
  pub downloads : List String
  pub pushed : List String

-- The calls of the API that the page makes.
pub data Req : Type 0 where
  list_sessions : String → ℕ → String → Req
  get_events : String → String → Req
  verify : String → String → Req
  run_audit : String → String → Req
  seed : String → Req
  evidence : String → String → Req
  evidence_pdf : String → String → Req

abbrev pub Reply : Req → Type 0
Reply (list_sessions _ _ _) = List SessionRow
Reply (get_events _ _) = List Recorded
Reply (verify _ _) = Bool
Reply (run_audit _ _) = List Verdict
Reply (seed _) = String
Reply (evidence _ _) = String
Reply (evidence_pdf _ _) = List ℕ

abbrev query : ℕ → String → String
query limit q = template (
    "limit="
    ∷ to_string limit
    ∷ (if truthy q then template ("&q=" ∷ form_encode q ∷ []) else "")
    ∷ [])

-- What the call of a request is given.
unfoldable pub wire : Req → String × Options
wire (list_sessions t limit q) = (template ("/sessions?" ∷ query limit q ∷ []), fetching t)
wire (get_events t id) =
    (template ("/events?session_id=" ∷ encode_uri_component id ∷ []), fetching t)
wire (verify t id) = (template ("/verify?session_id=" ∷ encode_uri_component id ∷ []), fetching t)
wire (run_audit t id) = (template ("/audit/" ∷ encode_uri_component id ∷ []), bare "POST" t)
wire (seed t) = ("/demo/seed", bare "POST" t)
wire (evidence t id) = (template ("/evidence/" ∷ encode_uri_component id ∷ []), fetching t)
wire (evidence_pdf t id) =
    (template ("/evidence/" ∷ encode_uri_component id ∷ "/pdf" ∷ []), fetching t)

abbrev pub Handler : Type 0
Handler = Prog Page Req Reply

-- `catch (e) { setErr(String(e)); } finally { setBusy(""); }`
abbrev fail : String → Handler
fail e = act (λ u. record u { err = some e }) (act (λ u. record u { busy = idle }) done)

-- The rows of a page of sessions, whose limit was `limit`.
abbrev listed : ℕ → Result (List SessionRow) → Page → Page
listed limit (ok rows) u = record u { sessions = rows; has_more = length rows == limit }
listed limit (Result.err e) u = record u { err = some e }

unfoldable pub load_sessions : Page → Handler
load_sessions s = with_token s.token λ t.
    call (list_sessions t s.sessions_limit s.debounced_search)
      (λ x. act (listed s.sessions_limit x) done)

abbrev verified : Result Bool → Handler
verified (ok intact) =
    act (λ u. record u { chain = some intact }) (act (λ u. record u { busy = idle }) done)
verified (Result.err e) = fail e

abbrev got_events : String → String → Result (List Recorded) → Handler
got_events t id (ok es) = act (λ u. record u { events = es }) (call (verify t id) verified)
got_events t id (Result.err e) = fail e

-- `load(sid)`, in the render with state `s`
unfoldable pub load_session : Option String → Page → Handler
load_session sid s =
    let id = or_else sid s.session_id in
    with_token s.token λ t. only_if (truthy id) (
      act (λ u. record u { session_id = id; err = none; busy = load; verdicts = [] })
        (call (get_events t id) (got_events t id)))

abbrev audit_message : List Verdict → String
audit_message [] = "Audit complete: no violations"
audit_message vs =
    let n = length vs in
    template ("Audit complete: " ∷ to_string n ∷ " verdict" ∷ (if n == 1 then "" else "s") ∷ [])

abbrev audited : Result (List Verdict) → Handler
audited (ok vs) =
    act (λ u. record u { verdicts = vs; confirm = some (audit_message vs) })
      (act (λ u. record u { busy = idle }) done)
audited (Result.err e) = fail e

unfoldable pub audit_session : Page → Handler
audit_session s = with_token s.token λ t.
    only_if (truthy s.session_id)
      (act (λ u. record u { err = none; busy = audit }) (call (run_audit t s.session_id) audited))

abbrev seeded : Page → Result String → Handler
seeded s (ok id) =
    then_do (load_sessions s)
      (then_do (load_session (some id) s) (act (λ u. record u { busy = idle }) done))
seeded s (Result.err e) = fail e

unfoldable pub seed_demo : Page → Handler
unfolding load_sessions load_session
seed_demo s =
    with_token s.token
      λ t. act (λ u. record u { err = none; busy = demo }) (call (seed t) (seeded s))

abbrev evidence_came : Result String → Page → Page
evidence_came (ok html) u = record u { opened = html ∷ u.opened }
evidence_came (Result.err e) u = record u { err = some e }

unfoldable pub open_evidence : Page → Handler
open_evidence s = with_token s.token λ t.
    only_if (truthy s.session_id) (call (evidence t s.session_id) (λ x. act (evidence_came x) done))

-- What the page shows for an error of the export.
unfoldable pub pdf_message : String → String
pdf_message e = if includes e "402" then "PDF evidence export is a Pro plan feature." else e

abbrev pdf_came : String → Result (List ℕ) → Handler
pdf_came id (ok blob) =
    act (λ u. record u { downloads = template (id ∷ "-evidence.pdf" ∷ []) ∷ u.downloads })
      (act (λ u. record u { busy = idle }) done)
pdf_came id (Result.err e) = fail (pdf_message e)

unfoldable pub download_evidence_pdf : Page → Handler
unfolding pdf_message
download_evidence_pdf s = with_token s.token λ t. only_if (truthy s.session_id) (
    act (λ u. record u { err = none; busy = pdf })
      (call (evidence_pdf t s.session_id) (pdf_came s.session_id)))
