-- ===== src/Tests/Sessions.antt =====
-- The sessions and the API keys of a workspace, on concrete pages.
use blackbox_agent_accountab.Prelude.{
  ◌≡◌, refl, String, true, false, none, some, List, [], ◌∷◌, Result, ok, All, Any,
}
use blackbox_agent_accountab.Js.{includes}
use blackbox_agent_accountab.Api.{api_error, timed_out}
use blackbox_agent_accountab.Runtime.{World, here}
use blackbox_agent_accountab.Runtime.Sequential.{exec}
use blackbox_agent_accountab.Runtime.Schedule.{Move, starts, settles, play, play-Reach}
use blackbox_agent_accountab.Runtime.Sends.{Waits}
use blackbox_agent_accountab.View.{text, Calls}
use blackbox_agent_accountab.Workspace.{
  Recorded, SessionRow, Page, Req, Reply, list_sessions, get_events, verify, run_audit, seed,
  evidence, evidence_pdf, wire, idle, load_session, download_evidence_pdf,
}
use blackbox_agent_accountab.Workspace.Events.{Event, click_session, click_load, handle}
use blackbox_agent_accountab.Workspace.View.{view}
use blackbox_agent_accountab.Workspace.Quiescence.{busy_is_released}
use blackbox_agent_accountab.Workspace.Evidence.{
  IsProper, every_call-IsProper, pdf_timeout_says_pro,
}
use blackbox_agent_accountab.Workspace.Loading.{
  load_session_lem, failed_load_shows_intact, overtaken, load_overtaken,
}
use blackbox_agent_accountab.Workspace.Controls.{view-Calls}
use blackbox_agent_accountab.Keys

abbrev recorded : String → Recorded
recorded id = record {
  seq = 1;
  session_id = id;
  kind = "tool_call";
  tool = some "shell";
  intent = "ls";
}

abbrev row : SessionRow
row = record { session_id = "s1"; events = 1; last_ts = "2026-01-01" }

abbrev start : Page
start = record {
  token = some "jwt";
  session_loading = false;
  sessions = row ∷ [];
  search = "";
  debounced_search = "";
  sessions_limit = 25;
  has_more = false;
  session_id = "402";
  events = [];
  verdicts = [];
  chain = some true;
  busy = idle;
  err = none;
  confirm = none;
  typing = none;
  opened = [];
  downloads = [];
  pushed = [];
}

abbrev answer : (r : Req) → Result (Reply r)
answer (list_sessions _ _ _) = ok (row ∷ [])
answer (get_events _ id) = ok (recorded id ∷ [])
answer (verify _ _) = ok true
answer (run_audit _ _) = ok []
answer (seed _) = ok "demo"
answer (evidence _ _) = ok "<html>"
answer (evidence_pdf _ _) = ok (37 ∷ [])

abbrev refuse : (r : Req) → Result (Reply r)
refuse r = Result.err "down"

abbrev late : (r : Req) → Result (Reply r)
late r = Result.err (timed_out (wire r).0)

abbrev unpaid : (r : Req) → Result (Reply r)
unpaid r = Result.err (api_error 402 "no plan")

abbrev calm : World Page Req Reply
calm = record { state = start; tasks = [] }

abbrev loaded : List (Move Event)
loaded = starts (click_session "s1") ∷ settles 0 ∷ settles 0 ∷ []

abbrev asking : List (Move Event)
asking = starts (click_session "s1") ∷ settles 0 ∷ starts click_load ∷ []

busy_is_released_example : (play handle answer loaded calm).state.busy ≡ idle
unfolding handle
busy_is_released_example = busy_is_released refl (play-Reach handle answer loaded calm here) refl

every_call-IsProper_example : All (Waits IsProper) (play handle answer asking calm).tasks
every_call-IsProper_example = every_call-IsProper (play-Reach handle answer asking calm here)

load_session_lem_example :
    let (u, calls) = exec answer (load_session (some "s1") start) start in
    (u.session_id ≡ "s1")
    × (u.events ≡ recorded "s1" ∷ [])
    × (u.chain ≡ some true)
    × (u.verdicts ≡ [])
    × (u.err ≡ none)
    × (u.busy ≡ idle)
    × (calls ≡ get_events "jwt" "s1" ∷ verify "jwt" "s1" ∷ [])
load_session_lem_example = load_session_lem answer start "jwt" "s1" refl refl refl refl refl

failed_load_shows_intact_example :
    let u = (exec refuse (load_session (some "s1") start) start).0 in
    (u.session_id ≡ "s1") × Any (λ n. n ≡ text "chain intact") (view u)
failed_load_shows_intact_example =
    failed_load_shows_intact refuse start "jwt" "s1" "down" refl refl refl refl refl refl

load_overtaken_example :
    let w = play handle answer (overtaken "s1" "s2") calm in
    (w.tasks ≡ [])
    × (w.state.session_id ≡ "s2")
    × (w.state.events ≡ recorded "s1" ∷ [])
    × (w.state.chain ≡ some true)
load_overtaken_example =
    load_overtaken answer start "jwt" "s1" "s2" (recorded "s1" ∷ []) (recorded "s2" ∷ []) true true
      refl refl refl refl refl refl refl refl

view-Calls_example : All (Calls handle start) (view start)
view-Calls_example = view-Calls start refl

pdf_timeout_says_pro_example :
    (exec late (download_evidence_pdf start) start).0.err
    ≡ some "PDF evidence export is a Pro plan feature."
unfolding wire includes blackbox_agent_accountab.Js.Encoding.encode_uri_component
pdf_timeout_says_pro_example = pdf_timeout_says_pro late start "jwt" refl refl refl refl refl

abbrev naming : Keys.Page
naming = record {
  token = some "jwt";
  session_loading = false;
  keys = [];
  created = none;
  name = "production";
  err = none;
  loading = false;
  confirm = none;
  pushed = [];
}

abbrev listed : Keys.ApiKey
listed = record { id = 1; name = "production"; prefix = "tv_live_ab"; revoked_at = none }

abbrev issue : (r : Keys.Req) → Result (Keys.Reply r)
issue (Keys.list_keys _) = ok (listed ∷ [])
issue (Keys.create_key _ _) = ok "tv_live_abcd"
issue (Keys.delete_key _ _) = ok tt
