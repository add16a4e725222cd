-- ===== src/Tests/Journeys.antt =====
-- What the pages rest on in a whole history, on concrete histories.
use blackbox_agent_accountab.Prelude.{
  ℕ, ◌≡◌, ◌≤◌, ◌*◌, refl, inr, ◌⊎◌, String, true, false, none, some, List, [], ◌∷◌, arith, Result,
  ok, All, all,
}
use blackbox_agent_accountab.Js.{trim}
use blackbox_agent_accountab.Runtime.{World, advance, Reach, here, next, event, settle}
use blackbox_agent_accountab.Runtime.Schedule.{Move, starts, settles, play, play-Reach}
use blackbox_agent_accountab.Runtime.Sends.{Waits}
use blackbox_agent_accountab.Runtime.Bounded.{events, replies}
use blackbox_agent_accountab.Runtime.Cause.{Happened}
use blackbox_agent_accountab.Session
use blackbox_agent_accountab.Session.Provisioned.{Provided}
use blackbox_agent_accountab.Dashboard.{Joint, opens, hook, shown}
use blackbox_agent_accountab.Dashboard.Sessions.{bearer, sessions_page}
use blackbox_agent_accountab.Dashboard.Leaving.{signed_out_leaves}
use blackbox_agent_accountab.Dashboard.Screens.{sessions, screen_calls-Provided}
use blackbox_agent_accountab.Workspace.{
  Page, Req, Reply, list_sessions, get_events, verify, run_audit, seed, evidence, evidence_pdf,
  idle,
}
use blackbox_agent_accountab.Workspace.Events.{
  Event, session, type_search, debounce_fires, click_session, handle,
}
use blackbox_agent_accountab.Workspace.Searching.{Searches, typed_text_is_asked_for}
use blackbox_agent_accountab.Workspace.Replies.{replies_are_bounded}
use blackbox_agent_accountab.Api.{Fetched, responds, hangs}
use blackbox_agent_accountab.Api.Timeout.{Timely}
use blackbox_agent_accountab.Runtime.Sequential.{exec}
use blackbox_agent_accountab.Runtime.Alone.{elapsed}
use blackbox_agent_accountab.Workspace.Online.{settled}
use blackbox_agent_accountab.Workspace.Online.Prompt.{handler_is_prompt}
use blackbox_agent_accountab.Workspace.Causes.{VerifiedIntact, intact_is_verified}
use blackbox_agent_accountab.Confirm.{fresh, Happens, shows, passes, history}
use blackbox_agent_accountab.Confirm.Spec.{last, promised, history_refines}
use blackbox_agent_accountab.TopNav.{links, active}
use blackbox_agent_accountab.Settings.Rules.{keywords_of}
use blackbox_agent_accountab.Settings.Keywords.{typed, keywords_of-typed}

abbrev nobody : Page
nobody = record {
  token = none;
  session_loading = true;
  sessions = [];
  search = "";
  debounced_search = "";
  sessions_limit = 25;
  has_more = false;
  session_id = "";
  events = [];
  verdicts = [];
  chain = none;
  busy = idle;
  err = none;
  confirm = none;
  typing = none;
  opened = [];
  downloads = [];
  pushed = [];
}

abbrev somebody : Page
somebody = record nobody { token = some "jwt"; session_loading = false }

abbrev answer : (r : Req) → Result (Reply r)
answer (list_sessions _ _ _) = ok []
answer (get_events _ id) = ok []
answer (verify _ _) = ok true
answer (run_audit _ _) = ok []
answer (seed _) = ok "demo"
answer (evidence _ _) = ok "<html>"
answer (evidence_pdf _ _) = ok []

abbrev provide : (r : Session.Req) → Result (Session.Reply r)
provide r = ok tt

abbrev signed_out : World Session.Session Session.Req Session.Reply
signed_out = record { state = Session.start; tasks = [] }

abbrev signing_in : List (Move Session.Event)
signing_in = starts (Session.changed (some "jwt")) ∷ settles 0 ∷ []

abbrev listing : List (Move Event)
listing = starts (session (some "jwt")) ∷ []

abbrev unlisted : World Page Req Reply
unlisted = record { state = nobody; tasks = [] }

-- The user signs in and the workspace is provided.
abbrev provided :
    Reach Session.handle signed_out (play Session.handle provide signing_in signed_out)
unfolding Session.handle
provided =
    next (next here (event (Session.changed (some "jwt")))) (settle [] [] _ _ refl (ok tt, refl))

-- Then the page asks for the sessions.
signed_in : Joint sessions_page _ provided (play handle answer listing unlisted)
unfolding handle Session.handle
signed_in =
    shown
      (hook (hook (opens nobody refl) (event (Session.changed (some "jwt"))))
        (settle [] [] _ _ refl (ok tt, refl)))
      (event (session (some "jwt"))) (inr refl)

screen_calls-Provided_example :
    All (Waits (λ q. Provided (bearer q) provided)) (play handle answer listing unlisted).tasks
screen_calls-Provided_example = screen_calls-Provided sessions signed_in

signed_out_leaves_example :
    let (u, calls) = advance (handle (session none) somebody) somebody in
    (u.token ≡ none) × (u.pushed ≡ "/login" ∷ []) × (calls ≡ [])
signed_out_leaves_example = signed_out_leaves sessions somebody "jwt" (λ e. cc) refl

abbrev calm : World Page Req Reply
calm = record { state = somebody; tasks = [] }

abbrev loading : List (Move Event)
loading = starts (click_session "s1") ∷ settles 0 ∷ settles 0 ∷ []

replies_are_bounded_example :
    let r = play-Reach handle answer loading calm here in replies r ≤ 4 * events r
replies_are_bounded_example = replies_are_bounded (play-Reach handle answer loading calm here)

intact_is_verified_example : Happened VerifiedIntact (play-Reach handle answer loading calm here)
unfolding handle
intact_is_verified_example =
    intact_is_verified (play-Reach handle answer loading calm here) (λ e. cc) refl

abbrev announced : List Happens
announced = shows "Key saved" ∷ passes 3000 ∷ shows "Key cleared" ∷ passes 3999 ∷ []

history_refines_test :
    (promised 4000 (last announced none) ≡ some "Key cleared")
    × (promised 4000 (last (passes 1 ∷ announced) none) ≡ some "Key cleared")
    × (promised 3999 (last announced none) ≡ none)
history_refines_test = (refl, refl, refl)

history_refines_example :
    (history 4000 announced (fresh 7)).message ≡ promised 4000 (last announced none)
history_refines_example = history_refines 4000 7 announced (omega arith)

-- Every link of the bar is marked on its own page.
own_page_is_marked_test : all (λ l. active l.href l) links ≡ true
own_page_is_marked_test = refl

-- A backend whose headers come after 10 ms and whose bodies after 5 more; the export hangs.
abbrev came : {B : Type 0} → Result B → Fetched B
came x = responds 10 (record {
  status = 200;
  content_type = some "application/json";
  body_delay = some 5;
  text = ok "";
  json = x;
  blob = ok [];
})

abbrev backend : (r : Req) → Fetched (Reply r)
backend (list_sessions t n q) = came (answer (list_sessions t n q))
backend (get_events t id) = came (answer (get_events t id))
backend (verify t id) = came (answer (verify t id))
backend (run_audit t id) = came (answer (run_audit t id))
backend (seed t) = came (answer (seed t))
backend (evidence t id) = came (answer (evidence t id))
backend (evidence_pdf t id) = hangs

backend-Timely : (r : Req) → Timely 5 (backend r)
backend-Timely (list_sessions t n q) = (5, refl, omega arith)
backend-Timely (get_events t id) = (5, refl, omega arith)
backend-Timely (verify t id) = (5, refl, omega arith)
backend-Timely (run_audit t id) = (5, refl, omega arith)
backend-Timely (seed t) = (5, refl, omega arith)
backend-Timely (evidence t id) = (5, refl, omega arith)
backend-Timely (evidence_pdf t id) = tt

abbrev of_text : (r : Req) → String → Reply r
of_text (list_sessions t n q) s = []
of_text (get_events t id) s = []
of_text (verify t id) s = false
of_text (run_audit t id) s = []
of_text (seed t) s = s
of_text (evidence t id) s = s
of_text (evidence_pdf t id) s = []

handler_is_prompt_example :
    (given : (r : Req) → Result (Reply r)) × (took : Req → ℕ) × ((r : Req)
      → settled of_text backend r ≡ some (took r, given r))
    × ((exec given (handle (click_session "s1") somebody) somebody).0.busy ≡ idle)
    × (elapsed took (exec given (handle (click_session "s1") somebody) somebody).1 ≤ 60020)
handler_is_prompt_example =
    handler_is_prompt of_text backend 5 (click_session "s1") somebody backend-Timely refl

abbrev typing : List (Move Event)
typing = starts (type_search "p") ∷ starts (type_search "pay") ∷ []

abbrev typed_page : Page
unfolding handle
typed_page = (play handle answer typing calm).state

typed_text_is_asked_for_example :
    ((typed_page.typing ≡ none) × (typed_page.debounced_search ≡ typed_page.search))
    ⊎ ((typed_page.typing ≡ some "pay")
        × Searches answer "jwt" refl typed_page
            (list_sessions "jwt" 25 "pay" ∷ [])
            (exec answer (handle debounce_fires typed_page) typed_page))
unfolding handle
typed_text_is_asked_for_example =
    typed_text_is_asked_for answer "jwt" refl refl refl (play-Reach handle answer typing calm here)
      refl

abbrev keywords : List String
keywords = "prod db" ∷ "rm -rf" ∷ []

keywords_of-typed_example : keywords_of (typed keywords) ≡ keywords
unfolding trim
keywords_of-typed_example = keywords_of-typed keywords (
  (refl, (refl, (refl, (refl, (refl, (refl, (refl, (refl, tt))))))), refl),
  ((refl, (refl, (refl, (refl, (refl, (refl, (refl, tt)))))), refl), tt),
)
