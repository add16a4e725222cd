-- ===== src/Dashboard/Screens.antt =====
-- The pages of frontend/app/app, each beside the session hook.
use blackbox_agent_accountab.Prelude.{[], All}
use blackbox_agent_accountab.Runtime.{World, Reach}
use blackbox_agent_accountab.Runtime.Sends.{Waits}
use blackbox_agent_accountab.Session
use blackbox_agent_accountab.Session.{start}
use blackbox_agent_accountab.Session.Provisioned.{Provided}
use blackbox_agent_accountab.Dashboard.{Guarded, Joint}
use blackbox_agent_accountab.Dashboard.Provision.{calls-Provided}
use blackbox_agent_accountab.Dashboard.Sessions.{sessions_page}
use blackbox_agent_accountab.Dashboard.Insights.{insights_page}
use blackbox_agent_accountab.Dashboard.Keys.{keys_page}
use blackbox_agent_accountab.Dashboard.Team.{team_page}
use blackbox_agent_accountab.Dashboard.Billing.{billing_page}
use blackbox_agent_accountab.Dashboard.Settings.{settings_page}
use blackbox_agent_accountab.Workspace
use blackbox_agent_accountab.Workspace.Events
use blackbox_agent_accountab.Insights
use blackbox_agent_accountab.Keys
use blackbox_agent_accountab.Team
use blackbox_agent_accountab.Team.Events as TeamEvents
use blackbox_agent_accountab.Billing
use blackbox_agent_accountab.Settings
use blackbox_agent_accountab.Settings.Events as SettingsEvents

pub data Screen : Type 0 where
  sessions insights team keys billing settings : Screen

abbrev pub EventOf : Screen → Type 0
EventOf sessions = Events.Event
EventOf insights = Insights.Event
EventOf team = TeamEvents.Event
EventOf keys = Keys.Event
EventOf billing = Billing.Event
EventOf settings = SettingsEvents.Event

abbrev pub StateOf : Screen → Type 0
StateOf sessions = Workspace.Page
StateOf insights = Insights.Page
StateOf team = Team.Page
StateOf keys = Keys.Page
StateOf billing = Billing.Page
StateOf settings = Settings.Page

abbrev pub ReqOf : Screen → Type 0
ReqOf sessions = Workspace.Req
ReqOf insights = Insights.Req
ReqOf team = Team.Req
ReqOf keys = Keys.Req
ReqOf billing = Billing.Req
ReqOf settings = Settings.Req

abbrev pub ReplyOf : (p : Screen) → ReqOf p → Type 0
ReplyOf sessions = Workspace.Reply
ReplyOf insights = Insights.Reply
ReplyOf team = Team.Reply
ReplyOf keys = Keys.Reply
ReplyOf billing = Billing.Reply
ReplyOf settings = Settings.Reply

abbrev pub guarded : (p : Screen) → Guarded (EventOf p) (StateOf p) (ReqOf p) (ReplyOf p)
guarded sessions = sessions_page
guarded insights = insights_page
guarded team = team_page
guarded keys = keys_page
guarded billing = billing_page
guarded settings = settings_page

-- Each page of the workspace beside the session hook, from a page with no token on, and in whatever
-- order sign-ins, the user's events, timers and replies come: a call of the page that waits carries a
-- token for which a call of `ensureOrg` has settled.
pub screen_calls-Provided :
    (p : Screen) {v : World Session.Session Session.Req Session.Reply}
    {r : Reach Session.handle (record { state = start; tasks = [] }) v}
    {w : World (StateOf p) (ReqOf p) (ReplyOf p)}
    → Joint (guarded p) v r w
    → All (Waits (λ q. Provided ((guarded p).bearer q) r)) w.tasks
screen_calls-Provided p j = calls-Provided (guarded p) j
