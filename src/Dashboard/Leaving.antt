-- ===== src/Dashboard/Leaving.antt =====
-- The pages of frontend/app/app when the session ends: the effect that leads to the log-in page.
use blackbox_agent_accountab.Prelude.{
  ◌≡◌, ◌≢◌, refl, inl, inr, String, ℕ, true, Option, none, some, List, [], ◌∷◌, Any,
  Any-append_left, Any-append_right, truthy, present, or_else, arith,
}
use blackbox_agent_accountab.Runtime.{advance}
use blackbox_agent_accountab.View.{Node, text, when}
use blackbox_agent_accountab.Dashboard.Screens.{
  Screen, sessions, insights, team, keys, billing, settings, EventOf, StateOf, guarded,
}
use blackbox_agent_accountab.Workspace
use blackbox_agent_accountab.Workspace.Events
use blackbox_agent_accountab.Insights
use blackbox_agent_accountab.Keys
use blackbox_agent_accountab.Team
use blackbox_agent_accountab.Team.Events as TeamEvents
use blackbox_agent_accountab.Billing
use blackbox_agent_accountab.Settings
use blackbox_agent_accountab.Settings.Events as SettingsEvents
use blackbox_agent_accountab.Settings.View as SettingsView

-- The hook reports that nobody is signed in.
abbrev pub signs_out : (p : Screen) → EventOf p
signs_out sessions = Events.session none
signs_out insights = Insights.session none
signs_out team = TeamEvents.session none
signs_out keys = Keys.session none
signs_out billing = Billing.session none
signs_out settings = SettingsEvents.session none

-- What the page has told the router, the last first; the settings page has no router.
abbrev pub pushed : (p : Screen) → StateOf p → List String
pushed sessions s = s.pushed
pushed insights s = s.pushed
pushed team s = s.pushed
pushed keys s = s.pushed
pushed billing s = s.pushed
pushed settings s = []

-- On every page but the settings page, and whatever its state with a token: when the hook reports that
-- nobody is signed in, the page has no token, goes to the log-in page and makes no call.
pub signed_out_leaves :
    (p : Screen) (s : StateOf p) (t : String)
    → p ≢ settings
    → (guarded p).token s ≡ some t
    → let (u, calls) = advance ((guarded p).handle (signs_out p) s) s in
      ((guarded p).token u ≡ none) × (pushed p u ≡ "/login" ∷ pushed p s) × (calls ≡ [])
unfolding Events.handle Insights.handle TeamEvents.handle Keys.handle Billing.handle
    Workspace.load_sessions Insights.refresh Team.refresh Keys.refresh Billing.refresh
signed_out_leaves sessions s t h e = rw e (refl, ground arith, refl)
signed_out_leaves insights s t h e = rw e (refl, ground arith, refl)
signed_out_leaves team s t h e = rw e (refl, ground arith, refl)
signed_out_leaves keys s t h e = rw e (refl, ground arith, refl)
signed_out_leaves billing s t h e = rw e (refl, ground arith, refl)
signed_out_leaves settings s t h e = absurd (h refl)

module _ (number : String → ℕ) (locale : String → String) (secret : String)
    (nonempty : truthy secret ≡ true) where
  abbrev IsSecret : Node SettingsEvents.Event → Type 0
  IsSecret n = n ≡ text secret

  shown_secret :
      (o : Option String)
      → o ≡ some secret
      → Any IsSecret (when (present o) (text (or_else o "") ∷ []))
  shown_secret o e = rw (e, nonempty) (inl refl)

  view-Shows :
      (u : Settings.Page)
      → SettingsView.secret_of u.webhook ≡ some secret
      → Any IsSecret (SettingsView.view number locale u)
  unfolding SettingsView.view
  view-Shows u e = Any-append_right IsSecret (SettingsView.show_byok u) _ (
      Any-append_right IsSecret (SettingsView.show_framework u) _ (
        Any-append_right IsSecret (SettingsView.show_rules u) _ (
          Any-append_right IsSecret (SettingsView.show_schedule number locale u) _ (
            inr
              (Any-append_left IsSecret _ _ (shown_secret (SettingsView.secret_of u.webhook) e))))))

  -- On the settings page, with a token and a webhook whose secret is not empty: when the hook reports
  -- that nobody is signed in, the page has no token and makes no call, and it still shows the secret.
  pub signed_out_shows_secret :
      (s : Settings.Page) (t : String)
      → s.token ≡ some t
      → SettingsView.secret_of s.webhook ≡ some secret
      → let (u, calls) = advance (SettingsEvents.handle (SettingsEvents.session none) s) s in
        (u.token ≡ none) × (calls ≡ []) × Any IsSecret (SettingsView.view number locale u)
  unfolding SettingsEvents.handle
  signed_out_shows_secret s t e h =
      let u : Settings.Page = record s { token = none } in rw e (refl, refl, view-Shows u h)
