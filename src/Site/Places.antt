-- ===== src/Site/Places.antt =====
-- The pages of frontend/app, by their addresses, and the links on them: frontend/app/layout.tsx,
-- frontend/components/TopNav.tsx and the pages themselves.
--
-- Of the pages of the workspace, of log-in and of the ways into it, only the links and the elements
-- with an `id` are here; their own modules have the rest.
pub mod Links
use Prim.Native.String
use blackbox_agent_accountab.Prelude.{
  String, Bool, true, false, not, ◌&&◌, ◌||◌, Option, none, some, List, [], ◌∷◌, ◌++◌, map,
  if◌then◌else◌, ◌===◌,
}
use blackbox_agent_accountab.Js.{has_prefix}
use blackbox_agent_accountab.TopNav.{Link, links}
use blackbox_agent_accountab.Site.{Hyperlink, Element, text, anchor, a, link}
use blackbox_agent_accountab.Site.Landing.{landing}
use blackbox_agent_accountab.Site.Legal.{privacy, terms, accessibility, not_found}

pub data Place : Type 0 where
  home privacy_page terms_page accessibility_page login_page callback_page reset_page : Place
  sessions_page insights_page team_page keys_page billing_page settings_page : Place
  -- every address that is no page's
  missing : Place

-- The address of a page, by the directory of its file.
abbrev pub path : Place → Option String
path home = some "/"
path privacy_page = some "/privacy"
path terms_page = some "/terms"
path accessibility_page = some "/accessibility"
path login_page = some "/login"
path callback_page = some "/auth/callback"
path reset_page = some "/auth/reset"
path sessions_page = some "/app"
path insights_page = some "/app/insights"
path team_page = some "/app/team"
path keys_page = some "/app/keys"
path billing_page = some "/app/billing"
path settings_page = some "/app/settings"
path missing = none

abbrev pub pages : List Place
pages =
    home ∷ privacy_page ∷ terms_page ∷ accessibility_page ∷ login_page ∷ callback_page ∷ reset_page
    ∷ sessions_page ∷ insights_page ∷ team_page ∷ keys_page ∷ billing_page ∷ settings_page ∷ []

-- What the pages are rendered with: whether the session is loading, whether the password was updated,
-- what contrast.ts says of two pairs of colours, and whether reduced motion is asked for.
pub record Showing : Type 0 where
  pub loading : Bool
  pub updated : Bool
  pub body_ratio : String
  pub body_passes : Bool
  pub accent_ratio : String
  pub accent_passes : Bool
  pub reduced_motion : Bool

abbrev pub nav_link : Link → Element
nav_link l = link l.href l.label

abbrev pub top_nav : List Element
top_nav = link "/app" "TELUVANE" ∷ map nav_link links

-- A page of the workspace with these links of its own.
abbrev pub workspace_page : List Element → List Element
workspace_page es = top_nav ++ anchor "main-content" ∷ es

-- A page that has nothing but a text while the session is loading.
abbrev pub once_loaded : Bool → List Element → List Element
once_loaded loading es = if loading then text "Loading…" ∷ [] else es

abbrev pub content : Showing → Place → List Element
content s home = landing
content s privacy_page = privacy
content s terms_page = terms
content s accessibility_page =
    accessibility s.body_ratio s.body_passes s.accent_ratio s.accent_passes s.reduced_motion
content s login_page = anchor "main-content" ∷ []
content s callback_page = anchor "main-content" ∷ link "/login" "Go to log in" ∷ []
content s reset_page =
    anchor "main-content" ∷ (if s.updated then [] else link "/login" "Back to log in" ∷ [])
content s sessions_page = once_loaded s.loading (workspace_page [])
content s insights_page = once_loaded s.loading (workspace_page [])
content s team_page = once_loaded s.loading (workspace_page [])
content s keys_page = workspace_page (link "/app" "Sessions" ∷ [])
content s billing_page = workspace_page (link "/app/settings" "Settings" ∷ [])
content s settings_page = workspace_page []
content s missing = not_found

-- The document: layout.tsx around the page.
unfoldable pub document : Showing → Place → List Element
unfolding landing accessibility
document s p = link "#main-content" "Skip to content" ∷ content s p
