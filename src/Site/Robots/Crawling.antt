-- ===== src/Site/Robots/Crawling.antt =====
-- frontend/app/robots.ts and frontend/app/sitemap.ts:
-- Which pages the sitemap lists.
use Prim.Native.String
use blackbox_agent_accountab.Prelude.{
  ◌≡◌, refl, String, Bool, false, ◌||◌, Option, some, List, [], ◌∷◌, All,
}
use blackbox_agent_accountab.Js.{has_prefix}
use blackbox_agent_accountab.Site.Places.{Place, home, privacy_page, terms_page, login_page, path}
use blackbox_agent_accountab.Site.Robots.{Robots, robots, SiteEntry, sitemap, site_url}

abbrev any_prefix : List String → String → Bool
any_prefix [] s = false
any_prefix (p ∷ ps) s = has_prefix p s || any_prefix ps s

-- A path that crawlers are told to leave out: a rule is a prefix of it.
abbrev pub hidden : Robots → String → Bool
hidden r p = any_prefix r.disallow p

-- The address of a path of the site; the first page is the site itself.
abbrev pub address : String → Place → String → String
address site home x = site
address site p x = String.◌++◌ site x

-- An entry is the address of a page that crawlers are not told to leave out.
abbrev pub IsOpen : String → SiteEntry → Type 0
IsOpen site e =
    (p : Place) × (x : String) × (path p ≡ some x)
    × (hidden (robots site) x ≡ false)
    × (e.url ≡ address site p x)

-- For every environment and at every time, each entry of the sitemap is the address of a page of the
-- site, and of one that crawlers are not told to leave out.
pub sitemap-IsOpen :
    (public production : Option String) (now : String)
    → let site = site_url public production in All (IsOpen site) (sitemap site now)
unfolding robots sitemap
sitemap-IsOpen public production now = (
  (home, "/", refl, refl, refl),
  (
    (login_page, "/login", refl, refl, refl),
    ((privacy_page, "/privacy", refl, refl, refl), ((terms_page, "/terms", refl, refl, refl), tt)),
  ),
)
