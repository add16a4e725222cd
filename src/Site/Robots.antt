-- ===== src/Site/Robots.antt =====
-- frontend/app/robots.ts and frontend/app/sitemap.ts: what crawlers are told of the site.
--
-- The variables of the environment are parameters.
pub mod Crawling
use blackbox_agent_accountab.Prelude.{
  ℕ, String, Bool, true, false, Option, none, some, List, [], ◌∷◌, if◌then◌else◌, present, or_else,
}
use blackbox_agent_accountab.Js.{template}

-- `siteUrl`, from NEXT_PUBLIC_SITE_URL and VERCEL_PROJECT_PRODUCTION_URL
unfoldable pub site_url : Option String → Option String → String
site_url (some url) production = url
site_url none production =
    if present production
    then template ("https://" ∷ or_else production "" ∷ [])
    else "http://localhost:3000"

pub record Robots : Type 0 where
  pub user_agent : String
  pub allow : String
  pub disallow : List String
  pub sitemap_url : String

unfoldable pub robots : String → Robots
robots site = record {
  user_agent = "*";
  allow = "/";
  disallow = "/app/" ∷ "/auth/" ∷ [];
  sitemap_url = template (site ∷ "/sitemap.xml" ∷ []);
}

-- An entry of the sitemap, with its priority in tenths.
pub record SiteEntry : Type 0 where
  pub url : String
  pub last_modified : String
  pub change_frequency : String
  pub priority : ℕ

-- The sitemap at the time `now`.
unfoldable pub sitemap : String → String → List SiteEntry
sitemap site now =
    record { url = site; last_modified = now; change_frequency = "weekly"; priority = 10 }
    ∷ record {
      url = template (site ∷ "/login" ∷ []);
      last_modified = now;
      change_frequency = "monthly";
      priority = 5;
    }
    ∷ record {
      url = template (site ∷ "/privacy" ∷ []);
      last_modified = now;
      change_frequency = "yearly";
      priority = 2;
    }
    ∷ record {
      url = template (site ∷ "/terms" ∷ []);
      last_modified = now;
      change_frequency = "yearly";
      priority = 2;
    }
    ∷ []
