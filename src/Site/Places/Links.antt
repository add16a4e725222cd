-- ===== src/Site/Places/Links.antt =====
-- frontend/app and frontend/components:
-- Where the links of the pages lead.
use Prim.Native.String
use blackbox_agent_accountab.Prelude.{
  ◌≡◌, refl, String, Bool, true, false, not, ◌&&◌, ◌||◌, some, List, [], ◌∷◌, if◌then◌else◌, ◌===◌,
  same, Bool-cases, inl, inr,
}
use blackbox_agent_accountab.Js.{has_prefix}
use blackbox_agent_accountab.Site.{Hyperlink, Element, anchor, a}
use blackbox_agent_accountab.Site.Places.{
  Place, home, privacy_page, terms_page, accessibility_page, login_page, callback_page, reset_page,
  sessions_page, insights_page, team_page, keys_page, billing_page, settings_page, missing, path,
  pages, Showing, document,
}

abbrev some_place : String → List Place → Bool
some_place href [] = false
some_place href (p ∷ ps) = same (path p) (some href) || some_place href ps

abbrev has_anchor : String → List Element → Bool
has_anchor href [] = false
has_anchor href (anchor id ∷ es) = (String.◌++◌ "#" id === href) || has_anchor href es
has_anchor href (_ ∷ es) = has_anchor href es

-- In a document: a link within it leads to an element of it, a link to another site opens in a new
-- tab that has no hold on this one, and any other link leads to a page and stays in the tab.
abbrev leads : List Element → Hyperlink → Bool
leads doc l =
    if has_prefix "#" l.href
    then has_anchor l.href doc && not l.new_tab
    else (if has_prefix "http" l.href
        then l.new_tab && same l.rel (some "noopener")
        else (some_place l.href pages && not l.new_tab))

abbrev links_lead : List Element → List Element → Bool
links_lead doc [] = true
links_lead doc (a l ∷ es) = leads doc l && links_lead doc es
links_lead doc (_ ∷ es) = links_lead doc es

-- In the document of a page every link leads somewhere.
abbrev pub AllLead : List Element → Type 0
AllLead doc = links_lead doc doc ≡ true

-- On every page, once the session is not loading, and whatever else it is rendered with: each link
-- within the page leads to an element of it, each link to another site opens in a new tab with
-- "noopener", and each other link leads to a page.
pub document-AllLead : (p : Place) (s : Showing) → s.loading ≡ false → AllLead (document s p)
unfolding document
document-AllLead home s h = refl
document-AllLead privacy_page s h = refl
document-AllLead terms_page s h = refl
document-AllLead accessibility_page s h = refl
document-AllLead login_page s h = refl
document-AllLead callback_page s h = refl
document-AllLead reset_page s h = elim (Bool-cases s.updated) [
  | inl updated ↦ rw updated refl
  | inr before ↦ rw before refl
]
document-AllLead sessions_page s h = rw h refl
document-AllLead insights_page s h = rw h refl
document-AllLead team_page s h = rw h refl
document-AllLead keys_page s h = refl
document-AllLead billing_page s h = refl
document-AllLead settings_page s h = refl
document-AllLead missing s h = refl
