-- ===== src/Tests/Pages.antt =====
-- The public pages of the site, on concrete renderings.
use blackbox_agent_accountab.Prelude.{
  arith, ◌≡◌, refl, true, false, none, some, List, [], ◌∷◌, ◌||◌, if◌then◌else◌,
}
use blackbox_agent_accountab.Js.{is_space}
use blackbox_agent_accountab.Js.Hexadecimal.{parse_hex}
use blackbox_agent_accountab.Contrast.{hex_to_rgb}
use blackbox_agent_accountab.Contrast.Hex.{to_hex, hex_to_rgb-to_hex}
use blackbox_agent_accountab.Site.Landing.{pad_start}
use blackbox_agent_accountab.Site.Places.{Showing, sessions_page, document}
use blackbox_agent_accountab.Site.Places.Links.{AllLead, document-AllLead}
use blackbox_agent_accountab.Site.Section.{
  rendered, Happens, mounts, observes, prefers, history, opacity, transition,
}
use blackbox_agent_accountab.Site.Section.Opacity.{last_preference, came_into_view, opacity_refines}
use blackbox_agent_accountab.Site.Robots.{robots}
use blackbox_agent_accountab.Site.Robots.Crawling.{hidden}

abbrev showing : Showing
showing = record {
  loading = false;
  updated = true;
  body_ratio = "15.45";
  body_passes = true;
  accent_ratio = "4.85";
  accent_passes = true;
  reduced_motion = false;
}

pad_start_test : (pad_start "1" ≡ "01") × (pad_start "12" ≡ "12") × (pad_start "" ≡ "00")
pad_start_test = (refl, refl, refl)

document-AllLead_example : AllLead (document showing sessions_page)
document-AllLead_example = document-AllLead sessions_page showing refl

abbrev scrolled : List Happens
scrolled = observes false (true ∷ []) ∷ prefers false ∷ observes true [] ∷ observes false [] ∷ []

-- A section that was seen only for reduced motion is hidden when the preference ends.
opacity_test :
    (opacity (history (mounts true ∷ []) rendered) ≡ 1)
    × (opacity (history (mounts true ∷ prefers false ∷ []) rendered) ≡ 0)
    × (transition (history (mounts true ∷ []) rendered) ≡ "none")
unfolding opacity transition blackbox_agent_accountab.Site.Section.step
opacity_test = (refl, refl, refl)

opacity_refines_example :
    opacity (history (mounts true ∷ scrolled) rendered)
    ≡ (if last_preference true scrolled || came_into_view scrolled then 1 else 0)
opacity_refines_example = opacity_refines true scrolled refl

-- The rules name the pages below the sessions page, and not that page.
hidden_test :
    (hidden (robots "https://x.io") "/app/team" ≡ true)
    × (hidden (robots "https://x.io") "/app" ≡ false)
unfolding robots
hidden_test = (refl, refl)

parse_hex_test :
    (parse_hex "B4" ≡ some 180)
    × (parse_hex "1g" ≡ some 1)
    × (parse_hex "g1" ≡ none)
    × (parse_hex "0x" ≡ none)
    × (parse_hex "" ≡ none)
unfolding parse_hex is_space
parse_hex_test = (refl, refl, refl, refl, refl)

hex_to_rgb-to_hex_example : hex_to_rgb (to_hex 180 69 31) ≡ (some 180, some 69, some 31)
hex_to_rgb-to_hex_example = hex_to_rgb-to_hex 180 69 31 (omega arith) (omega arith) (omega arith)

to_hex_test : to_hex 180 69 31 ≡ "#b4451f"
to_hex_test = refl
