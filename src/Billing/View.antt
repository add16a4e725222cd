-- ===== src/Billing/View.antt =====
-- frontend/app/app/billing/page.tsx:
-- What the page renders.
use blackbox_agent_accountab.Prelude.{
  ℕ, ◌+◌, ◌*◌, ◌/◌, String, Bool, true, false, not, ◌||◌, Option, none, some, List, [], ◌∷◌, ◌++◌,
  if◌then◌else◌, ◌===◌, ◌==◌, ltb, present, or_else,
}
use blackbox_agent_accountab.Js.{template, to_string}
use blackbox_agent_accountab.View.{Node, text, button, when}
use blackbox_agent_accountab.Billing.{
  Usage, Busy, checkout, portal, Page, Event, click_upgrade, click_manage,
}

-- `plan?.plan === "pro"`
abbrev pub is_pro : Option String → Bool
is_pro none = false
is_pro (some p) = p === "pro"

-- `Math.min(100, Math.round((used / limit) * 100))`, computed exactly, or 0 where the limit is 0. A
-- negative limit is left out.
unfoldable pub percent : Option Usage → ℕ
percent none = 0
percent (some u) =
    if u.limit == 0
    then 0
    else let rounded = (200 * u.hosted_audits_used + u.limit) / (2 * u.limit) in
      if ltb rounded 100 then rounded else 100

abbrev pub is_checkout : Busy → Bool
is_checkout checkout = true
is_checkout _ = false

abbrev pub is_portal : Busy → Bool
is_portal portal = true
is_portal _ = false

abbrev plan_tag : Page → String
plan_tag s = or_else s.plan (if present s.err then "unreachable" else "checking…")

-- The count of audits, and the width of the meter.
abbrev pub show_usage : Option Usage → List (Node Event)
show_usage none = []
show_usage (some u) =
    text (
      template (
        "Hosted tribunal audits this month: "
        ∷ to_string u.hosted_audits_used
        ∷ " / "
        ∷ to_string u.limit
        ∷ []))
    ∷ text (template (to_string (percent (some u)) ∷ "%" ∷ []))
    ∷ []

abbrev pub show_upgrade : Page → Node Event
show_upgrade s =
    button (if is_checkout s.busy then "Redirecting…" else "Upgrade to Pro")
      (not (present s.email) || is_checkout s.busy) click_upgrade

abbrev pub show_manage : Page → Node Event
show_manage s =
    button (if is_portal s.busy then "Redirecting…" else "Manage subscription") (is_portal s.busy)
      click_manage

abbrev pub show_plan : Page → List (Node Event)
show_plan s =
    text (plan_tag s)
    ∷ (show_usage s.usage
        ++ (when (not (is_pro s.plan)) (show_upgrade s ∷ [])
            ++ (when (is_pro s.plan) (show_manage s ∷ [])
                ++ when (present s.err) (text (or_else s.err "") ∷ []))))

unfoldable pub view : Page → List (Node Event)
view s =
    when s.just_upgraded (text "Thanks for upgrading. Your plan will update in a moment." ∷ [])
    ++ ((if s.loading then text "Loading your plan…" ∷ [] else show_plan s)
        ++ when (not (is_pro s.plan)) (text "Prefer to skip metering entirely?" ∷ []))
