-- ===== src/Dashboard/Insights.antt =====
-- The insights page, frontend/app/app/insights/page.tsx, beside the session hook.
use blackbox_agent_accountab.Prelude.{
  refl, inl, inr, String, false, not, ◌==◌, same, Option, none, [], All, Result, ok,
}
use blackbox_agent_accountab.Runtime.Sends.{Waits}
use blackbox_agent_accountab.Session
use blackbox_agent_accountab.Session.{start}
use blackbox_agent_accountab.Session.Provisioned.{Provided}
use blackbox_agent_accountab.Runtime.{Prog, World, Reach}
use blackbox_agent_accountab.Dashboard.{Holds, Guarded, Joint}
use blackbox_agent_accountab.Dashboard.Loyal.{
  Loyal, Loyal-only_if, Loyal-with_token, LoyalTo, guard,
}
use blackbox_agent_accountab.Dashboard.Provision.{Holds_at, calls-Provided}
use blackbox_agent_accountab.Insights.{
  Page, Req, Reply, wire, refresh, Event, session, click_range, enters_bar, leaves_bar, draws,
  handle,
}

abbrev pub token : Page → Option String
token s = s.token

abbrev pub brings : Event → Option String
brings (session t) = t
brings _ = none

-- The token that a call carries.
pub bearer : Req → String
unfolding wire
bearer r = (wire r).1.token

module _ (T : String → Type 0) where
  abbrev Faithful : Prog Page Req Reply → Type 0
  Faithful p = Loyal token (λ q. T (bearer q)) p

  refresh-Loyal : (s : Page) → Holds T (token s) → Faithful (refresh s)
  unfolding refresh bearer
  refresh-Loyal s h = Loyal-with_token token _ s.token _ λ t e i. (
    Holds_at T s.token t h e i,
    elim [ ok ps ↦ (λ u. refl, tt) | Result.err x ↦ (λ u. refl, tt) ],
  )

  pub handle-LoyalTo :
      (e : Event) (s : Page)
      → Holds T (brings e)
      → Holds T (token s)
      → LoyalTo token (λ q. T (bearer q)) (brings e) (handle e s)
  unfolding handle
  handle-LoyalTo (session t) s b h = inr (
    (λ u. record u { token = t; session_loading = false }),
    _,
    refl,
    (λ u. refl),
    (
      λ u. refl,
      Loyal-only_if token _ (not (same s.token t)) _ (refresh-Loyal (record s { token = t }) b),
    ),
  )
  handle-LoyalTo (click_range r) s b h = inl (
    λ u. refl,
    Loyal-only_if token _ (not (s.days == r)) _ (refresh-Loyal (record s { days = r }) h),
  )
  handle-LoyalTo (enters_bar i) s b h = inl (Loyal-only_if token _ (draws s i) _ (λ u. refl, tt))
  handle-LoyalTo leaves_bar s b h = inl (λ u. refl, tt)

-- The page as the hook sees it.
abbrev pub insights_page : Guarded Event Page Req Reply
insights_page = guard handle token brings bearer handle-LoyalTo

-- The insights page beside the session hook, from a page with no token on, and in whatever order
-- sign-ins, clicks and replies come: a call of the page that waits carries a token for which a call
-- of `ensureOrg` has settled.
pub insights_calls-Provided :
    {v : World Session.Session Session.Req Session.Reply}
    {r : Reach Session.handle (record { state = start; tasks = [] }) v} {w : World Page Req Reply}
    → Joint insights_page v r w
    → All (Waits (λ q. Provided (bearer q) r)) w.tasks
insights_calls-Provided j = calls-Provided insights_page j
