-- ===== src/Dashboard/Billing.antt =====
-- The billing page, frontend/app/app/billing/page.tsx, beside the session hook.
use blackbox_agent_accountab.Prelude.{
  refl, inl, inr, String, false, not, same, Option, none, some, Result, ok,
}
use blackbox_agent_accountab.Runtime.{Prog, act}
use blackbox_agent_accountab.Dashboard.{Holds, Guarded}
use blackbox_agent_accountab.Dashboard.Loyal.{
  Loyal, Loyal-only_if, Loyal-with_token, Loyal-await_all, LoyalTo, guard,
}
use blackbox_agent_accountab.Dashboard.Provision.{Holds_at}
use blackbox_agent_accountab.Billing.{
  Page, Req, Reply, get_plan, get_usage, loaded, refresh_failed, wire, refresh, redirected, upgrade,
  manage, Event, session, mounts, user, click_upgrade, click_manage, handle,
}

abbrev pub token : Page → Option String
token s = s.token

abbrev pub brings : Event → Option String
brings (session t) = t
brings _ = none

-- The token that a call carries.
pub bearer : Req → String
unfolding wire
bearer r = (wire r).1.token

module _ (T : String → Type 0) where
  abbrev Faithful : Prog Page Req Reply → Type 0
  Faithful p = Loyal token (λ q. T (bearer q)) p

  refresh-Loyal : (s : Page) → Holds T (token s) → Faithful (refresh s)
  unfolding refresh bearer
  refresh-Loyal s h = Loyal-with_token token _ s.token _ λ t e i.
      let b = Holds_at T s.token t h e i in
      Loyal-await_all token _ (get_plan t) (get_usage t)
        (λ p u. act (λ v. record v { plan = some p; usage = some u }) loaded) refresh_failed b b
        (λ p u. (λ v. refl, (λ v. refl, tt))) (λ x. (λ v. refl, (λ v. refl, tt)))

  redirected-Loyal : (x : Result String) → Faithful (redirected x)
  redirected-Loyal (ok url) = (λ u. refl, tt)
  redirected-Loyal (Result.err e) = (λ u. refl, (λ u. refl, tt))

  upgrade-Loyal : (s : Page) → Holds T (token s) → Faithful (upgrade s)
  unfolding upgrade bearer
  upgrade-Loyal s h = Loyal-with_token token _ s.token _ λ t e i.
      Loyal-with_token token _ s.email _
        λ email e' i'. (λ u. refl, (Holds_at T s.token t h e i, redirected-Loyal))

  manage-Loyal : (s : Page) → Holds T (token s) → Faithful (manage s)
  unfolding manage bearer
  manage-Loyal s h =
      Loyal-with_token token _ s.token _
        λ t e i. (λ u. refl, (Holds_at T s.token t h e i, redirected-Loyal))

  pub handle-LoyalTo :
      (e : Event) (s : Page)
      → Holds T (brings e)
      → Holds T (token s)
      → LoyalTo token (λ q. T (bearer q)) (brings e) (handle e s)
  unfolding handle
  handle-LoyalTo (session t) s b h = inr (
    (λ u. record u { token = t; session_loading = false }),
    _,
    refl,
    (λ u. refl),
    (
      λ u. refl,
      Loyal-only_if token _ (not (same s.token t)) _ (refresh-Loyal (record s { token = t }) b),
    ),
  )
  handle-LoyalTo mounts s b h = inl (λ u. refl, tt)
  handle-LoyalTo (user email) s b h = inl (λ u. refl, tt)
  handle-LoyalTo click_upgrade s b h = inl (upgrade-Loyal s h)
  handle-LoyalTo click_manage s b h = inl (manage-Loyal s h)

-- The page as the hook sees it.
abbrev pub billing_page : Guarded Event Page Req Reply
billing_page = guard handle token brings bearer handle-LoyalTo
