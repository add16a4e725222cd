-- ===== src/Dashboard/Team.antt =====
-- The team page, frontend/app/app/team/page.tsx, beside the session hook.
use blackbox_agent_accountab.Prelude.{
  ℕ, refl, inl, inr, String, false, not, same, Option, none, some, Result, ok, truthy,
}
use blackbox_agent_accountab.Runtime.{Prog, done, act}
use blackbox_agent_accountab.Dashboard.{Holds, Guarded}
use blackbox_agent_accountab.Dashboard.Loyal.{
  Loyal, Loyal-only_if, Loyal-with_token, Loyal-then_do, Loyal-await_all, LoyalTo, guard,
}
use blackbox_agent_accountab.Dashboard.Provision.{Holds_at}
use blackbox_agent_accountab.Team.{
  Page, Req, Reply, get_members, get_invites, wire, refresh, invite, then_refresh, revoke_invite,
  change_role, remove_member,
}
use blackbox_agent_accountab.Team.Events.{
  Event, session, user, type_email, choose_role, click_invite, click_revoke, click_role,
  click_remove, confirm_expires, handle,
}

abbrev pub token : Page → Option String
token s = s.token

abbrev pub brings : Event → Option String
brings (session t) = t
brings _ = none

-- The token that a call carries.
pub bearer : Req → String
unfolding wire
bearer r = (wire r).1.token

module _ (T : String → Type 0) where
  abbrev Faithful : Prog Page Req Reply → Type 0
  Faithful p = Loyal token (λ q. T (bearer q)) p

  refresh-Loyal : (s : Page) → Holds T (token s) → Faithful (refresh s)
  unfolding refresh bearer
  refresh-Loyal s h = Loyal-with_token token _ s.token _ λ t e i.
      let b = Holds_at T s.token t h e i in
      Loyal-await_all {R = Reply} token (λ q. T (bearer q)) (get_members t) (get_invites t)
        (λ ms is. act (λ u. record u { members = ms; invites = is }) done)
        (λ x. act (λ u. record u { err = some x }) done) b b (λ ms is. (λ u. refl, tt))
        (λ x. (λ u. refl, tt))

  invite-Loyal : (s : Page) → Holds T (token s) → Faithful (invite s)
  unfolding invite bearer
  invite-Loyal s h = Loyal-with_token token _ s.token _ λ t e i.
      Loyal-only_if token _ (truthy s.email) _ (
        λ u. refl,
        (
          Holds_at T s.token t h e i,
          elim [
            | ok _ ↦ (
              λ u. refl,
              Loyal-then_do token _ (refresh s) _ (refresh-Loyal s h) (λ u. refl, (λ u. refl, tt)),
            )
            | Result.err x ↦ (λ u. refl, (λ u. refl, tt))
          ],
        ),
      )

  then_refresh-Loyal :
      (s : Page) (x : Result (Unit {0})) → Holds T (token s) → Faithful (then_refresh s x)
  unfolding refresh
  then_refresh-Loyal s (ok _) h = refresh-Loyal s h
  then_refresh-Loyal s (Result.err e) h = (λ u. refl, tt)

  revoke_invite-Loyal : (id : ℕ) (s : Page) → Holds T (token s) → Faithful (revoke_invite id s)
  unfolding revoke_invite bearer
  revoke_invite-Loyal id s h =
      Loyal-with_token token _ s.token _
        λ t e i. (Holds_at T s.token t h e i, λ x. then_refresh-Loyal s x h)

  change_role-Loyal :
      (id role : String) (s : Page) → Holds T (token s) → Faithful (change_role id role s)
  unfolding change_role bearer
  change_role-Loyal id role s h =
      Loyal-with_token token _ s.token _
        λ t e i. (Holds_at T s.token t h e i, λ x. then_refresh-Loyal s x h)

  remove_member-Loyal : (id : String) (s : Page) → Holds T (token s) → Faithful (remove_member id s)
  unfolding remove_member bearer
  remove_member-Loyal id s h =
      Loyal-with_token token _ s.token _
        λ t e i. (Holds_at T s.token t h e i, λ x. then_refresh-Loyal s x h)

  pub handle-LoyalTo :
      (e : Event) (s : Page)
      → Holds T (brings e)
      → Holds T (token s)
      → LoyalTo token (λ q. T (bearer q)) (brings e) (handle e s)
  unfolding handle
  handle-LoyalTo (session t) s b h = inr (
    (λ u. record u { token = t; session_loading = false }),
    _,
    refl,
    (λ u. refl),
    (
      λ u. refl,
      Loyal-only_if token _ (not (same s.token t)) _ (refresh-Loyal (record s { token = t }) b),
    ),
  )
  handle-LoyalTo (user id) s b h = inl (λ u. refl, tt)
  handle-LoyalTo (type_email x) s b h = inl (λ u. refl, tt)
  handle-LoyalTo (choose_role x) s b h = inl (λ u. refl, tt)
  handle-LoyalTo click_invite s b h = inl (invite-Loyal s h)
  handle-LoyalTo (click_revoke id) s b h = inl (revoke_invite-Loyal id s h)
  handle-LoyalTo (click_role id role) s b h = inl (change_role-Loyal id role s h)
  handle-LoyalTo (click_remove id) s b h = inl (remove_member-Loyal id s h)
  handle-LoyalTo confirm_expires s b h = inl (λ u. refl, tt)

-- The page as the hook sees it.
abbrev pub team_page : Guarded Event Page Req Reply
team_page = guard handle token brings bearer handle-LoyalTo
