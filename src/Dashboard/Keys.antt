-- ===== src/Dashboard/Keys.antt =====
-- The page of the API keys, frontend/app/app/keys/page.tsx, beside the session hook.
use blackbox_agent_accountab.Prelude.{
  ℕ, refl, inl, inr, String, false, not, same, Option, none, Result, ok, truthy,
}
use blackbox_agent_accountab.Runtime.{Prog}
use blackbox_agent_accountab.Dashboard.{Holds, Guarded}
use blackbox_agent_accountab.Dashboard.Loyal.{
  Loyal, Loyal-only_if, Loyal-with_token, LoyalTo, guard,
}
use blackbox_agent_accountab.Dashboard.Provision.{Holds_at}
use blackbox_agent_accountab.Keys.{
  Page, Req, Reply, wire, refresh, create, revoke, Event, session, type_name, click_create,
  click_revoke, confirm_expires, handle,
}

abbrev pub token : Page → Option String
token s = s.token

abbrev pub brings : Event → Option String
brings (session t) = t
brings _ = none

-- The token that a call carries.
pub bearer : Req → String
unfolding wire
bearer r = (wire r).1.token

module _ (T : String → Type 0) where
  abbrev Faithful : Prog Page Req Reply → Type 0
  Faithful p = Loyal token (λ q. T (bearer q)) p

  refresh-Loyal : (s : Page) → Holds T (token s) → Faithful (refresh s)
  unfolding refresh bearer
  refresh-Loyal s h = Loyal-with_token token _ s.token _ λ t e i. (
    Holds_at T s.token t h e i,
    elim [ ok ks ↦ (λ u. refl, tt) | Result.err x ↦ (λ u. refl, tt) ],
  )

  create-Loyal : (s : Page) → Holds T (token s) → Faithful (create s)
  unfolding create bearer
  create-Loyal s h = Loyal-with_token token _ s.token _ λ t e i.
      Loyal-only_if token _ (truthy s.name) _ (
        λ u. refl,
        (
          Holds_at T s.token t h e i,
          elim [ ok key ↦ (λ u. refl, (refresh-Loyal s h, tt)) | Result.err x ↦ (λ u. refl, tt) ],
        ),
      )

  revoke-Loyal : (id : ℕ) (s : Page) → Holds T (token s) → Faithful (revoke id s)
  unfolding revoke bearer
  revoke-Loyal id s h = Loyal-with_token token _ s.token _ λ t e i. (
    Holds_at T s.token t h e i,
    elim [ ok _ ↦ (refresh-Loyal s h, (λ u. refl, tt)) | Result.err x ↦ (λ u. refl, tt) ],
  )

  pub handle-LoyalTo :
      (e : Event) (s : Page)
      → Holds T (brings e)
      → Holds T (token s)
      → LoyalTo token (λ q. T (bearer q)) (brings e) (handle e s)
  unfolding handle
  handle-LoyalTo (session t) s b h = inr (
    (λ u. record u { token = t; session_loading = false }),
    _,
    refl,
    (λ u. refl),
    (
      λ u. refl,
      Loyal-only_if token _ (not (same s.token t)) _ (refresh-Loyal (record s { token = t }) b),
    ),
  )
  handle-LoyalTo (type_name n) s b h = inl (λ u. refl, tt)
  handle-LoyalTo click_create s b h = inl (create-Loyal s h)
  handle-LoyalTo (click_revoke id) s b h = inl (revoke-Loyal id s h)
  handle-LoyalTo confirm_expires s b h = inl (λ u. refl, tt)

-- The page as the hook sees it.
abbrev pub keys_page : Guarded Event Page Req Reply
keys_page = guard handle token brings bearer handle-LoyalTo
