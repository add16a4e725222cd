-- ===== src/Dashboard/Settings.antt =====
-- The settings page, frontend/app/app/settings/page.tsx, beside the session hook.
use blackbox_agent_accountab.Prelude.{
  ◌≡◌, refl, inl, inr, String, Bool, not, same, Option, none, List, Result, ok, truthy,
}
use blackbox_agent_accountab.Runtime.{Prog}
use blackbox_agent_accountab.Dashboard.{Holds, Guarded}
use blackbox_agent_accountab.Dashboard.Loyal.{
  Loyal, Loyal-only_if, Loyal-with_token, Loyal-then_do, Loyal-await_both, LoyalTo, guard,
}
use blackbox_agent_accountab.Dashboard.Provision.{Holds_at}
use blackbox_agent_accountab.Settings.{
  FrameworkInfo, PolicyRule, Page, Req, Reply, get_framework, get_rules, wire,
}
use blackbox_agent_accountab.Settings.Byok.{refresh, byok_done, save, clear}
use blackbox_agent_accountab.Settings.Rules.{
  refresh_rules, got_rules, rule_saved, add_rule, remove_rule,
}
use blackbox_agent_accountab.Settings.Framework.{
  refresh_framework, got_framework, framework_updated, change_framework,
}
use blackbox_agent_accountab.Settings.Schedules.{refresh_schedule, save_schedule}
use blackbox_agent_accountab.Settings.Webhooks.{refresh_webhook, save_webhook, clear_webhook}
use blackbox_agent_accountab.Settings.Events.{
  Event, session, type_key, click_save, click_clear, choose_framework, type_rule_id, type_rule_desc,
  choose_rule_severity, type_rule_keywords, click_add_rule, click_remove_rule, type_interval,
  click_schedule, type_webhook_url, click_save_webhook, click_clear_webhook, confirm_expires,
  refresh_all, handle,
}

abbrev pub token : Page → Option String
token s = s.token

abbrev pub brings : Event → Option String
brings (session t) = t
brings _ = none

-- The token that a call carries.
pub bearer : Req → String
unfolding wire
bearer r = (wire r).1.token

module _ (T : String → Type 0) where
  abbrev Faithful : Prog Page Req Reply → Type 0
  Faithful p = Loyal token (λ q. T (bearer q)) p

  refresh-Loyal : (s : Page) → Holds T (token s) → Faithful (refresh s)
  unfolding refresh bearer
  refresh-Loyal s h = Loyal-with_token token _ s.token _ λ t e i.
      (Holds_at T s.token t h e i, elim [ ok x ↦ (λ u. refl, tt) | Result.err x ↦ (λ u. refl, tt) ])

  refresh_rules-Loyal : (s : Page) → Holds T (token s) → Faithful (refresh_rules s)
  unfolding refresh_rules bearer
  refresh_rules-Loyal s h = Loyal-with_token token _ s.token _ λ t e i.
      (Holds_at T s.token t h e i, elim [ ok x ↦ (λ u. refl, tt) | Result.err x ↦ (λ u. refl, tt) ])

  refresh_framework-Loyal : (s : Page) → Holds T (token s) → Faithful (refresh_framework s)
  unfolding refresh_framework bearer
  refresh_framework-Loyal s h = Loyal-with_token token _ s.token _ λ t e i.
      (Holds_at T s.token t h e i, elim [ ok x ↦ (λ u. refl, tt) | Result.err x ↦ (λ u. refl, tt) ])

  refresh_schedule-Loyal : (s : Page) → Holds T (token s) → Faithful (refresh_schedule s)
  unfolding refresh_schedule bearer
  refresh_schedule-Loyal s h = Loyal-with_token token _ s.token _ λ t e i.
      (Holds_at T s.token t h e i, elim [ ok x ↦ (λ u. refl, tt) | Result.err x ↦ (λ u. refl, tt) ])

  refresh_webhook-Loyal : (s : Page) → Holds T (token s) → Faithful (refresh_webhook s)
  unfolding refresh_webhook bearer
  refresh_webhook-Loyal s h = Loyal-with_token token _ s.token _ λ t e i.
      (Holds_at T s.token t h e i, elim [ ok x ↦ (λ u. refl, tt) | Result.err x ↦ (λ u. refl, tt) ])

  byok_done-Loyal :
      (s : Page) (f : Page → Page) (m : String) (x : Result (Unit {0}))
      → Holds T (token s)
      → ((u : Page) → token (f u) ≡ token u)
      → Faithful (byok_done s f m x)
  unfolding refresh
  byok_done-Loyal s f m (ok _) h k = (k, (refresh-Loyal s h, (λ u. refl, tt)))
  byok_done-Loyal s f m (Result.err e) h k = (λ u. refl, tt)

  save-Loyal : (s : Page) → Holds T (token s) → Faithful (save s)
  unfolding save bearer
  save-Loyal s h = Loyal-with_token token _ s.token _ λ t e i.
      Loyal-only_if token _ (truthy s.key) _ (
        λ u. refl,
        (Holds_at T s.token t h e i, λ x. byok_done-Loyal s _ "Key saved" x h (λ u. refl)),
      )

  clear-Loyal : (s : Page) → Holds T (token s) → Faithful (clear s)
  unfolding clear bearer
  clear-Loyal s h =
      Loyal-with_token token _ s.token _ λ t e i.
        (Holds_at T s.token t h e i, λ x. byok_done-Loyal s _ "Key cleared" x h (λ u. refl))

  rule_saved-Loyal :
      (s : Page) (x : Result (Unit {0})) → Holds T (token s) → Faithful (rule_saved s x)
  unfolding refresh_rules
  rule_saved-Loyal s (ok _) h = (
    λ u. refl,
    Loyal-then_do token _ (refresh_rules s) _ (refresh_rules-Loyal s h)
        (λ u. refl, (λ u. refl, tt)),
  )
  rule_saved-Loyal s (Result.err e) h = (λ u. refl, (λ u. refl, tt))

  add_rule-Loyal : (s : Page) → Holds T (token s) → Faithful (add_rule s)
  unfolding add_rule bearer
  add_rule-Loyal s h = Loyal-with_token token _ s.token _ λ t e i.
      Loyal-only_if token _ (truthy s.rule_id) _ (
        Loyal-only_if token _ (truthy s.rule_desc) _
          (λ u. refl, (Holds_at T s.token t h e i, λ x. rule_saved-Loyal s x h)))

  remove_rule-Loyal : (id : String) (s : Page) → Holds T (token s) → Faithful (remove_rule id s)
  unfolding remove_rule bearer
  remove_rule-Loyal id s h = Loyal-with_token token _ s.token _ λ t e i. (
    Holds_at T s.token t h e i,
    elim [ ok _ ↦ refresh_rules-Loyal s h | Result.err x ↦ (λ u. refl, tt) ],
  )

  got_framework_token : (x : Result FrameworkInfo) (u : Page) → token (got_framework x u) ≡ token u
  got_framework_token (ok i) u = refl
  got_framework_token (Result.err e) u = refl

  got_rules_token : (x : Result (List PolicyRule)) (u : Page) → token (got_rules x u) ≡ token u
  got_rules_token (ok rs) u = refl
  got_rules_token (Result.err e) u = refl

  change_framework-Loyal :
      (f : String) (s : Page) → Holds T (token s) → Faithful (change_framework f s)
  unfolding change_framework bearer
  change_framework-Loyal f s h = Loyal-with_token token _ s.token _ λ t e i.
      let b = Holds_at T s.token t h e i in
      (
        λ u. refl,
        (
          b,
          elim [
            | ok _ ↦
                Loyal-await_both {R = Reply} token (λ q. T (bearer q)) (get_framework t)
                  got_framework (get_rules t) got_rules framework_updated b b got_framework_token
                  got_rules_token (λ u. refl, (λ u. refl, tt))
            | Result.err x ↦ (λ u. refl, (λ u. refl, tt))
          ],
        ),
      )

  save_schedule-Loyal : (b : Bool) (s : Page) → Holds T (token s) → Faithful (save_schedule b s)
  unfolding save_schedule bearer
  save_schedule-Loyal b s h = Loyal-with_token token _ s.token _ λ t e i. (
    λ u. refl,
    (
      Holds_at T s.token t h e i,
      elim [
        | ok _ ↦
            Loyal-then_do token _ (refresh_schedule s) _ (refresh_schedule-Loyal s h)
              (λ u. refl, tt)
        | Result.err x ↦ (λ u. refl, (λ u. refl, tt))
      ],
    ),
  )

  save_webhook-Loyal : (s : Page) → Holds T (token s) → Faithful (save_webhook s)
  unfolding save_webhook bearer
  save_webhook-Loyal s h = Loyal-with_token token _ s.token _ λ t e i.
      Loyal-only_if token _ (truthy s.webhook_url) _ (
        λ u. refl,
        (
          Holds_at T s.token t h e i,
          elim [
            | ok _ ↦
                Loyal-then_do token _ (refresh_webhook s) _ (refresh_webhook-Loyal s h)
                  (λ u. refl, (λ u. refl, tt))
            | Result.err x ↦ (λ u. refl, (λ u. refl, tt))
          ],
        ),
      )

  clear_webhook-Loyal : (s : Page) → Holds T (token s) → Faithful (clear_webhook s)
  unfolding clear_webhook bearer
  clear_webhook-Loyal s h = Loyal-with_token token _ s.token _ λ t e i. (
    Holds_at T s.token t h e i,
    elim [ ok _ ↦ (λ u. refl, refresh_webhook-Loyal s h) | Result.err x ↦ (λ u. refl, tt) ],
  )

  refresh_all-Loyal : (s : Page) → Holds T (token s) → Faithful (refresh_all s)
  unfolding handle
  refresh_all-Loyal s h = (
    refresh-Loyal s h,
    (
      refresh_rules-Loyal s h,
      (refresh_framework-Loyal s h, (refresh_schedule-Loyal s h, (refresh_webhook-Loyal s h, tt))),
    ),
  )

  pub handle-LoyalTo :
      (e : Event) (s : Page)
      → Holds T (brings e)
      → Holds T (token s)
      → LoyalTo token (λ q. T (bearer q)) (brings e) (handle e s)
  unfolding handle
  handle-LoyalTo (session t) s b h = inr (
    (λ u. record u { token = t }),
    _,
    refl,
    (λ u. refl),
    Loyal-only_if token _ (not (same s.token t)) _ (refresh_all-Loyal (record s { token = t }) b),
  )
  handle-LoyalTo (type_key k) s b h = inl (λ u. refl, tt)
  handle-LoyalTo (choose_framework f) s b h = inl (change_framework-Loyal f s h)
  handle-LoyalTo (type_rule_id x) s b h = inl (λ u. refl, tt)
  handle-LoyalTo (type_rule_desc x) s b h = inl (λ u. refl, tt)
  handle-LoyalTo (choose_rule_severity x) s b h = inl (λ u. refl, tt)
  handle-LoyalTo (type_rule_keywords x) s b h = inl (λ u. refl, tt)
  handle-LoyalTo (type_interval n) s b h = inl (λ u. refl, tt)
  handle-LoyalTo (type_webhook_url x) s b h = inl (λ u. refl, tt)
  handle-LoyalTo confirm_expires s b h = inl (λ u. refl, tt)
  handle-LoyalTo click_save s b h = inl (save-Loyal s h)
  handle-LoyalTo click_clear s b h = inl (clear-Loyal s h)
  handle-LoyalTo click_add_rule s b h = inl (add_rule-Loyal s h)
  handle-LoyalTo (click_remove_rule id) s b h = inl (remove_rule-Loyal id s h)
  handle-LoyalTo (click_schedule c) s b h = inl (save_schedule-Loyal c s h)
  handle-LoyalTo click_save_webhook s b h = inl (save_webhook-Loyal s h)
  handle-LoyalTo click_clear_webhook s b h = inl (clear_webhook-Loyal s h)

-- The page as the hook sees it.
abbrev pub settings_page : Guarded Event Page Req Reply
settings_page = guard handle token brings bearer handle-LoyalTo
