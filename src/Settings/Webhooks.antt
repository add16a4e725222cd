-- ===== src/Settings/Webhooks.antt =====
-- frontend/app/app/settings/page.tsx:
-- The section of the alerts.
use blackbox_agent_accountab.Prelude.{true, false, none, some, Result, ok, truthy, or_else}
use blackbox_agent_accountab.Runtime.{done, act, call, with_token, only_if, then_do}
use blackbox_agent_accountab.Settings.{
  Page, Handler, get_webhook, put_webhook, delete_webhook, Webhook,
}

abbrev got_webhook : Result Webhook → Page → Page
got_webhook (ok h) u = record u { webhook = some h; webhook_url = or_else h.url "" }
got_webhook (Result.err e) u = record u { webhook_err = some e }

unfoldable pub refresh_webhook : Page → Handler
refresh_webhook s = with_token s.token λ t. call (get_webhook t) (λ x. act (got_webhook x) done)

abbrev pub webhook_saved : Page → Result (Unit {0}) → Handler
unfolding refresh_webhook
webhook_saved s (ok _) = then_do (refresh_webhook s) (
    act (λ u. record u { confirm = some "Webhook saved" })
      (act (λ u. record u { webhook_busy = false }) done))
webhook_saved s (Result.err e) =
    act (λ u. record u { webhook_err = some e }) (act (λ u. record u { webhook_busy = false }) done)

unfoldable pub save_webhook : Page → Handler
unfolding refresh_webhook
save_webhook s = with_token s.token λ t. only_if (truthy s.webhook_url) (
    act (λ u. record u { webhook_err = none; webhook_busy = true })
      (call (put_webhook t s.webhook_url) (webhook_saved s)))

abbrev pub webhook_cleared : Page → Result (Unit {0}) → Handler
unfolding refresh_webhook
webhook_cleared s (ok _) = act (λ u. record u { webhook_url = "" }) (refresh_webhook s)
webhook_cleared s (Result.err e) = act (λ u. record u { webhook_err = some e }) done

unfoldable pub clear_webhook : Page → Handler
unfolding refresh_webhook
clear_webhook s = with_token s.token λ t. call (delete_webhook t) (webhook_cleared s)
