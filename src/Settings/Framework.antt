-- ===== src/Settings/Framework.antt =====
-- frontend/app/app/settings/page.tsx:
-- The section of the compliance framework.
use blackbox_agent_accountab.Prelude.{String, true, false, none, some, Result, ok}
use blackbox_agent_accountab.Runtime.{done, act, call, with_token, await_both}
use blackbox_agent_accountab.Settings.{
  Page, Handler, get_rules, get_framework, put_framework, FrameworkInfo,
}
use blackbox_agent_accountab.Settings.Rules.{got_rules}

abbrev pub got_framework : Result FrameworkInfo → Page → Page
got_framework (ok i) u = record u { framework_info = some i }
got_framework (Result.err e) u = record u { framework_err = some e }

unfoldable pub refresh_framework : Page → Handler
refresh_framework s =
    with_token s.token λ t. call (get_framework t) (λ x. act (got_framework x) done)

abbrev pub framework_updated : Handler
framework_updated =
    act (λ u. record u { confirm = some "Framework updated" })
      (act (λ u. record u { framework_busy = false }) done)

-- The framework and the rules are fetched again side by side. The token is the one that the
-- handler has tested.
abbrev pub framework_changed : String → Result (Unit {0}) → Handler
framework_changed t (ok _) =
    await_both (get_framework t) got_framework (get_rules t) got_rules framework_updated
framework_changed t (Result.err e) =
    act (λ u. record u { framework_err = some e })
      (act (λ u. record u { framework_busy = false }) done)

unfoldable pub change_framework : String → Page → Handler
change_framework f s = with_token s.token λ t.
    act (λ u. record u { framework_err = none; framework_busy = true })
      (call (put_framework t f) (framework_changed t))
