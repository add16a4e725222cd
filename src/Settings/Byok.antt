-- ===== src/Settings/Byok.antt =====
-- frontend/app/app/settings/page.tsx:
-- The section of the Anthropic key.
use blackbox_agent_accountab.Prelude.{String, Bool, none, some, Result, ok, truthy}
use blackbox_agent_accountab.Runtime.{done, act, call, spawn, with_token, only_if}
use blackbox_agent_accountab.Settings.{Page, Handler, get_byok, put_byok, delete_byok}

abbrev got_byok : Result Bool → Page → Page
got_byok (ok b) u = record u { configured = some b }
got_byok (Result.err e) u = record u { err = some e }

unfoldable pub refresh : Page → Handler
refresh s = with_token s.token λ t. call (get_byok t) (λ x. act (got_byok x) done)

abbrev pub byok_done : Page → (Page → Page) → String → Result (Unit {0}) → Handler
unfolding refresh
byok_done s f message (ok _) =
    act f (spawn (refresh s) (act (λ u. record u { confirm = some message }) done))
byok_done s f message (Result.err e) = act (λ u. record u { err = some e }) done

unfoldable pub save : Page → Handler
unfolding refresh
save s = with_token s.token λ t. only_if (truthy s.key) (
    act (λ u. record u { err = none })
      (call (put_byok t s.key) (byok_done s (λ u. record u { key = "" }) "Key saved")))

unfoldable pub clear : Page → Handler
unfolding refresh
clear s = with_token s.token λ t. call (delete_byok t) (byok_done s (λ u. u) "Key cleared")
