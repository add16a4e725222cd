-- ===== src/Settings/Rules.antt =====
-- frontend/app/app/settings/page.tsx:
-- The section of the custom policy rules.
use blackbox_agent_accountab.Prelude.{
  String, true, false, none, some, List, [], ◌∷◌, Result, ok, if◌then◌else◌, truthy,
}
use blackbox_agent_accountab.Js.{includes, trim, split_commas}
use blackbox_agent_accountab.Runtime.{done, act, call, with_token, only_if, then_do}
use blackbox_agent_accountab.Settings.{Page, Handler, get_rules, put_rule, delete_rule, PolicyRule}

abbrev pub got_rules : Result (List PolicyRule) → Page → Page
got_rules (ok rs) u = record u { rules = rs }
got_rules (Result.err e) u = record u { rule_err = some e }

unfoldable pub refresh_rules : Page → Handler
refresh_rules s = with_token s.token λ t. call (get_rules t) (λ x. act (got_rules x) done)

-- `.map(k => k.trim()).filter(Boolean)`
abbrev pub clean : List String → List String
clean [] = []
clean (k ∷ ks) = let rest = clean ks in if truthy (trim k) then trim k ∷ rest else rest

-- The keywords in the text of the field.
unfoldable pub keywords_of : String → List String
keywords_of s = clean (split_commas s)

-- What the page shows for an error of saving a rule.
abbrev pub rule_message : String → String
rule_message e = if includes e "402" then "Custom policy rules are a Pro plan feature." else e

abbrev pub rule_saved : Page → Result (Unit {0}) → Handler
unfolding refresh_rules
rule_saved s (ok _) =
    act
      (λ u. record u { rule_id = ""; rule_desc = ""; rule_keywords = ""; rule_severity = "medium" })
      (then_do (refresh_rules s) (
        act (λ u. record u { confirm = some "Rule saved" })
          (act (λ u. record u { rule_busy = false }) done)))
rule_saved s (Result.err e) =
    act (λ u. record u { rule_err = some (rule_message e) })
      (act (λ u. record u { rule_busy = false }) done)

unfoldable pub add_rule : Page → Handler
unfolding refresh_rules keywords_of
add_rule s = with_token s.token λ t. only_if (truthy s.rule_id) (
    only_if (truthy s.rule_desc) (
      act (λ u. record u { rule_err = none; rule_busy = true })
        (call (put_rule t s.rule_id s.rule_desc s.rule_severity (keywords_of s.rule_keywords))
          (rule_saved s))))

abbrev pub rule_removed : Page → Result (Unit {0}) → Handler
unfolding refresh_rules
rule_removed s (ok _) = refresh_rules s
rule_removed s (Result.err e) = act (λ u. record u { rule_err = some e }) done

unfoldable pub remove_rule : String → Page → Handler
unfolding refresh_rules
remove_rule id s = with_token s.token λ t. call (delete_rule t id) (rule_removed s)
