-- ===== src/Settings/Events.antt =====
-- frontend/app/app/settings/page.tsx:
-- What can happen on the page, with the effects that fetch each section when the token changes.
use blackbox_agent_accountab.Prelude.{ℕ, String, Bool, not, Option, none, same}
use blackbox_agent_accountab.Runtime.{done, act, spawn, only_if}
use blackbox_agent_accountab.Settings.{Page, Handler}
use blackbox_agent_accountab.Settings.Byok.{refresh, save, clear}
use blackbox_agent_accountab.Settings.Rules.{refresh_rules, add_rule, remove_rule}
use blackbox_agent_accountab.Settings.Framework.{refresh_framework, change_framework}
use blackbox_agent_accountab.Settings.Schedules.{refresh_schedule, save_schedule, interval_of}
use blackbox_agent_accountab.Settings.Webhooks.{refresh_webhook, save_webhook, clear_webhook}

pub data Event : Type 0 where
  -- the session hook reports a token, or that there is none
  session : Option String → Event
  type_key : String → Event
  click_save : Event
  click_clear : Event
  choose_framework : String → Event
  type_rule_id : String → Event
  type_rule_desc : String → Event
  choose_rule_severity : String → Event
  type_rule_keywords : String → Event
  click_add_rule : Event
  click_remove_rule : String → Event
  -- with the number that the text of the field stands for
  type_interval : ℕ → Event
  click_schedule : Bool → Event
  type_webhook_url : String → Event
  click_save_webhook : Event
  click_clear_webhook : Event
  confirm_expires : Event

-- The effects, in the order of the component.
abbrev pub refresh_all : Page → Handler
unfolding refresh refresh_rules refresh_framework refresh_schedule refresh_webhook
refresh_all s = spawn (refresh s) (
    spawn (refresh_rules s)
      (spawn (refresh_framework s) (spawn (refresh_schedule s) (spawn (refresh_webhook s) done))))

unfoldable pub handle : Event → Page → Handler
unfolding refresh refresh_rules refresh_framework refresh_schedule refresh_webhook save clear
    add_rule remove_rule change_framework save_schedule save_webhook clear_webhook interval_of
handle (session t) s =
    act (λ u. record u { token = t })
      (only_if (not (same s.token t)) (refresh_all (record s { token = t })))
handle (type_key k) s = act (λ u. record u { key = k }) done
handle click_save s = save s
handle click_clear s = clear s
handle (choose_framework f) s = change_framework f s
handle (type_rule_id x) s = act (λ u. record u { rule_id = x }) done
handle (type_rule_desc x) s = act (λ u. record u { rule_desc = x }) done
handle (choose_rule_severity x) s = act (λ u. record u { rule_severity = x }) done
handle (type_rule_keywords x) s = act (λ u. record u { rule_keywords = x }) done
handle click_add_rule s = add_rule s
handle (click_remove_rule id) s = remove_rule id s
handle (type_interval n) s = act (λ u. record u { schedule_interval = interval_of n }) done
handle (click_schedule enabled) s = save_schedule enabled s
handle (type_webhook_url x) s = act (λ u. record u { webhook_url = x }) done
handle click_save_webhook s = save_webhook s
handle click_clear_webhook s = clear_webhook s
handle confirm_expires s = act (λ u. record u { confirm = none }) done
