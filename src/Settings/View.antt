-- ===== src/Settings/View.antt =====
-- frontend/app/app/settings/page.tsx:
-- What the page renders.
use blackbox_agent_accountab.Prelude.{
  ℕ, String, Bool, true, false, not, ◌||◌, Option, none, some, List, [], ◌∷◌, ◌++◌, if◌then◌else◌,
  ◌===◌, truthy, present, or_else, is_empty,
}
use blackbox_agent_accountab.Js.{template, to_string}
use blackbox_agent_accountab.View.{Node, text, button, input, select, when, each}
use blackbox_agent_accountab.Settings.{PolicyRule, FrameworkInfo, Schedule, Webhook, Page}
use blackbox_agent_accountab.Settings.Events.{
  Event, type_key, click_save, click_clear, choose_framework, type_rule_id, type_rule_desc,
  choose_rule_severity, type_rule_keywords, click_add_rule, click_remove_rule, type_interval,
  click_schedule, type_webhook_url, click_save_webhook, click_clear_webhook,
}

-- What is true of a value that may be null, undefined or false.
abbrev pub is_true : Option Bool → Bool
is_true none = false
is_true (some b) = b

abbrev pub shown_error : Option String → List (Node Event)
shown_error e = when (present e) (text (or_else e "") ∷ [])

abbrev pub byok_status : Option Bool → String
byok_status none = "checking…"
byok_status (some b) = if b then "configured" else "not set"

-- The section of the Anthropic key.
unfoldable pub show_byok : Page → List (Node Event)
show_byok s =
    text (byok_status s.configured)
    ∷ input "Anthropic API key" s.key type_key
    ∷ button "Save" (not (truthy s.key)) click_save
    ∷ button "Clear" (not (is_true s.configured)) click_clear
    ∷ (when (present s.confirm) (text (or_else s.confirm "") ∷ []) ++ shown_error s.err)

-- `FRAMEWORK_LABELS[f]`, if it is there.
unfoldable pub framework_label : String → Option String
framework_label f =
    if f === "eu_ai_act"
    then some "EU AI Act"
    else if f === "soc2"
    then some "SOC 2"
    else if f === "nist_ai_rmf"
    then some "NIST AI RMF"
    else if f === "iso42001"
    then some "ISO/IEC 42001"
    else none

abbrev pub current_framework : Option FrameworkInfo → String
current_framework none = "eu_ai_act"
current_framework (some i) = i.framework

abbrev pub available_frameworks : Option FrameworkInfo → List String
available_frameworks none = "eu_ai_act" ∷ []
available_frameworks (some i) = i.available

abbrev pub labelled : List String → List String
labelled [] = []
labelled (f ∷ fs) = or_else (framework_label f) f ∷ labelled fs

-- The section of the compliance framework.
unfoldable pub show_framework : Page → List (Node Event)
unfolding framework_label
show_framework s =
    select "Framework" (current_framework s.framework_info) (available_frameworks s.framework_info)
      s.framework_busy choose_framework
    ∷ (each (labelled (available_frameworks s.framework_info)) (λ l. text l ∷ [])
        ++ shown_error s.framework_err)

abbrev pub show_rule : PolicyRule → List (Node Event)
show_rule r =
    text (template (r.id ∷ " " ∷ r.severity ∷ " · " ∷ r.description ∷ []))
    ∷ (if r.custom
        then button "Remove" false (click_remove_rule r.id) ∷ []
        else text "built-in" ∷ [])

-- The section of the custom rules.
unfoldable pub show_rules : Page → List (Node Event)
unfolding framework_label
show_rules s =
    text (
      template (
        "Add rules on top of the "
        ∷ or_else (framework_label (current_framework s.framework_info)) ""
        ∷ " pack."
        ∷ []))
    ∷ ((if is_empty s.rules then text "No rules yet." ∷ [] else each s.rules show_rule)
        ++ (input "Rule id" s.rule_id type_rule_id
            ∷ input "Description" s.rule_desc type_rule_desc
            ∷ select "Severity" s.rule_severity ("low" ∷ "medium" ∷ "high" ∷ "critical" ∷ []) false
                choose_rule_severity
            ∷ input "Keywords (comma-separated)" s.rule_keywords type_rule_keywords
            ∷ button (if s.rule_busy then "Saving…" else "Add rule")
                (not (truthy s.rule_id) || not (truthy s.rule_desc) || s.rule_busy) click_add_rule
            ∷ shown_error s.rule_err))

abbrev pub runs_enabled : Option Schedule → Bool
runs_enabled none = false
runs_enabled (some c) = c.enabled

abbrev pub schedule_status : Option Schedule → String
schedule_status none = "checking…"
schedule_status (some c) = if c.enabled then "enabled" else "disabled"

-- `locale` is `new Date(…).toLocaleString()`.
abbrev pub last_run : (String → String) → Option Schedule → List (Node Event)
last_run locale none = []
last_run locale (some c) =
    when (present c.last_run_at)
      (text (template ("last ran " ∷ locale (or_else c.last_run_at "") ∷ [])) ∷ [])

-- The section of the automated runs. `number` gives the number that the text of the field for the
-- interval stands for.
unfoldable pub show_schedule : (String → ℕ) → (String → String) → Page → List (Node Event)
show_schedule number locale s =
    text (schedule_status s.schedule)
    ∷ (last_run locale s.schedule
        ++ (input "Interval (minutes, minimum 15)" (to_string s.schedule_interval)
              (λ x. type_interval (number x))
            ∷ button
                (if s.schedule_busy
                  then "Saving…"
                  else if runs_enabled s.schedule
                  then "Update interval"
                  else "Enable")
                s.schedule_busy (click_schedule true)
            ∷ (when (runs_enabled s.schedule)
                  (button "Disable" s.schedule_busy (click_schedule false) ∷ [])
                ++ shown_error s.schedule_err)))

abbrev pub secret_of : Option Webhook → Option String
secret_of none = none
secret_of (some h) = h.secret

abbrev pub url_of : Option Webhook → Option String
url_of none = none
url_of (some h) = h.url

-- The section of the alerts.
unfoldable pub show_webhook : Page → List (Node Event)
show_webhook s =
    input "Webhook URL" s.webhook_url type_webhook_url
    ∷ (when (present (secret_of s.webhook)) (text (or_else (secret_of s.webhook) "") ∷ [])
        ++ (button (if s.webhook_busy then "Saving…" else "Save")
              (not (truthy s.webhook_url) || s.webhook_busy) click_save_webhook
            ∷ (when (present (url_of s.webhook)) (button "Remove" false click_clear_webhook ∷ [])
                ++ shown_error s.webhook_err)))

unfoldable pub view : (String → ℕ) → (String → String) → Page → List (Node Event)
unfolding show_byok show_framework show_rules show_schedule show_webhook
view number locale s =
    show_byok s
    ++ (show_framework s ++ (show_rules s ++ (show_schedule number locale s ++ show_webhook s)))
