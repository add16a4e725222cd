-- ===== src/Settings/Calls.antt =====
-- frontend/app/app/settings/page.tsx:
-- The buttons that the page shows as enabled.
use blackbox_agent_accountab.Prelude.{
  ◌≡◌, ℕ, String, Bool, true, false, not, ◌||◌, Option, none, some, [], ◌∷◌, All, All-append,
  if◌then◌else◌, truthy, present, or_else, is_empty, arith,
}
use blackbox_agent_accountab.View.{text, button, Calls, when, each, All-when, All-if, All-each}
use blackbox_agent_accountab.Settings.{PolicyRule, Schedule, Page}
use blackbox_agent_accountab.Settings.Events.{
  click_save, click_clear, click_add_rule, click_remove_rule, click_schedule, click_save_webhook,
  click_clear_webhook, handle,
}
use blackbox_agent_accountab.Settings.View.{
  is_true, runs_enabled, shown_error, show_byok, show_framework, show_rule, show_rules,
  show_schedule, show_webhook, view, last_run, secret_of, url_of, labelled, available_frameworks,
}

module _ (s : Page) (signed : present s.token ≡ true) where
  save-Calls : Calls handle s (button "" (not (truthy s.key)) click_save)
  unfolding handle
  save-Calls = ground arith

  clear-Calls : (b : Bool) → Calls handle s (button "" b click_clear)
  unfolding handle
  clear-Calls true = tt
  clear-Calls false = ground arith

  add_rule-Calls :
      (b : Bool)
      → Calls handle s
          (button "" (not (truthy s.rule_id) || not (truthy s.rule_desc) || b) click_add_rule)
  unfolding handle
  add_rule-Calls b = ground arith

  remove_rule-Calls : (id : String) → Calls handle s (button "" false (click_remove_rule id))
  unfolding handle
  remove_rule-Calls id = ground arith

  schedule-Calls : (b enabled : Bool) → Calls handle s (button "" b (click_schedule enabled))
  unfolding handle
  schedule-Calls true enabled = tt
  schedule-Calls false enabled = ground arith

  save_webhook-Calls :
      (b : Bool) → Calls handle s (button "" (not (truthy s.webhook_url) || b) click_save_webhook)
  unfolding handle
  save_webhook-Calls b = ground arith

  clear_webhook-Calls : Calls handle s (button "" false click_clear_webhook)
  unfolding handle
  clear_webhook-Calls = ground arith

  error-Calls : (e : Option String) → All (Calls handle s) (shown_error e)
  error-Calls e = All-when (Calls handle s) (present e) (text (or_else e "") ∷ []) (λ _. (tt, tt))

  show_byok-Calls : All (Calls handle s) (show_byok s)
  unfolding show_byok
  show_byok-Calls = (
    tt,
    (
      tt,
      (
        save-Calls,
        (
          clear-Calls (not (is_true s.configured)),
          All-append (Calls handle s) (when (present s.confirm) (text (or_else s.confirm "") ∷ []))
              _ (All-when (Calls handle s) (present s.confirm) _ (λ _. (tt, tt)))
              (error-Calls s.err),
        ),
      ),
    ),
  )

  show_framework-Calls : All (Calls handle s) (show_framework s)
  unfolding show_framework
  show_framework-Calls = (
    tt,
    All-append (Calls handle s)
        (each (labelled (available_frameworks s.framework_info)) (λ l. text l ∷ [])) _
        (All-each (Calls handle s) (labelled (available_frameworks s.framework_info))
          (λ l. text l ∷ []) (λ l. (tt, tt)))
        (error-Calls s.framework_err),
  )

  show_rule-Calls : (r : PolicyRule) → All (Calls handle s) (show_rule r)
  show_rule-Calls r = (
    tt,
    All-if (Calls handle s) r.custom (button "Remove" false (click_remove_rule r.id) ∷ [])
        (text "built-in" ∷ []) (λ _. (remove_rule-Calls r.id, tt)) (λ _. (tt, tt)),
  )

  show_rules-Calls : All (Calls handle s) (show_rules s)
  unfolding show_rules
  show_rules-Calls = (
    tt,
    All-append (Calls handle s)
        (if is_empty s.rules then text "No rules yet." ∷ [] else each s.rules show_rule) _
        (All-if (Calls handle s) (is_empty s.rules) _ _ (λ _. (tt, tt))
          (λ _. All-each (Calls handle s) s.rules show_rule show_rule-Calls))
        (tt, (tt, (tt, (tt, (add_rule-Calls s.rule_busy, error-Calls s.rule_err))))),
  )

  last_run-Calls :
      (locale : String → String) (c : Option Schedule) → All (Calls handle s) (last_run locale c)
  last_run-Calls locale none = tt
  last_run-Calls locale (some c) =
      All-when (Calls handle s) (present c.last_run_at) _ (λ _. (tt, tt))

  show_schedule-Calls :
      (number : String → ℕ) (locale : String → String)
      → All (Calls handle s) (show_schedule number locale s)
  unfolding show_schedule
  show_schedule-Calls number locale = (
    tt,
    All-append (Calls handle s) (last_run locale s.schedule) _ (last_run-Calls locale s.schedule) (
      tt,
      (
        schedule-Calls s.schedule_busy true,
        All-append (Calls handle s)
            (when (runs_enabled s.schedule)
              (button "Disable" s.schedule_busy (click_schedule false) ∷ []))
            _
            (All-when (Calls handle s) (runs_enabled s.schedule) _
              (λ _. (schedule-Calls s.schedule_busy false, tt)))
            (error-Calls s.schedule_err),
      ),
    ),
  )

  show_webhook-Calls : All (Calls handle s) (show_webhook s)
  unfolding show_webhook
  show_webhook-Calls = (
    tt,
    All-append (Calls handle s)
        (when (present (secret_of s.webhook)) (text (or_else (secret_of s.webhook) "") ∷ [])) _
        (All-when (Calls handle s) (present (secret_of s.webhook)) _ (λ _. (tt, tt)))
        (
          save_webhook-Calls s.webhook_busy,
          All-append (Calls handle s)
              (when (present (url_of s.webhook)) (button "Remove" false click_clear_webhook ∷ [])) _
              (All-when (Calls handle s) (present (url_of s.webhook)) _
                (λ _. (clear_webhook-Calls, tt)))
              (error-Calls s.webhook_err),
        ),
  )

  -- With a session, a click on any button that the page shows as enabled makes a call.
  pub settings-view-Calls :
      (number : String → ℕ) (locale : String → String) → All (Calls handle s) (view number locale s)
  unfolding view
  settings-view-Calls number locale = All-append (Calls handle s) (show_byok s) _ show_byok-Calls (
      All-append (Calls handle s) (show_framework s) _ show_framework-Calls (
        All-append (Calls handle s) (show_rules s) _ show_rules-Calls (
          All-append (Calls handle s) (show_schedule number locale s) _
            (show_schedule-Calls number locale) show_webhook-Calls)))
