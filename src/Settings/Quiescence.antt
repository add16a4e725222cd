-- ===== src/Settings/Quiescence.antt =====
-- frontend/app/app/settings/page.tsx:
-- The busy flags of the page, over every interleaving of events and replies.
use blackbox_agent_accountab.Prelude.{
  ◌≡◌, refl, inr, String, Bool, false, not, List, [], Result, ok, truthy, same,
}
use blackbox_agent_accountab.Runtime.{World, Reach}
use blackbox_agent_accountab.Runtime.Frame.{
  Frames-with_token, Frames-only_if, Frames-then_do, Frames-await_both, Frames-Keeps,
}
use blackbox_agent_accountab.Runtime.Quiet.{
  Keeps, Keeps-only_if, Keeps-with_token, Restores-then_do,
}
use blackbox_agent_accountab.Runtime.Waiting.{quiet}
use blackbox_agent_accountab.Settings.{
  Page, Req, Reply, get_framework, get_rules, PolicyRule, FrameworkInfo,
}
use blackbox_agent_accountab.Settings.Byok.{save, clear}
use blackbox_agent_accountab.Settings.Rules.{got_rules, refresh_rules, add_rule, remove_rule}
use blackbox_agent_accountab.Settings.Framework.{framework_updated, got_framework, change_framework}
use blackbox_agent_accountab.Settings.Schedules.{refresh_schedule, save_schedule}
use blackbox_agent_accountab.Settings.Webhooks.{refresh_webhook, save_webhook, clear_webhook}
use blackbox_agent_accountab.Settings.Events.{
  Event, session, click_save, click_clear, choose_framework, click_add_rule, click_remove_rule,
  click_schedule, click_save_webhook, click_clear_webhook, refresh_all, handle,
}
use blackbox_agent_accountab.Settings.Frames.{
  Section, rules, framework, schedule, webhook, busy, IsIdle, refresh_rules-Frames,
  refresh_schedule-Frames, refresh_webhook-Frames, save-Frames, clear-Frames, remove_rule-Frames,
  clear_webhook-Frames, refresh_all-Frames,
}

add_rule-Keeps : (i : Section) (s : Page) (u : Page) → Keeps (IsIdle i) (IsIdle i u) (add_rule s) u
unfolding add_rule
add_rule-Keeps rules s u =
    Keeps-with_token (IsIdle rules) _ s.token _ u (λ h. h)
      λ t.
        Keeps-only_if (IsIdle rules) _ (truthy s.rule_id) _ u (λ h. h)
          (Keeps-only_if (IsIdle rules) _ (truthy s.rule_desc) _ u (λ h. h)
            ((inr (elim [
              | ok _ ↦ λ v.
                  Restores-then_do (IsIdle rules) _ (refresh_rules s) _ _
                    (Frames-Keeps (IsIdle rules) ⊥ (refresh_rules s) _
                      (refresh_rules-Frames rules s) (λ h. absurd h))
                    (λ w. refl)
              | Result.err e ↦ λ v. refl
            ]))))
add_rule-Keeps i s u =
    Frames-Keeps (IsIdle i) (IsIdle i u) (add_rule s) u
      (Frames-with_token (IsIdle i) s.token _ λ t. Frames-only_if (IsIdle i) (truthy s.rule_id) _ (
        Frames-only_if (IsIdle i) (truthy s.rule_desc) _ (
          (
            (λ v h. h),
            elim [
              | ok _ ↦ (
                (λ v h. h),
                Frames-then_do (IsIdle i) (refresh_rules s) _ (refresh_rules-Frames i s)
                    ((λ v h. h), ((λ v h. h), tt)),
              )
              | Result.err e ↦ ((λ v h. h), ((λ v h. h), tt))
            ],
          ))))
      (λ h. h)

save_webhook-Keeps :
    (i : Section) (s : Page) (u : Page) → Keeps (IsIdle i) (IsIdle i u) (save_webhook s) u
unfolding save_webhook
save_webhook-Keeps webhook s u =
    Keeps-with_token (IsIdle webhook) _ s.token _ u (λ h. h)
      λ t.
        Keeps-only_if (IsIdle webhook) _ (truthy s.webhook_url) _ u (λ h. h)
          ((inr (elim [
            | ok _ ↦ λ v.
                Restores-then_do (IsIdle webhook) _ (refresh_webhook s) _ _
                  (Frames-Keeps (IsIdle webhook) ⊥ (refresh_webhook s) _
                    (refresh_webhook-Frames webhook s) (λ h. absurd h))
                  (λ w. refl)
            | Result.err e ↦ λ v. refl
          ])))
save_webhook-Keeps i s u =
    Frames-Keeps (IsIdle i) (IsIdle i u) (save_webhook s) u
      (Frames-with_token (IsIdle i) s.token _ λ t.
        Frames-only_if (IsIdle i) (truthy s.webhook_url) _ (
          (
            (λ v h. h),
            elim [
              | ok _ ↦
                  Frames-then_do (IsIdle i) (refresh_webhook s) _ (refresh_webhook-Frames i s)
                    ((λ v h. h), ((λ v h. h), tt))
              | Result.err e ↦ ((λ v h. h), ((λ v h. h), tt))
            ],
          )))
      (λ h. h)

save_schedule-Keeps :
    (i : Section) (b : Bool) (s : Page) (u : Page)
    → Keeps (IsIdle i) (IsIdle i u) (save_schedule b s) u
unfolding save_schedule
save_schedule-Keeps schedule b s u =
    Keeps-with_token (IsIdle schedule) _ s.token _ u (λ h. h)
      λ t.
        (inr (elim [
          | ok _ ↦ λ v.
              Restores-then_do (IsIdle schedule) _ (refresh_schedule s) _ _
                (Frames-Keeps (IsIdle schedule) ⊥ (refresh_schedule s) _
                  (refresh_schedule-Frames schedule s) (λ h. absurd h))
                (λ w. refl)
          | Result.err e ↦ λ v. refl
        ]))
save_schedule-Keeps i b s u =
    Frames-Keeps (IsIdle i) (IsIdle i u) (save_schedule b s) u
      (Frames-with_token (IsIdle i) s.token _ λ t. (
        (λ v h. h),
        elim [
          | ok _ ↦
              Frames-then_do (IsIdle i) (refresh_schedule s) _ (refresh_schedule-Frames i s)
                ((λ v h. h), tt)
          | Result.err e ↦ ((λ v h. h), ((λ v h. h), tt))
        ],
      ))
      (λ h. h)

got_framework-IsIdle :
    (i : Section) (x : Result FrameworkInfo) (u : Page) → IsIdle i u → IsIdle i (got_framework x u)
got_framework-IsIdle rules x u h = elim x as (λ x. IsIdle rules (got_framework x u)) [
  | ok a ↦ h
  | Result.err e ↦ h
]
got_framework-IsIdle i x u h = elim x as (λ x. IsIdle i (got_framework x u)) [
  | ok a ↦ h
  | Result.err e ↦ h
]

got_rules-IsIdle :
    (i : Section) (x : Result (List PolicyRule)) (u : Page) → IsIdle i u → IsIdle i (got_rules x u)
got_rules-IsIdle rules x u h = elim x as (λ x. IsIdle rules (got_rules x u)) [
  | ok a ↦ h
  | Result.err e ↦ h
]
got_rules-IsIdle i x u h = elim x as (λ x. IsIdle i (got_rules x u)) [ ok a ↦ h | Result.err e ↦ h ]

change_framework-Keeps :
    (i : Section) (f : String) (s : Page) (u : Page)
    → Keeps (IsIdle i) (IsIdle i u) (change_framework f s) u
unfolding change_framework
change_framework-Keeps framework f s u =
    Keeps-with_token (IsIdle framework) _ s.token _ u (λ h. h)
      λ t.
        (inr (elim [ ok _ ↦ λ v. (λ x w y z. refl, λ x w y z. refl) | Result.err e ↦ λ v. refl ]))
change_framework-Keeps i f s u =
    Frames-Keeps (IsIdle i) (IsIdle i u) (change_framework f s) u
      (Frames-with_token (IsIdle i) s.token _ λ t. (
        (λ v h. h),
        elim [
          | ok _ ↦
              Frames-await_both (IsIdle i) (get_framework t) got_framework (get_rules t) got_rules
                framework_updated (got_framework-IsIdle i) (got_rules-IsIdle i)
                ((λ v h. h), ((λ v h. h), tt))
          | Result.err e ↦ ((λ v h. h), ((λ v h. h), tt))
        ],
      ))
      (λ h. h)

-- An event that starts no call leaves every flag.
handle-Keeps : (i : Section) (e : Event) (s : Page) → Keeps (IsIdle i) (IsIdle i s) (handle e s) s
unfolding handle
handle-Keeps rules (session t) s =
    Keeps-only_if (IsIdle rules) _ (not (same s.token t)) _ _ (λ h. h)
      (Frames-Keeps (IsIdle rules) _ (refresh_all (record s { token = t })) (record s { token = t })
        (refresh_all-Frames rules (record s { token = t })) (λ h. h))
handle-Keeps i (session t) s =
    Keeps-only_if (IsIdle i) _ (not (same s.token t)) _ _ (λ h. h)
      (Frames-Keeps (IsIdle i) _ (refresh_all (record s { token = t })) (record s { token = t })
        (refresh_all-Frames i (record s { token = t })) (λ h. h))
handle-Keeps i click_save s = Frames-Keeps (IsIdle i) _ (save s) s (save-Frames i s) (λ h. h)
handle-Keeps i click_clear s = Frames-Keeps (IsIdle i) _ (clear s) s (clear-Frames i s) (λ h. h)
handle-Keeps i (choose_framework f) s = change_framework-Keeps i f s s
handle-Keeps i click_add_rule s = add_rule-Keeps i s s
handle-Keeps i (click_remove_rule id) s =
    Frames-Keeps (IsIdle i) _ (remove_rule id s) s (remove_rule-Frames i id s) (λ h. h)
handle-Keeps i (click_schedule b) s = save_schedule-Keeps i b s s
handle-Keeps i click_save_webhook s = save_webhook-Keeps i s s
handle-Keeps i click_clear_webhook s =
    Frames-Keeps (IsIdle i) _ (clear_webhook s) s (clear_webhook-Frames i s) (λ h. h)
handle-Keeps i _ s = λ h. h

-- From a page whose section is not busy, with no call waiting, and however the user's events and the
-- replies interleave, whatever the replies are: once no call is waiting, that section is not left
-- busy. The sections are the rules, the framework, the schedule and the webhook.
pub section_is_released :
    (i : Section) {s : Page} {w : World Page Req Reply}
    → busy i s ≡ false
    → Reach handle (record { state = s; tasks = [] }) w
    → w.tasks ≡ []
    → busy i w.state ≡ false
section_is_released i = quiet (IsIdle i) handle (handle-Keeps i)
