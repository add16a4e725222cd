-- ===== src/Settings/Frames.antt =====
-- frontend/app/app/settings/page.tsx:
-- The busy flags of the sections, and the handlers that touch none of them.
use blackbox_agent_accountab.Prelude.{◌≡◌, String, Bool, false, Result, ok, truthy}
use blackbox_agent_accountab.Runtime.Frame.{Frames, Frames-with_token, Frames-only_if}
use blackbox_agent_accountab.Settings.{Page}
use blackbox_agent_accountab.Settings.Byok.{refresh, save, clear}
use blackbox_agent_accountab.Settings.Rules.{refresh_rules, remove_rule}
use blackbox_agent_accountab.Settings.Framework.{refresh_framework}
use blackbox_agent_accountab.Settings.Schedules.{refresh_schedule}
use blackbox_agent_accountab.Settings.Webhooks.{refresh_webhook, clear_webhook}
use blackbox_agent_accountab.Settings.Events.{refresh_all}

-- The sections with a busy flag.
pub data Section : Type 0 where
  rules framework schedule webhook : Section

abbrev pub busy : Section → Page → Bool
busy rules s = s.rule_busy
busy framework s = s.framework_busy
busy schedule s = s.schedule_busy
busy webhook s = s.webhook_busy

abbrev pub IsIdle : Section → Page → Type 0
IsIdle i s = busy i s ≡ false

pub refresh-Frames : (i : Section) (s : Page) → Frames (IsIdle i) (refresh s)
unfolding refresh
refresh-Frames rules s =
    Frames-with_token (IsIdle rules) s.token _
      λ t. elim [ ok b ↦ (λ v h. h, tt) | Result.err e ↦ (λ v h. h, tt) ]
refresh-Frames i s =
    Frames-with_token (IsIdle i) s.token _
      λ t. elim [ ok b ↦ (λ v h. h, tt) | Result.err e ↦ (λ v h. h, tt) ]

pub refresh_rules-Frames : (i : Section) (s : Page) → Frames (IsIdle i) (refresh_rules s)
unfolding refresh_rules
refresh_rules-Frames rules s =
    Frames-with_token (IsIdle rules) s.token _
      λ t. elim [ ok b ↦ (λ v h. h, tt) | Result.err e ↦ (λ v h. h, tt) ]
refresh_rules-Frames i s =
    Frames-with_token (IsIdle i) s.token _
      λ t. elim [ ok b ↦ (λ v h. h, tt) | Result.err e ↦ (λ v h. h, tt) ]

pub refresh_framework-Frames : (i : Section) (s : Page) → Frames (IsIdle i) (refresh_framework s)
unfolding refresh_framework
refresh_framework-Frames rules s =
    Frames-with_token (IsIdle rules) s.token _
      λ t. elim [ ok b ↦ (λ v h. h, tt) | Result.err e ↦ (λ v h. h, tt) ]
refresh_framework-Frames i s =
    Frames-with_token (IsIdle i) s.token _
      λ t. elim [ ok b ↦ (λ v h. h, tt) | Result.err e ↦ (λ v h. h, tt) ]

pub refresh_schedule-Frames : (i : Section) (s : Page) → Frames (IsIdle i) (refresh_schedule s)
unfolding refresh_schedule
refresh_schedule-Frames rules s =
    Frames-with_token (IsIdle rules) s.token _
      λ t. elim [ ok b ↦ (λ v h. h, tt) | Result.err e ↦ (λ v h. h, tt) ]
refresh_schedule-Frames i s =
    Frames-with_token (IsIdle i) s.token _
      λ t. elim [ ok b ↦ (λ v h. h, tt) | Result.err e ↦ (λ v h. h, tt) ]

pub refresh_webhook-Frames : (i : Section) (s : Page) → Frames (IsIdle i) (refresh_webhook s)
unfolding refresh_webhook
refresh_webhook-Frames rules s =
    Frames-with_token (IsIdle rules) s.token _
      λ t. elim [ ok b ↦ (λ v h. h, tt) | Result.err e ↦ (λ v h. h, tt) ]
refresh_webhook-Frames i s =
    Frames-with_token (IsIdle i) s.token _
      λ t. elim [ ok b ↦ (λ v h. h, tt) | Result.err e ↦ (λ v h. h, tt) ]

pub save-Frames : (i : Section) (s : Page) → Frames (IsIdle i) (save s)
unfolding save
save-Frames rules s = Frames-with_token (IsIdle rules) s.token _ λ t.
    Frames-only_if (IsIdle rules) (truthy s.key) _ (
      (
        (λ v h. h),
        elim [
          | ok _ ↦ ((λ v h. h), (refresh-Frames rules s, ((λ v h. h), tt)))
          | Result.err e ↦ ((λ v h. h), tt)
        ],
      ))
save-Frames i s = Frames-with_token (IsIdle i) s.token _ λ t.
    Frames-only_if (IsIdle i) (truthy s.key) _ (
      (
        (λ v h. h),
        elim [
          | ok _ ↦ ((λ v h. h), (refresh-Frames i s, ((λ v h. h), tt)))
          | Result.err e ↦ ((λ v h. h), tt)
        ],
      ))

pub clear-Frames : (i : Section) (s : Page) → Frames (IsIdle i) (clear s)
unfolding clear
clear-Frames rules s = Frames-with_token (IsIdle rules) s.token _ λ t. elim [
  | ok _ ↦ ((λ v h. h), (refresh-Frames rules s, ((λ v h. h), tt)))
  | Result.err e ↦ ((λ v h. h), tt)
]
clear-Frames i s = Frames-with_token (IsIdle i) s.token _ λ t. elim [
  | ok _ ↦ ((λ v h. h), (refresh-Frames i s, ((λ v h. h), tt)))
  | Result.err e ↦ ((λ v h. h), tt)
]

pub remove_rule-Frames :
    (i : Section) (id : String) (s : Page) → Frames (IsIdle i) (remove_rule id s)
unfolding remove_rule
remove_rule-Frames rules id s =
    Frames-with_token (IsIdle rules) s.token _
      λ t. elim [ ok _ ↦ refresh_rules-Frames rules s | Result.err e ↦ ((λ v h. h), tt) ]
remove_rule-Frames i id s =
    Frames-with_token (IsIdle i) s.token _
      λ t. elim [ ok _ ↦ refresh_rules-Frames i s | Result.err e ↦ ((λ v h. h), tt) ]

pub clear_webhook-Frames : (i : Section) (s : Page) → Frames (IsIdle i) (clear_webhook s)
unfolding clear_webhook
clear_webhook-Frames rules s = Frames-with_token (IsIdle rules) s.token _ λ t. elim [
  | ok _ ↦ ((λ v h. h), refresh_webhook-Frames rules s)
  | Result.err e ↦ ((λ v h. h), tt)
]
clear_webhook-Frames i s =
    Frames-with_token (IsIdle i) s.token _ λ t. elim [
      | ok _ ↦ ((λ v h. h), refresh_webhook-Frames i s)
      | Result.err e ↦ ((λ v h. h), tt)
    ]

pub refresh_all-Frames : (i : Section) (s : Page) → Frames (IsIdle i) (refresh_all s)
unfolding refresh refresh_rules refresh_framework refresh_schedule refresh_webhook
refresh_all-Frames i s = (
  refresh-Frames i s,
  (
    refresh_rules-Frames i s,
    (refresh_framework-Frames i s, (refresh_schedule-Frames i s, (refresh_webhook-Frames i s, tt))),
  ),
)
