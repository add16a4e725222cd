-- ===== src/Tests/Sections.antt =====
-- The settings of a workspace, on concrete pages.
use blackbox_agent_accountab.Prelude.{
  ◌≡◌, refl, true, false, none, some, List, [], ◌∷◌, Result, ok, Any,
}
use blackbox_agent_accountab.Api.{api_error}
use blackbox_agent_accountab.Runtime.{World, here, advance}
use blackbox_agent_accountab.Runtime.Sequential.{exec}
use blackbox_agent_accountab.Runtime.Schedule.{Move, starts, settles, play, play-Reach}
use blackbox_agent_accountab.Settings.{
  PolicyRule, Page, Req, Reply, get_rules, put_rule, put_framework,
}
use blackbox_agent_accountab.Settings.Rules.{keywords_of, add_rule}
use blackbox_agent_accountab.Settings.Framework.{change_framework}
use blackbox_agent_accountab.Settings.Events.{Event, session, click_add_rule, handle}
use blackbox_agent_accountab.Settings.View.{view}
use blackbox_agent_accountab.View.{text}
use blackbox_agent_accountab.Dashboard.Leaving.{signed_out_shows_secret}
use blackbox_agent_accountab.Settings.Frames.{rules}
use blackbox_agent_accountab.Settings.Quiescence.{section_is_released}
use blackbox_agent_accountab.Settings.Saving.{add_rule_lem, change_framework_confirms}

abbrev page : Page
page = record {
  token = some "jwt";
  confirm = none;
  configured = some true;
  key = "";
  err = none;
  rules = [];
  rule_id = "no-rm";
  rule_desc = "no deletions";
  rule_severity = "high";
  rule_keywords = " rm ,, delete";
  rule_err = none;
  rule_busy = false;
  framework_info = some (record { framework = "soc2"; available = "soc2" ∷ "hipaa" ∷ [] });
  framework_busy = false;
  framework_err = none;
  schedule = none;
  schedule_interval = 60;
  schedule_err = none;
  schedule_busy = false;
  webhook = none;
  webhook_url = "";
  webhook_err = none;
  webhook_busy = false;
}

abbrev alerting : Page
alerting = record page {
  webhook = some (record { url = some "https://x.io/hook"; secret = some "whsec_1" });
}

signed_out_shows_secret_example :
    let (u, calls) = advance (handle (session none) alerting) alerting in
    (u.token ≡ none) × (calls ≡ []) × Any (λ n. n ≡ text "whsec_1") (view (λ x. 60) (λ x. x) u)
signed_out_shows_secret_example =
    signed_out_shows_secret (λ x. 60) (λ x. x) "whsec_1" refl alerting "jwt" refl refl

abbrev rule : PolicyRule
rule = record {
  id = "no-rm";
  description = "no deletions";
  severity = "high";
  keywords = "rm" ∷ "delete" ∷ [];
  custom = true;
}

abbrev serve : (r : Req) → Result (Reply r)
serve (get_rules _) = ok (rule ∷ [])
serve (put_rule _ _ _ _ _) = ok tt
serve _ = Result.err "down"

-- The server takes the framework and answers nothing else.
abbrev forget : (r : Req) → Result (Reply r)
forget (put_framework _ _) = ok tt
forget _ = Result.err "down"

abbrev unpaid : (r : Req) → Result (Reply r)
unpaid r = Result.err (api_error 402 "no plan")

keywords_of_test : keywords_of " rm ,, delete" ≡ "rm" ∷ "delete" ∷ []
unfolding keywords_of blackbox_agent_accountab.Js.split_commas blackbox_agent_accountab.Js.trim
keywords_of_test = refl

abbrev calm : World Page Req Reply
calm = record { state = page; tasks = [] }

abbrev adding : List (Move Event)
adding = starts click_add_rule ∷ settles 0 ∷ settles 0 ∷ []

section_is_released_example : (play handle serve adding calm).state.rule_busy ≡ false
unfolding handle
section_is_released_example =
    section_is_released rules refl (play-Reach handle serve adding calm here) refl

add_rule_lem_example :
    let (u, calls) = exec serve (add_rule page) page in
    (u.rules ≡ rule ∷ [])
    × (u.rule_id ≡ "")
    × (u.rule_desc ≡ "")
    × (u.rule_keywords ≡ "")
    × (u.rule_severity ≡ "medium")
    × (u.rule_err ≡ none)
    × (u.rule_busy ≡ false)
    × (u.confirm ≡ some "Rule saved")
    × (calls
        ≡ put_rule "jwt" "no-rm" "no deletions" "high" (keywords_of " rm ,, delete")
          ∷ get_rules "jwt"
          ∷ [])
add_rule_lem_example = add_rule_lem serve page "jwt" refl refl refl refl refl refl

change_framework_confirms_example :
    let u = (exec forget (change_framework "hipaa" page) page).0 in
    (u.confirm ≡ some "Framework updated")
    × (u.framework_info ≡ page.framework_info)
    × (u.rules ≡ [])
    × (u.framework_err ≡ some "down")
    × (u.rule_err ≡ some "down")
    × (u.framework_busy ≡ false)
change_framework_confirms_example =
    change_framework_confirms forget page "jwt" refl refl refl refl refl
