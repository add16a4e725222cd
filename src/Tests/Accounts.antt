-- ===== src/Tests/Accounts.antt =====
-- Logging in, billing and insights, on concrete pages.
use blackbox_agent_accountab.Prelude.{
  arith, ◌≡◌, refl, false, none, some, List, [], ◌∷◌, Result, ok, All, Any, if◌then◌else◌, ◌==◌,
}
use blackbox_agent_accountab.Runtime.{World}
use blackbox_agent_accountab.Runtime.Schedule.{Move, starts, settles, play}
use blackbox_agent_accountab.View.{text}
use blackbox_agent_accountab.Billing
use blackbox_agent_accountab.Billing.View.{percent}
use blackbox_agent_accountab.Insights
use blackbox_agent_accountab.Insights.Chart.{bar, bars}
use blackbox_agent_accountab.Insights.Chart.Bounds.{IsInside, Spaced, bars_fit}
use blackbox_agent_accountab.Insights.Hovering.{waiting_pointer, hover_outlives_points}
use blackbox_agent_accountab.Insights.View.{render, total, empty_notice}
use blackbox_agent_accountab.Insights.Ranges.{overtaken, range_overtaken}
use blackbox_agent_accountab.Login
use blackbox_agent_accountab.Login.View.{sent_notice}
use blackbox_agent_accountab.Login.Submitting.{changed_mind, reset_says_activate}

abbrev account : Billing.Page
account = record {
  token = some "jwt";
  session_loading = false;
  just_upgraded = false;
  plan = some "free";
  usage = some (record { hosted_audits_used = 1; limit = 8 });
  email = some "a@x.io";
  busy = Billing.idle;
  err = none;
  loading = false;
  pushed = [];
  replaced = [];
  location = none;
}

percent_test :
    (percent account.usage ≡ 13)
    × (percent (some (record { hosted_audits_used = 9; limit = 8 })) ≡ 100)
    × (percent (some (record { hosted_audits_used = 9; limit = 0 })) ≡ 0)
unfolding percent
percent_test = (refl, refl, refl)

abbrev bill : (r : Billing.Req) → Result (Billing.Reply r)
bill (Billing.get_plan _) = ok "free"
bill (Billing.get_usage _) = ok (record { hosted_audits_used = 1; limit = 8 })
bill (Billing.post_checkout _ _) = ok "https://pay.x"
bill (Billing.post_portal _) = Result.err "down"

-- The address is replaced when the checkout came back with an upgrade, and else not.
upgraded_test :
    ((play Billing.handle bill
        (starts Billing.mounts ∷ [])
        (record { state = Billing.opened (some "true"); tasks = [] })).state.replaced
      ≡ "/app/billing" ∷ [])
    × ((play Billing.handle bill
          (starts Billing.mounts ∷ [])
          (record { state = Billing.opened none; tasks = [] })).state.replaced
        ≡ [])
unfolding Billing.handle
upgraded_test = (refl, refl)

abbrev bill_calm : World Billing.Page Billing.Req Billing.Reply
bill_calm = record { state = account; tasks = [] }

abbrev buying : List (Move Billing.Event)
buying = starts Billing.click_upgrade ∷ settles 0 ∷ []

abbrev month : Insights.Page
month = record {
  token = some "jwt";
  session_loading = false;
  days = 30;
  data_points = none;
  err = none;
  hover = none;
  pushed = [];
}

abbrev quiet_day : List Insights.Point
quiet_day = record { date = "2026-01-02"; violations = 0 } ∷ []

abbrev bad_day : List Insights.Point
bad_day = record { date = "2026-01-01"; violations = 2 } ∷ quiet_day

abbrev count : (r : Insights.Req) → Result (Insights.Reply r)
count (Insights.get_violations _ days) = if days == 7 then ok quiet_day else ok bad_day

range_overtaken_example :
    let w = play Insights.handle count (overtaken 7 90) (record { state = month; tasks = [] }) in
    (w.tasks ≡ [])
    × (w.state.days ≡ 90)
    × Any (λ n. n ≡ empty_notice 90) (blackbox_agent_accountab.Insights.View.view w.state)
unfolding Insights.none_found
range_overtaken_example =
    range_overtaken count month "jwt" 7 90 quiet_day bad_day refl refl refl refl refl refl refl refl

abbrev forgetful : Login.Page
forgetful = record {
  email = "a@x.io";
  password = "";
  mode = Login.reset;
  err = none;
  busy = false;
  sent = false;
  pushed = [];
}

abbrev mail : (r : Login.Req) → Result (Login.Reply r)
mail r = ok (Login.accepted false)

abbrev login_calm : World Login.Page Login.Req Login.Reply
login_calm = record { state = forgetful; tasks = [] }

abbrev asking : List (Move Login.Event)
asking = starts Login.submits ∷ settles 0 ∷ []

reset_says_activate_example :
    let w = play (Login.handle "https://x.io") mail changed_mind login_calm in
    (w.tasks ≡ [])
    × Any
        (λ n. n ≡ text (sent_notice Login.login "a@x.io"))
        (blackbox_agent_accountab.Login.View.view w.state)
reset_says_activate_example = reset_says_activate "https://x.io" mail forgetful false refl refl

-- A chart of two days; the answer for seven has one.
abbrev charted : Insights.Page
charted = record month {
  data_points = some (
      record { date = "2026-01-01"; violations = 1 }
      ∷ record { date = "2026-01-02"; violations = 1 }
      ∷ []);
}

abbrev one_day : List Insights.Point
one_day = record { date = "2026-01-02"; violations = 1 } ∷ []

abbrev hover_reply : (r : Insights.Req) → Result (Insights.Reply r)
hover_reply (Insights.get_violations _ days) = ok one_day

hover_outlives_points_example :
    let w =
      play Insights.handle hover_reply
        (waiting_pointer 7 1)
        (record { state = charted; tasks = [] }) in
    (w.tasks ≡ []) × (render w.state ≡ none)
unfolding Insights.none_found
hover_outlives_points_example =
    hover_outlives_points hover_reply charted "jwt" 7 1 _ one_day refl refl refl refl refl refl refl
      refl refl

bars_test :
    let b = bar 2 2 1 (record { date = "2026-01-02"; violations = 1 }) in
    (b.x ≡ 720) × (b.bar_w ≡ 660) × (b.y ≡ 220) × (b.h ≡ 164) × (b.label ≡ some "01-02")
bars_test = (refl, refl, refl, refl, refl)

bars_fit_example : All (IsInside 2 2) (bars bad_day) × Spaced 2 (bars bad_day)
bars_fit_example = bars_fit bad_day (omega arith)
