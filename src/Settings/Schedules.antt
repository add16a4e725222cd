-- ===== src/Settings/Schedules.antt =====
-- frontend/app/app/settings/page.tsx:
-- The section of the automated tribunal runs.
use blackbox_agent_accountab.Prelude.{
  ℕ, String, Bool, true, false, none, some, Result, ok, if◌then◌else◌, ltb, ◌==◌,
}
use blackbox_agent_accountab.Js.{includes}
use blackbox_agent_accountab.Runtime.{done, act, call, with_token, then_do}
use blackbox_agent_accountab.Settings.{Page, Handler, get_schedule, put_schedule, Schedule}

abbrev got_schedule : Result Schedule → Page → Page
got_schedule (ok c) u = record u { schedule = some c; schedule_interval = c.interval_minutes }
got_schedule (Result.err e) u = record u { schedule_err = some e }

unfoldable pub refresh_schedule : Page → Handler
refresh_schedule s = with_token s.token λ t. call (get_schedule t) (λ x. act (got_schedule x) done)

-- What the page shows for an error of saving the schedule.
abbrev pub schedule_message : String → String
schedule_message e =
    if includes e "402" then "Automated tribunal runs are a Pro plan feature." else e

abbrev pub schedule_saved : Page → Result (Unit {0}) → Handler
unfolding refresh_schedule
schedule_saved s (ok _) =
    then_do (refresh_schedule s) (act (λ u. record u { schedule_busy = false }) done)
schedule_saved s (Result.err e) =
    act (λ u. record u { schedule_err = some (schedule_message e) })
      (act (λ u. record u { schedule_busy = false }) done)

unfoldable pub save_schedule : Bool → Page → Handler
unfolding refresh_schedule
save_schedule enabled s = with_token s.token λ t.
    act (λ u. record u { schedule_err = none; schedule_busy = true })
      (call (put_schedule t enabled s.schedule_interval) (schedule_saved s))

-- `Math.max(15, Number(value) || 15)`, with 0 for a value that is no number. Fractions and
-- negative numbers are left out.
unfoldable pub interval_of : ℕ → ℕ
interval_of n = let m = if n == 0 then 15 else n in if ltb m 15 then 15 else m
