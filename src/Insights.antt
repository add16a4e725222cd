-- ===== src/Insights.antt =====
-- frontend/app/app/insights/page.tsx: the violations of the last days.
pub mod Chart
pub mod View
pub mod Ranges
pub mod Hovering
use blackbox_agent_accountab.Prelude.{
  ℕ, zero, suc, ◌+◌, is_some, String, Bool, true, false, not, ◌&&◌, ◌||◌, Option, none, some, [],
  ◌∷◌, List, Result, ok, if◌then◌else◌, present, same, ◌==◌,
}
use blackbox_agent_accountab.Js.{template, to_string}
use blackbox_agent_accountab.Api.{Options, fetching}
use blackbox_agent_accountab.Runtime.{Prog, done, act, call, with_token, only_if}

pub record Point : Type 0 where
  pub date : String
  pub violations : ℕ

-- `data.every(d => d.violations === 0)`
unfoldable pub none_found : List Point → Bool
none_found [] = true
none_found (p ∷ ps) = (p.violations == 0) && none_found ps

-- `data[i]`
abbrev pub get_point : List Point → ℕ → Option Point
get_point [] i = none
get_point (p ∷ ps) zero = some p
get_point (p ∷ ps) (suc i) = get_point ps i

abbrev pub ranges : List ℕ
ranges = 7 ∷ 30 ∷ 90 ∷ []

-- The state of the page: its hooks, the index over which the pointer is in the chart, which is none
-- while no chart is there, and what it told the router.
pub record Page : Type 0 where
  pub token : Option String
  pub session_loading : Bool
  pub days : ℕ
  pub data_points : Option (List Point)
  pub err : Option String
  pub hover : Option ℕ
  pub pushed : List String

-- The call of the API that the page makes, for a number of days.
pub data Req : Type 0 where
  get_violations : String → ℕ → Req

abbrev pub Reply : Req → Type 0
Reply (get_violations _ _) = List Point

-- What the call of a request is given.
unfoldable pub wire : Req → String × Options
wire (get_violations t days) =
    (template ("/stats/violations?days=" ∷ to_string days ∷ []), fetching t)

abbrev pub Handler : Type 0
Handler = Prog Page Req Reply

-- The chart is not rendered where no violations are found, and loses its state then.
abbrev pub got_points : Result (List Point) → Page → Page
got_points (ok ps) u = record u {
  data_points = some ps;
  hover = if none_found ps then none else u.hover;
}
got_points (Result.err e) u = record u { err = some e }

unfoldable pub refresh : Page → Handler
refresh s = with_token s.token λ t. call (get_violations t s.days) (λ x. act (got_points x) done)

pub data Event : Type 0 where
  -- the session hook reports a token, or that there is none
  session : Option String → Event
  click_range : ℕ → Event
  -- the pointer comes over the bar with that index, if the page has drawn one, or leaves a bar
  enters_bar : ℕ → Event
  leaves_bar : Event

abbrev pub to_login : Bool → Option String → Page → Page
to_login changed t u = record u {
  pushed = if changed && not (present t) then "/login" ∷ u.pushed else u.pushed;
}

-- Whether a bar with the index `i` is drawn for the points.
abbrev pub has_bar : Option (List Point) → ℕ → Bool
has_bar none i = false
has_bar (some ps) i = not (none_found ps) && is_some (get_point ps i)

abbrev pub draws : Page → ℕ → Bool
draws s i = not s.session_loading && has_bar s.data_points i

-- A change of the token or of the range runs the effect that fetches.
unfoldable pub handle : Event → Page → Handler
unfolding refresh
handle (session t) s =
    let changed = not (same s.token t) in
    act (λ u. record u { token = t; session_loading = false })
      (act (to_login (s.session_loading || changed) t)
        (only_if changed (refresh (record s { token = t }))))
handle (click_range r) s =
    act (λ u. record u { days = r }) (only_if (not (s.days == r)) (refresh (record s { days = r })))
handle (enters_bar i) s = only_if (draws s i) (act (λ u. record u { hover = some i }) done)
handle leaves_bar s = act (λ u. record u { hover = none }) done
