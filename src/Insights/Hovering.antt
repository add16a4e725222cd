-- ===== src/Insights/Hovering.antt =====
-- frontend/app/app/insights/page.tsx:
-- The pointer over the chart while the range changes.
use blackbox_agent_accountab.Prelude.{
  ◌≡◌, ℕ, String, true, false, none, some, List, [], ◌∷◌, Result, ok, truthy, arith, ◌==◌,
}
use blackbox_agent_accountab.Runtime.Schedule.{Move, starts, settles, play}
use blackbox_agent_accountab.Insights.{
  Point, none_found, Page, Req, Reply, get_violations, get_point, has_bar, Event, click_range,
  enters_bar, handle,
}
use blackbox_agent_accountab.Insights.View.{render}

-- The pointer comes over a bar while the points of another range are fetched.
abbrev pub waiting_pointer : ℕ → ℕ → List (Move Event)
waiting_pointer r i = starts (click_range r) ∷ starts (enters_bar i) ∷ settles 0 ∷ []

-- On a rendered page with a session and no call waiting, which shows a chart with a bar of the index
-- `i`: if a click on a range changes it, the pointer comes over that bar, and then the API answers with
-- points that have violations but none at the index `i`, no call is left waiting, and rendering throws.
pub hover_outlives_points :
    (reply : (r : Req) → Result (Reply r)) (s : Page) (t : String) (r i : ℕ) (qs ps : List Point)
    → s.token ≡ some t
    → truthy t ≡ true
    → s.session_loading ≡ false
    → s.data_points ≡ some qs
    → has_bar (some qs) i ≡ true
    → (s.days == r) ≡ false
    → reply (get_violations t r) ≡ ok ps
    → none_found ps ≡ false
    → get_point ps i ≡ none
    → let w = play handle reply (waiting_pointer r i) (record { state = s; tasks = [] }) in
      (w.tasks ≡ []) × (render w.state ≡ none)
unfolding handle render
hover_outlives_points reply s t r i qs ps a b c d e f g h k = ground arith
