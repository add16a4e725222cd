-- ===== src/Insights/View.antt =====
-- frontend/app/app/insights/page.tsx:
-- What the page renders.
use blackbox_agent_accountab.Prelude.{
  ℕ, ◌+◌, Bool, false, ◌&&◌, Option, none, some, List, [], ◌∷◌, ◌++◌, if◌then◌else◌, ◌==◌, present,
  or_else, is_some, not,
}
use blackbox_agent_accountab.Js.{template, to_string}
use blackbox_agent_accountab.View.{Node, text, button, when, each}
use blackbox_agent_accountab.Insights.Chart.{Bar, bars}
use blackbox_agent_accountab.Insights.{
  Point, none_found, get_point, ranges, Page, Event, click_range,
}

-- `data.reduce((s, d) => s + d.violations, 0)`
abbrev pub total_from : ℕ → List Point → ℕ
total_from n [] = n
total_from n (p ∷ ps) = total_from (n + p.violations) ps

unfoldable pub total : List Point → ℕ
total ps = total_from 0 ps

-- The row of a point in the table for screen readers.
abbrev pub show_point : Point → List (Node Event)
show_point p = text p.date ∷ text (to_string p.violations) ∷ []

abbrev pub show_range : ℕ → List (Node Event)
show_range r = button (template (to_string r ∷ "d" ∷ [])) false (click_range r) ∷ []

abbrev pub empty_notice : ℕ → Node Event
empty_notice days = text (template ("No violations in the last " ∷ to_string days ∷ " days." ∷ []))

abbrev pub total_notice : ℕ → ℕ → Node Event
total_notice n days =
    text (template (to_string n ∷ " total in the last " ∷ to_string days ∷ " days" ∷ []))

abbrev pub tip : Option Point → List (Node Event)
tip none = []
tip (some p) =
    text (
      template (
        to_string p.violations
        ∷ " violation"
        ∷ (if p.violations == 1 then "" else "s")
        ∷ " · "
        ∷ p.date
        ∷ []))
    ∷ []

-- What is shown over the chart; `render` says what happens for an index out of range.
abbrev pub tooltip : List Point → Option ℕ → List (Node Event)
tooltip ps none = []
tooltip ps (some i) = tip (get_point ps i)

abbrev pub bar_label : Bar → List (Node Event)
bar_label b = when (present b.label) (text (or_else b.label "") ∷ [])

-- The chart: the labels below its bars, the tooltip and the table for screen readers.
abbrev pub show_chart : List Point → Option ℕ → List (Node Event)
show_chart ps hover = each (bars ps) bar_label ++ (tooltip ps hover ++ each ps show_point)

abbrev pub show_points : ℕ → List Point → Option ℕ → List (Node Event)
show_points days ps hover = total_notice (total ps) days ∷ show_chart ps hover

abbrev pub show_data : ℕ → Option (List Point) → Option ℕ → List (Node Event)
show_data days none hover = text "Loading…" ∷ []
show_data days (some ps) hover =
    if none_found ps then empty_notice days ∷ [] else show_points days ps hover

abbrev pub shown_error : Page → List (Node Event)
shown_error s = when (present s.err) (text (or_else s.err "") ∷ [])

abbrev pub shown_page : Page → List (Node Event)
shown_page s = each ranges show_range ++ (shown_error s ++ show_data s.days s.data_points s.hover)

unfoldable pub view : Page → List (Node Event)
view s = if s.session_loading then text "Loading…" ∷ [] else shown_page s

-- `data[hover].violations` of an index out of range throws.
abbrev pub misses : List Point → Option ℕ → Bool
misses ps none = false
misses ps (some i) = not (is_some (get_point ps i))

abbrev pub chart_throws : Option (List Point) → Option ℕ → Bool
chart_throws none hover = false
chart_throws (some ps) hover = not (none_found ps) && misses ps hover

-- What is rendered, or none where rendering throws.
unfoldable pub render : Page → Option (List (Node Event))
unfolding view
render s =
    if not s.session_loading && chart_throws s.data_points s.hover then none else some (view s)
