-- ===== src/Insights/Chart.antt =====
-- frontend/app/app/insights/page.tsx, TrendChart: where the bars of the violations are drawn.
--
-- Lengths are exact fractions of the units of the drawing: across in n-ths, for n points, and upwards
-- in m-ths, where m is the highest number of violations.
pub mod Bounds
use Prim.Native.String
use blackbox_agent_accountab.Prelude.{
  ℕ, zero, suc, ◌+◌, ◌-◌, ◌*◌, ◌/◌, String, Bool, true, false, ◌||◌, Option, none, some, List, [],
  ◌∷◌, length, if◌then◌else◌, ◌==◌, ltb, leb,
}
use blackbox_agent_accountab.Js.{slice}
use blackbox_agent_accountab.Insights.{Point}

abbrev pub width : ℕ
width = 720

abbrev pub height : ℕ
height = 220

abbrev pub padding : ℕ
padding = 28

abbrev pub bar_gap : ℕ
bar_gap = 2

abbrev pub max : ℕ → ℕ → ℕ
max a b = if leb a b then b else a

-- `Math.max(1, ...data.map(d => d.violations))`
abbrev pub highest : List Point → ℕ
highest [] = 1
highest (p ∷ ps) = max p.violations (highest ps)

-- `barW`, for `n` points: the second length is below 0 where the subtraction stops at it, and the
-- first is larger then.
abbrev pub bar_width : ℕ → ℕ
bar_width n = max (2 * n) ((width - padding * 2) - bar_gap * n)

-- `scaleY(v)`
abbrev pub scale_y : ℕ → ℕ
scale_y v = (height - padding * 2) * v

-- `labelIdx.has(i)`; the last of no points is never asked for.
abbrev pub is_labelled : ℕ → ℕ → Bool
is_labelled n i = (i == 0) || (i == n / 2) || (suc i == n)

-- A drawn bar, with the left edge and the width in n-ths, and the upper edge and the height in m-ths.
pub record Bar : Type 0 where
  pub x : ℕ
  pub bar_w : ℕ
  pub y : ℕ
  pub h : ℕ
  pub faded : Bool
  pub label : Option String

-- The bar at the index `i` of `n`.
abbrev pub bar : ℕ → ℕ → ℕ → Point → Bar
bar n m i d = record {
  x = padding * n + i * (bar_width n + bar_gap * n);
  bar_w = bar_width n;
  y = (height - padding) * m - scale_y d.violations;
  h = max (scale_y d.violations) (if ltb 0 d.violations then 2 * m else 0);
  faded = d.violations == 0;
  label = if is_labelled n i then some (slice 5 d.date) else none;
}

abbrev pub bars_from : ℕ → ℕ → ℕ → List Point → List Bar
bars_from n m i [] = []
bars_from n m i (d ∷ ds) = bar n m i d ∷ bars_from n m (suc i) ds

unfoldable pub bars : List Point → List Bar
bars ds = bars_from (length ds) (highest ds) 0 ds
