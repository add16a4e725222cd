-- ===== src/Insights/Chart/Bounds.antt =====
-- frontend/app/app/insights/page.tsx, TrendChart:
-- Where the bars stand in the drawing.
use blackbox_agent_accountab.Prelude.{
  ℕ, zero, suc, ◌+◌, ◌-◌, ◌*◌, ◌≤◌, ◌<◌, ◌≡◌, ap, List, [], ◌∷◌, length, All, arith, if◌then◌else◌,
  ltb,
}
use blackbox_agent_accountab.Insights.{Point}
use blackbox_agent_accountab.Insights.Chart.{
  width, height, padding, bar_gap, max, highest, bar_width, Bar, bar, bars_from, bars,
}

-- The bar is not empty and within the padding of the drawing, but for two units below the base line.
abbrev pub IsInside : ℕ → ℕ → Bar → Type 0
IsInside n m b =
    (0 < b.bar_w)
    × (padding * n ≤ b.x)
    × (b.x + b.bar_w ≤ (width - padding) * n)
    × (padding * m ≤ b.y)
    × (b.y + b.h ≤ (height - padding + 2) * m)

-- Each bar ends the gap before the next begins.
abbrev pub Spaced : ℕ → List Bar → Type 0
Spaced n [] = Unit
Spaced n (b ∷ []) = Unit
Spaced n (b ∷ b' ∷ bs) = (b.x + b.bar_w + bar_gap * n ≡ b'.x) × Spaced n (b' ∷ bs)

abbrev Below : ℕ → Point → Type 0
Below m d = d.violations ≤ m

bar_width-sum : (n : ℕ) → n ≤ 166 → bar_width n + bar_gap * n ≡ 664
bar_width-sum n p = ground arith

step_le : (i n : ℕ) → i < n → i * 664 + 664 ≤ 664 * n
step_le i n p = omega arith

drawn-le :
    (m v : ℕ) → v ≤ m → (192 * m - 164 * v) + max (164 * v) (if ltb 0 v then 2 * m else 0) ≤ 194 * m
drawn-le m zero p = ground arith
drawn-le m (suc v) p = ground arith

bar-IsInside :
    (n m i : ℕ) (d : Point) → i < n → n ≤ 166 → d.violations ≤ m → IsInside n m (bar n m i d)
bar-IsInside n m i d p q r =
    let sum = bar_width-sum n q in
    let steps = step_le i n p in
    let across : i * (bar_width n + bar_gap * n) ≡ i * 664 = ap (λ w. i * w) sum in
    (omega arith, omega arith, omega arith, omega arith, drawn-le m d.violations r)

bars_from-IsInside :
    (n m i : ℕ) (ds : List Point)
    → i + length ds ≤ n
    → n ≤ 166
    → All (Below m) ds
    → All (IsInside n m) (bars_from n m i ds)
bars_from-IsInside n m i [] p q h = tt
bars_from-IsInside n m i (d ∷ ds) p q (b, h) =
    (bar-IsInside n m i d (omega arith) q b, bars_from-IsInside n m (suc i) ds (omega arith) q h)

next_bar : (a i w g : ℕ) → a + i * (w + g) + w + g ≡ a + suc i * (w + g)
next_bar a i w g = omega arith

bars_from-Spaced : (n m i : ℕ) (ds : List Point) → Spaced n (bars_from n m i ds)
bars_from-Spaced n m i [] = tt
bars_from-Spaced n m i (d ∷ []) = tt
bars_from-Spaced n m i (d ∷ d' ∷ ds) =
    (next_bar (padding * n) i (bar_width n) (bar_gap * n), bars_from-Spaced n m (suc i) (d' ∷ ds))

Below-map : (m k : ℕ) (ds : List Point) → m ≤ k → All (Below m) ds → All (Below k) ds
Below-map m k [] p h = tt
Below-map m k (d ∷ ds) p (b, h) = (omega arith, Below-map m k ds p h)

highest-Below : (ds : List Point) → All (Below (highest ds)) ds
highest-Below [] = tt
highest-Below (d ∷ ds) =
    (ground arith, Below-map (highest ds) (highest (d ∷ ds)) ds (ground arith) (highest-Below ds))

-- For at most 166 points: every bar of the chart has a width, stands within
-- the padding of the drawing, but for two units below the base line, and ends the gap before the next
-- bar begins.
pub bars_fit :
    (ds : List Point)
    → length ds ≤ 166
    → All (IsInside (length ds) (highest ds)) (bars ds) × Spaced (length ds) (bars ds)
unfolding bars
bars_fit ds p = (
  bars_from-IsInside (length ds) (highest ds) 0 ds (omega arith) p (highest-Below ds),
  bars_from-Spaced (length ds) (highest ds) 0 ds,
)
