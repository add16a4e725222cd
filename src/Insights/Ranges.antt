-- ===== src/Insights/Ranges.antt =====
-- frontend/app/app/insights/page.tsx:
-- What the page says of a range.
use blackbox_agent_accountab.Prelude.{
  ◌≡◌, ◌↔◌, refl, ℕ, ◌+◌, String, true, false, some, List, [], ◌∷◌, Result, ok, Any,
  Any-append_right, truthy, arith, ◌==◌, subst, sym, inl, if◌then◌else◌,
}
use blackbox_agent_accountab.Runtime.Schedule.{Move, starts, settles, play}
use blackbox_agent_accountab.View.{Node, text, each}
use blackbox_agent_accountab.Insights.{
  Point, none_found, ranges, Page, Req, Reply, get_violations, Event, click_range, handle,
}
use blackbox_agent_accountab.Insights.View.{
  total_from, total, show_range, empty_notice, show_data, show_points, shown_error, shown_page,
  view,
}

-- Two clicks on ranges, of which the second is answered first.
abbrev pub overtaken : ℕ → ℕ → List (Move Event)
overtaken a b = starts (click_range a) ∷ starts (click_range b) ∷ settles 1 ∷ settles 0 ∷ []

module _ (reply : (r : Req) → Result (Reply r)) (s : Page) (t : String) (a b : ℕ)
    (ps qs : List Point) (signed : s.token ≡ some t) (present_token : truthy t ≡ true)
    (ready : s.session_loading ≡ false) (first_new : (s.days == a) ≡ false)
    (second_new : (a == b) ≡ false) (first_reply : reply (get_violations t a) ≡ ok ps)
    (second_reply : reply (get_violations t b) ≡ ok qs) where
  overtaken_lem :
      let w = play handle reply (overtaken a b) (record { state = s; tasks = [] }) in
      (w.tasks ≡ [])
      × (w.state.days ≡ b)
      × (w.state.data_points ≡ some ps)
      × (w.state.session_loading ≡ false)
  unfolding handle
  overtaken_lem = ground arith

Empty-view :
    (u : Page) (b : ℕ) (ps : List Point)
    → u.session_loading ≡ false
    → u.days ≡ b
    → u.data_points ≡ some ps
    → none_found ps ≡ true
    → Any (λ n. n ≡ empty_notice b) (view u)
unfolding view
Empty-view u b ps l d p e =
    let P : Node Event → Type 0 = λ n. n ≡ empty_notice b in
    let found : Any P (show_data b (some ps) u.hover) =
      subst (λ c. Any P (if c then empty_notice b ∷ [] else show_points b ps u.hover)) (sym e)
        (inl refl) in
    let shown : Any P (show_data u.days u.data_points u.hover) =
      subst (λ n. Any P (show_data n u.data_points u.hover)) (sym d)
        (subst (λ o. Any P (show_data b o u.hover)) (sym p) found) in
    subst (λ c. Any P (if c then text "Loading…" ∷ [] else shown_page u)) (sym l)
      (Any-append_right P (each ranges show_range) _ (Any-append_right P (shown_error u) _ shown))

-- On a rendered page with a session and no call waiting, with two clicks on ranges that each change
-- the range, and whatever the replies for them list, if no violation is in the reply for the first: if
-- the second click is answered before the first, then no call is left waiting, and the page says that
-- there are no violations in the second range.
pub range_overtaken :
    (reply : (r : Req) → Result (Reply r)) (s : Page) (t : String) (a b : ℕ) (ps qs : List Point)
    → s.token ≡ some t
    → truthy t ≡ true
    → s.session_loading ≡ false
    → (s.days == a) ≡ false
    → (a == b) ≡ false
    → reply (get_violations t a) ≡ ok ps
    → reply (get_violations t b) ≡ ok qs
    → none_found ps ≡ true
    → let w = play handle reply (overtaken a b) (record { state = s; tasks = [] }) in
      (w.tasks ≡ []) × (w.state.days ≡ b) × Any (λ n. n ≡ empty_notice b) (view w.state)
range_overtaken reply s t a b ps qs p q l x y h k e =
    let (quiet, d, g, m) = overtaken_lem reply s t a b ps qs p q l x y h k in
    let w = play handle reply (overtaken a b) (record { state = s; tasks = [] }) in
    (quiet, d, Empty-view w.state b ps m d g e)

total_from_lem : (n : ℕ) (ps : List Point) → total_from n ps ≡ n + total_from 0 ps
total_from_lem n [] = omega arith
total_from_lem n (p ∷ ps) =
    let one = total_from_lem (n + p.violations) ps in
    let two = total_from_lem p.violations ps in grind arith

-- The page says that there are no violations exactly for points whose total is zero.
pub none_found_iff : (ps : List Point) → (none_found ps ≡ true) ↔ (total ps ≡ 0)
unfolding none_found total
none_found_iff [] = (λ _. refl, λ _. refl)
none_found_iff (p ∷ ps) =
    let rest = none_found_iff ps in let sum = total_from_lem p.violations ps in ground arith
