-- ===== src/Tests/Hooks.antt =====
-- The session hook, the confirmation and the scenes.
use blackbox_agent_accountab.Prelude.{
  ◌≡◌, ◌⊎◌, inl, inr, refl, none, some, List, [], ◌∷◌, Bool, true, false, arith, Result, ok, ℕ,
  zero, suc, ◌+◌, ◌*◌, ◌/◌, ℤ, pos, negsuc, pos_part, neg_part, difference, ltb_ℤ, if◌then◌else◌,
}
use blackbox_agent_accountab.Runtime.{World, Reach, here, next, event, settle}
use blackbox_agent_accountab.Runtime.Schedule.{Move, starts, settles, play, play-Reach}
use blackbox_agent_accountab.Session.{Session, start, Req, Reply, Event, answered, changed, handle}
use blackbox_agent_accountab.Session.Provisioned.{Provided, token_is_Provided}
use blackbox_agent_accountab.Session.Ordering.{
  last_report, last_report_is_shown, signed_out_shows_token,
}
use blackbox_agent_accountab.Confirm.{fresh, Happens, shows, passes, step, history}
use blackbox_agent_accountab.SceneProgress.{
  Numbers, get_active_scene_index, get_scene_local_progress, is_scene_active,
}
use blackbox_agent_accountab.SceneProgress.Scenes.{revealing-IsActive}

abbrev provide : (r : Req) → Result (Reply r)
provide r = ok tt

abbrev signing_in : List (Move Event)
signing_in = starts (answered none) ∷ starts (changed (some "jwt")) ∷ settles 0 ∷ []

abbrev empty : World Session Req Reply
empty = record { state = start; tasks = [] }

-- The token is not shown while the workspace is being provided, and is shown then.
signing_in_test :
    ((play handle provide (starts (changed (some "jwt")) ∷ []) empty).state.token ≡ none)
    × ((play handle provide signing_in empty).state.token ≡ some "jwt")
    × ((play handle provide signing_in empty).tasks ≡ [])
unfolding handle
signing_in_test = (refl, refl, refl)

token_is_Provided_example : Provided "jwt" (play-Reach handle provide signing_in empty here)
unfolding handle
token_is_Provided_example =
    token_is_Provided "jwt" (play-Reach handle provide signing_in empty here) refl refl

abbrev signed_in : Reach handle empty (play handle provide signing_in empty)
unfolding handle
signed_in =
    next (next (next here (event (answered none))) (event (changed (some "jwt"))))
      (settle [] [] _ _ refl (ok tt, refl))

last_report_is_shown_example : (play handle provide signing_in empty).state.token ≡ some "jwt"
unfolding handle
last_report_is_shown_example =
    last_report_is_shown signed_in (some "jwt") (refl, (refl, tt)) refl refl

signed_out_shows_token_example :
    (w : World Session Req Reply) × (r : Reach handle empty w) × (w.tasks ≡ [])
    × (last_report r ≡ some none)
    × (w.state.token ≡ some "jwt")
signed_out_shows_token_example = signed_out_shows_token start "jwt" refl

abbrev some_history : List Happens
some_history = shows "Key saved" ∷ passes 3000 ∷ shows "Key cleared" ∷ passes 3999 ∷ []

history_test :
    ((history 4000 some_history (fresh 0)).message ≡ some "Key cleared")
    × ((step 4000 (passes 1) (history 4000 some_history (fresh 0))).message ≡ none)
unfolding history
history_test = (refl, refl)

-- Exact millionths, rounded towards zero where they are divided.
abbrev unit : ℕ
unit = 1000000

abbrev tenth_power : ℕ → ℕ
tenth_power zero = 1
tenth_power (suc n) = 10 * tenth_power n

abbrev quotient : ℤ → ℤ → ℤ
quotient a b = difference (pos_part a * unit / pos_part b) (neg_part a * unit / pos_part b)

abbrev down : ℤ → ℤ
down (pos n) = pos (n / unit * unit)
down (negsuc n) = difference 0 ((n / unit + 1) * unit)

abbrev exact : Numbers
exact = record {
  F = ℤ;
  decimal = λ n d. pos (n * unit / tenth_power d);
  plus = λ a b. difference (pos_part a + pos_part b) (neg_part a + neg_part b);
  minus = λ a b. difference (pos_part a + neg_part b) (neg_part a + pos_part b);
  times = λ a b.
      difference ((pos_part a * pos_part b + neg_part a * neg_part b) / unit)
        ((pos_part a * neg_part b + neg_part a * pos_part b) / unit);
  over = quotient;
  negate = λ a. difference (neg_part a) (pos_part a);
  larger = λ a b. if ltb_ℤ a b then b else a;
  smaller = λ a b. if ltb_ℤ a b then a else b;
  floor = down;
  less = ltb_ℤ;
}

scene_tests :
    (get_active_scene_index exact (pos 410000) (pos 5000000) ≡ pos 2000000)
    × (get_active_scene_index exact (pos 2000000) (pos 5000000) ≡ pos 4000000)
    × (get_active_scene_index exact (negsuc 199999) (pos 5000000) ≡ pos 0)
    × (get_scene_local_progress exact (pos 410000) (pos 5000000) (pos 2000000) ≡ pos 50000)
    × (get_scene_local_progress exact (negsuc 9) (pos 5000000) (pos 0) ≡ pos 0)
    × (is_scene_active exact (negsuc 19999) (pos 5000000) (pos 0) (pos 150000) ≡ true)
    × (is_scene_active exact (negsuc 29999) (pos 5000000) (pos 0) (pos 150000) ≡ false)
unfolding get_active_scene_index get_scene_local_progress is_scene_active difference
scene_tests = (refl, refl, refl, refl, refl, refl, refl)

if_choice : (b : Bool) (x y : ℤ) → ((if b then x else y) ≡ x) ⊎ ((if b then x else y) ≡ y)
if_choice true x y = inl refl
if_choice false x y = inr refl

if_other : (b : Bool) (x y : ℤ) → ((if b then y else x) ≡ x) ⊎ ((if b then y else x) ≡ y)
if_other true x y = inr refl
if_other false x y = inl refl

less_irrefl : (x : ℤ) → ltb_ℤ x x ≡ false
less_irrefl x = ground arith

less_trans : (x y z : ℤ) → ltb_ℤ x y ≡ true → ltb_ℤ y z ≡ true → ltb_ℤ x z ≡ true
less_trans x y z h k = ground arith

revealing-IsActive_example :
    is_scene_active exact (pos 410000) (pos 5000000) (pos 2000000) (pos 150000) ≡ true
unfolding get_scene_local_progress difference
revealing-IsActive_example =
    revealing-IsActive exact less_irrefl less_trans (λ x y. if_other (ltb_ℤ x y) x y)
      (λ x y. if_choice (ltb_ℤ x y) x y) (pos 410000) (pos 5000000) (pos 2000000) (pos 150000) refl
      refl refl refl
