-- ===== src/Login/Submitting.antt =====
-- frontend/app/login/page.tsx:
-- What submitting the form comes to.
use blackbox_agent_accountab.Prelude.{
  ◌≡◌, refl, inr, String, Bool, true, false, List, [], ◌∷◌, Result, ok, Any, arith, inl,
  if◌then◌else◌, subst, sym,
}
use blackbox_agent_accountab.Runtime.{World, Reach}
use blackbox_agent_accountab.Runtime.Quiet.{Keeps, Restores}
use blackbox_agent_accountab.Runtime.Waiting.{quiet}
use blackbox_agent_accountab.Runtime.Schedule.{Move, starts, settles, play}
use blackbox_agent_accountab.Js.{template}
use blackbox_agent_accountab.View.{Node, text}
use blackbox_agent_accountab.Login.View.{sent_notice, sent_page, show_form, view}
use blackbox_agent_accountab.Login.{
  Mode, login, signup, reset, Page, Req, Reply, Answer, refused, accepted, throws_other, answered,
  ask, reset_password_for_email, Event, submits, click_back, handle,
}

abbrev IsIdle : Page → Type 0
IsIdle s = s.busy ≡ false

answered-Restores : (m : Mode) (x : Result Answer) (v : Page) → Restores IsIdle (answered m x) v
answered-Restores m (ok (refused e)) v = refl
answered-Restores reset (ok (accepted b)) v = refl
answered-Restores login (ok (accepted b)) v = refl
answered-Restores signup (ok (accepted true)) v = refl
answered-Restores signup (ok (accepted false)) v = refl
answered-Restores m (ok throws_other) v = refl
answered-Restores m (Result.err e) v = refl

handle-Keeps :
    (origin : String) (e : Event) (s : Page) → Keeps IsIdle (IsIdle s) (handle origin e s) s
unfolding handle
handle-Keeps origin submits s = inr (answered-Restores s.mode)
handle-Keeps origin _ s = λ h. h

-- From a page that is not busy, with no call waiting, and however events and answers interleave,
-- whatever the answers are, rejections included: once no call is waiting, the page is not left busy.
pub submit_is_released :
    (origin : String) {s : Page} {w : World Page Req Reply}
    → s.busy ≡ false
    → Reach (handle origin) (record { state = s; tasks = [] }) w
    → w.tasks ≡ []
    → w.state.busy ≡ false
submit_is_released origin = quiet IsIdle (handle origin) (handle-Keeps origin)

-- The user goes back to the log-in while the mail for a new password is being asked for.
abbrev pub changed_mind : List (Move Event)
changed_mind = starts submits ∷ starts click_back ∷ settles 0 ∷ []

changed_mind_lem :
    (origin : String) (reply : (r : Req) → Result (Reply r)) (s : Page) (b : Bool)
    → s.mode ≡ reset
    → reply (ask origin reset s) ≡ ok (accepted b)
    → let w = play (handle origin) reply changed_mind (record { state = s; tasks = [] }) in
      (w.tasks ≡ []) × (w.state.mode ≡ login) × (w.state.sent ≡ true) × (w.state.email ≡ s.email)
unfolding handle
changed_mind_lem origin reply s b m h = ground arith

Notice-view :
    (u : Page) (email : String)
    → u.mode ≡ login
    → u.sent ≡ true
    → u.email ≡ email
    → Any (λ n. n ≡ text (sent_notice login email)) (view u)
unfolding view
Notice-view u email m p e =
    let P : Node Event → Type 0 = λ n. n ≡ text (sent_notice login email) in
    let same_notice : text (sent_notice u.mode u.email) ≡ text (sent_notice login email) =
      rw m (rw e refl) in
    subst (λ c. Any P (if c then sent_page u else show_form u)) (sym p) (inr (inl same_notice))

-- On a page in the mode for a new password, with no call waiting, and if the mail is sent: if the form
-- is submitted, "Back to log in" is clicked and then the answer comes, no call is left waiting, and the
-- page says that a confirmation link was sent, to activate the account.
pub reset_says_activate :
    (origin : String) (reply : (r : Req) → Result (Reply r)) (s : Page) (b : Bool)
    → s.mode ≡ reset
    → reply (reset_password_for_email s.email (template (origin ∷ "/auth/reset" ∷ [])))
      ≡ ok (accepted b)
    → let w = play (handle origin) reply changed_mind (record { state = s; tasks = [] }) in
      (w.tasks ≡ []) × Any (λ n. n ≡ text (sent_notice login s.email)) (view w.state)
reset_says_activate origin reply s b m h =
    let (quiet, l, p, e) = changed_mind_lem origin reply s b m h in
    let w = play (handle origin) reply changed_mind (record { state = s; tasks = [] }) in
    (quiet, Notice-view w.state s.email l p e)
