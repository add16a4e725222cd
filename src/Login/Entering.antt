-- ===== src/Login/Entering.antt =====
-- frontend/app/login/page.tsx:
-- What entering the workspace rests on.
use blackbox_agent_accountab.Prelude.{
  ◌≡◌, ◌≢◌, ◌⊎◌, refl, inl, inr, String, Bool, true, false, [], Result, ok,
}
use blackbox_agent_accountab.Runtime.{World, Reach}
use blackbox_agent_accountab.Runtime.Cause.{Happened, Awaits, cause}
use blackbox_agent_accountab.Login.{
  Mode, login, signup, reset, Page, Req, Reply, reset_password_for_email, sign_in_with_password,
  sign_up, Answer, refused, accepted, throws_other, answered, ask, Event, type_email, type_password,
  submits, click_forgot, click_back, click_other, click_restart, handle,
}

-- Supabase signs the user in, or signs the user up with a session.
abbrev pub SignedIn : (q : Req) → Result (Reply q) → Type 0
SignedIn (sign_in_with_password email password) x = (session : Bool) × (x ≡ ok (accepted session))
SignedIn (sign_up email password address) x = x ≡ ok (accepted true)
SignedIn (reset_password_for_email email address) x = ⊥

abbrev Outside : Page → Type 0
Outside s = s.pushed ≡ []

answered-Awaits :
    (origin : String) (m : Mode) (s : Page) (x : Result Answer)
    → SignedIn (ask origin m s) x ⊎ Awaits SignedIn Outside (answered m x)
answered-Awaits origin reset s (ok (accepted b)) = inr (λ v h. h, (λ v h. h, tt))
answered-Awaits origin login s (ok (accepted b)) = inl (b, refl)
answered-Awaits origin signup s (ok (accepted true)) = inl refl
answered-Awaits origin signup s (ok (accepted false)) = inr (λ v h. h, (λ v h. h, tt))
answered-Awaits origin m s (ok (refused e)) = inr (λ v h. h, (λ v h. h, tt))
answered-Awaits origin m s (ok throws_other) = inr (λ v h. h, (λ v h. h, tt))
answered-Awaits origin m s (Result.err e) = inr (λ v h. h, (λ v h. h, tt))

handle-Awaits :
    (origin : String) (e : Event) (s : Page) → Awaits SignedIn Outside (handle origin e s)
unfolding handle
handle-Awaits origin (type_email x) s = (λ v h. h, tt)
handle-Awaits origin (type_password x) s = (λ v h. h, tt)
handle-Awaits origin submits s = (λ v h. h, (λ v h. h, answered-Awaits origin s.mode s))
handle-Awaits origin click_forgot s = (λ v h. h, tt)
handle-Awaits origin click_back s = (λ v h. h, tt)
handle-Awaits origin click_other s = (λ v h. h, tt)
handle-Awaits origin click_restart s = (λ v h. h, tt)

-- From a page that has gone nowhere, with no call waiting, and however events and answers interleave:
-- the page goes to the workspace only after Supabase has signed the user in, or signed the user up
-- with a session.
pub entered-SignedIn :
    (origin : String) {s : Page} {w : World Page Req Reply}
    (r : Reach (handle origin) (record { state = s; tasks = [] }) w)
    → s.pushed ≡ []
    → w.state.pushed ≢ []
    → Happened SignedIn r
entered-SignedIn origin r h e =
    elim (cause SignedIn Outside (handle origin) (handle-Awaits origin) h r) [
      | inl happened ↦ happened
      | inr outside ↦ absurd (e outside)
    ]
