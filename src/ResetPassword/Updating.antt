-- ===== src/ResetPassword/Updating.antt =====
-- frontend/app/auth/reset/page.tsx:
-- When the page waits, and what its claim of an updated password rests on.
use blackbox_agent_accountab.Prelude.{
  ◌≡◌, ◌⊎◌, refl, inl, inr, String, true, false, [], Result, ok, Bool-cases,
}
use blackbox_agent_accountab.Js.{includes}
use blackbox_agent_accountab.Runtime.{World, Reach}
use blackbox_agent_accountab.Runtime.Quiet.{Keeps, Restores}
use blackbox_agent_accountab.Runtime.Waiting.{quiet}
use blackbox_agent_accountab.Runtime.Cause.{Happened, Awaits, cause}
use blackbox_agent_accountab.ResetPassword.{
  Page, Req, Reply, Answer, refused, accepted, throws_other, update_user, answered, ask_session,
  Event, mounts, type_password, submits, click_workspace, handle,
}

abbrev IsIdle : Page → Type 0
IsIdle s = s.busy ≡ false

answered-Restores : (x : Result Answer) (v : Page) → Restores IsIdle (answered x) v
answered-Restores (ok (refused e)) v = refl
answered-Restores (ok accepted) v = refl
answered-Restores (ok throws_other) v = refl
answered-Restores (Result.err e) v = refl

ask_session-Keeps : (u : Page) → Keeps IsIdle (IsIdle u) ask_session u
ask_session-Keeps u = inl (λ h. h, elim [ ok b ↦ λ v h. h | Result.err e ↦ λ v h. h ])

handle-Keeps : (url : String) (e : Event) (s : Page) → Keeps IsIdle (IsIdle s) (handle url e s) s
unfolding handle
handle-Keeps url mounts s = elim (Bool-cases (includes url "code=")) [
  | inl code ↦ rw code (inl (λ h. h, λ x v. ask_session-Keeps v))
  | inr plain ↦ rw plain (ask_session-Keeps s)
]
handle-Keeps url submits s = inr answered-Restores
handle-Keeps url _ s = λ h. h

-- From a page that is not busy, with no call waiting, and however events and answers interleave,
-- whatever the answers are, rejections included: once no call is waiting, the page is not left busy.
pub update_is_released :
    (url : String) {s : Page} {w : World Page Req Reply}
    → s.busy ≡ false
    → Reach (handle url) (record { state = s; tasks = [] }) w
    → w.tasks ≡ []
    → w.state.busy ≡ false
update_is_released url = quiet IsIdle (handle url) (handle-Keeps url)

-- `updateUser` answers without an error.
abbrev pub Accepted : (q : Req) → Result (Reply q) → Type 0
Accepted (update_user password) x = x ≡ ok accepted
Accepted _ x = ⊥

abbrev NotUpdated : Page → Type 0
NotUpdated s = s.updated ≡ false

answered-Awaits :
    (p : String) (x : Result Answer)
    → Accepted (update_user p) x ⊎ Awaits Accepted NotUpdated (answered x)
answered-Awaits p (ok (refused e)) = inr (λ v h. h, (λ v h. h, tt))
answered-Awaits p (ok accepted) = inl refl
answered-Awaits p (ok throws_other) = inr (λ v h. h, (λ v h. h, tt))
answered-Awaits p (Result.err e) = inr (λ v h. h, (λ v h. h, tt))

ask_session-Awaits : Awaits Accepted NotUpdated ask_session
ask_session-Awaits = elim [ ok b ↦ inr (λ v h. h, tt) | Result.err e ↦ inr tt ]

handle-Awaits : (url : String) (e : Event) (s : Page) → Awaits Accepted NotUpdated (handle url e s)
unfolding handle
handle-Awaits url mounts s = elim (Bool-cases (includes url "code=")) [
  | inl code ↦ rw code (λ x. inr ask_session-Awaits)
  | inr plain ↦ rw plain ask_session-Awaits
]
handle-Awaits url submits s = (λ v h. h, (λ v h. h, answered-Awaits s.password))
handle-Awaits url (type_password x) s = (λ v h. h, tt)
handle-Awaits url click_workspace s = (λ v h. h, tt)

-- From a page that does not say so, with no call waiting, and however events and answers interleave:
-- if the page says that the password is updated, then a call of `updateUser` has answered without
-- an error.
pub updated_is_Accepted :
    (url : String) {s : Page} {w : World Page Req Reply}
    (r : Reach (handle url) (record { state = s; tasks = [] }) w)
    → s.updated ≡ false
    → w.state.updated ≡ true
    → Happened Accepted r
updated_is_Accepted url r h e =
    elim (cause Accepted NotUpdated (handle url) (handle-Awaits url) h r) [
      | inl happened ↦ happened
      | inr kept ↦ cc
    ]
