-- ===== src/AuthCallback/Signing.antt =====
-- frontend/app/auth/callback/page.tsx:
-- What going to the workspace rests on.
use blackbox_agent_accountab.Prelude.{
  ◌≡◌, ◌≢◌, ◌⊎◌, refl, inl, inr, subst, String, true, false, [], ◌++◌, Result, ok, All, All-middle,
  Bool-cases, arith,
}
use blackbox_agent_accountab.Js.{includes}
use blackbox_agent_accountab.Runtime.{Prog, Settles, World, event, settle, Reach, here, next}
use blackbox_agent_accountab.Runtime.Cause.{Replied, Awaits, Settles-Awaits, run-Inv, Inv}
use blackbox_agent_accountab.AuthCallback.{
  Page, Req, Reply, exchange_code_for_session, get_session, ask_session, Event, mounts,
  auth_changes, timer_fires, unmounts, handle,
}

-- `getSession` answers that there is a session.
abbrev pub GaveSession : (q : Req) → Result (Reply q) → Type 0
GaveSession get_session x = x ≡ ok true
GaveSession (exchange_code_for_session url) x = ⊥

-- In the history Supabase has reported a session.
abbrev pub Signed :
    {h : Event → Page → Prog Page Req Reply} {w v : World Page Req Reply} → Reach h w v → Type 0
Signed here = ⊥
Signed (next r (event (auth_changes true))) = Unit
Signed (next r (event (auth_changes false))) = Signed r
Signed (next r (event mounts)) = Signed r
Signed (next r (event timer_fires)) = Signed r
Signed (next r (event unmounts)) = Signed r
Signed (next r (settle ts us t p e m)) = Replied GaveSession t p m ⊎ Signed r

abbrev Stayed : Page → Type 0
Stayed s = s.replaced ≡ []

abbrev Careful : Prog Page Req Reply → Type 0
Careful p = Awaits GaveSession Stayed p

ask_session-Awaits : Careful ask_session
ask_session-Awaits = elim [
  | ok b ↦ elim (Bool-cases b) [
    | inl given ↦ inl (rw given refl)
    | inr missing ↦ inr (rw missing (λ v h. h, (λ v h. h, (λ v h. h, tt))))
  ]
  | Result.err e ↦ inr tt
]

mounts-Awaits : (url : String) (s : Page) → Careful (handle url mounts s)
unfolding handle
mounts-Awaits url s = elim (Bool-cases (includes url "code=")) [
  | inl code ↦ rw code (λ v h. h, λ x. inr ask_session-Awaits)
  | inr plain ↦ rw plain (λ v h. h, ask_session-Awaits)
]

unreported-Awaits : (url : String) (s : Page) → Careful (handle url (auth_changes false) s)
unfolding handle
unreported-Awaits url s = (λ v h. ground arith, tt)

timer-Awaits : (url : String) (s : Page) → Careful (handle url timer_fires s)
unfolding handle
timer-Awaits url s = (λ v h. h, tt)

unmounts-Awaits : (url : String) (s : Page) → Careful (handle url unmounts s)
unfolding handle
unmounts-Awaits url s = (λ v h. h, tt)

abbrev Good : World Page Req Reply → Type 0
Good w = Inv GaveSession Stayed w

event-Inv :
    (url : String) (S : Type 0) (e : Event) (u : World Page Req Reply)
    → Careful (handle url e u.state)
    → S ⊎ Good u
    → S ⊎ Good (blackbox_agent_accountab.Runtime.run (handle url e u.state) u.state u.tasks)
event-Inv url S e u c (inl signed) = inl signed
event-Inv url S e u c (inr (q, a)) =
    inr (run-Inv GaveSession Stayed (handle url e u.state) u.state u.tasks c q a)

Reach-Inv :
    (url : String) {w v : World Page Req Reply}
    → Good w
    → (r : Reach (handle url) w v) → Signed r ⊎ Good v
Reach-Inv url i here = inr i
Reach-Inv url i (next r (event (auth_changes true))) = inl tt
Reach-Inv url i (next {u} r (event (auth_changes false))) =
    event-Inv url (Signed r) (auth_changes false) u (unreported-Awaits url u.state)
      (Reach-Inv url i r)
Reach-Inv url i (next {u} r (event mounts)) =
    event-Inv url (Signed r) mounts u (mounts-Awaits url u.state) (Reach-Inv url i r)
Reach-Inv url i (next {u} r (event timer_fires)) =
    event-Inv url (Signed r) timer_fires u (timer-Awaits url u.state) (Reach-Inv url i r)
Reach-Inv url i (next {u} r (event unmounts)) =
    event-Inv url (Signed r) unmounts u (unmounts-Awaits url u.state) (Reach-Inv url i r)
Reach-Inv url i (next {u} r (settle ts us t p e m)) = elim (Reach-Inv url i r) [
  | inl signed ↦ inl (inr signed)
  | inr (q, a) ↦
      let (now, rest) = All-middle Careful ts t us (subst (All Careful) e a) in
      elim (Settles-Awaits GaveSession Stayed t p m now) [
        | inl replied ↦ inl (inl replied)
        | inr goes_on ↦ inr (run-Inv GaveSession Stayed p u.state (ts ++ us) goes_on q rest)
      ]
]

-- From a page that has gone nowhere, with no call waiting, and however events and answers interleave:
-- the page goes to the workspace only after Supabase has reported a session, as the answer of
-- `getSession` or as a change of the authentication.
pub replaced-Signed :
    (url : String) {s : Page} {w : World Page Req Reply}
    (r : Reach (handle url) (record { state = s; tasks = [] }) w)
    → s.replaced ≡ []
    → w.state.replaced ≢ []
    → Signed r
replaced-Signed url r h k = elim (Reach-Inv url (h, tt) r) [
  | inl signed ↦ signed
  | inr (stayed, _) ↦ absurd (k stayed)
]
