-- ===== src/Session/Ordering.antt =====
-- frontend/lib/useSession.ts:
-- Which report of the authentication the hook shows in the end.
use blackbox_agent_accountab.Prelude.{
  ◌≡◌, ◌≢◌, refl, inl, inr, ◌⊎◌, sym, subst, ◌∙◌, String, true, Option, none, some, List, [], ◌∷◌,
  ◌++◌, ok, truthy, Bool-cases,
}
use blackbox_agent_accountab.Runtime.{
  Prog, call, Settles, World, run, event, settle, Reach, here, next,
}
use blackbox_agent_accountab.Session.{
  Session, set_session, Req, ensure_org, Reply, apply, Event, answered, changed, handle,
}

-- What an event reports.
abbrev pub report : Event → Option String
report (answered t) = t
report (changed t) = t

-- The last report of a history.
abbrev pub last_report : {w v : World Session Req Reply} → Reach handle w v → Option (Option String)
last_report here = none
last_report (next r (event a)) = some (report a)
last_report (next r (settle ts us t p e m)) = last_report r

-- Every report came when no workspace was being provided.
abbrev pub Orderly : {w v : World Session Req Reply} → Reach handle w v → Type 0
Orderly here = Unit
Orderly (next {u} r (event a)) = (u.tasks ≡ []) × Orderly r
Orderly (next r (settle ts us t p e m)) = Orderly r

abbrev task : String → Prog Session Req Reply
task t = call (ensure_org t) (λ _. set_session (some t))

-- The report is shown, or it will be once its workspace is provided.
abbrev Shows : Option String → World Session Req Reply → Type 0
Shows o w =
    ((w.tasks ≡ []) × (w.state.token ≡ o)) ⊎ ((t : String) × (o ≡ some t) × (w.tasks ≡ task t ∷ []))

abbrev ShowsLast : Option (Option String) → World Session Req Reply → Type 0
ShowsLast none w = w.tasks ≡ []
ShowsLast (some o) w = Shows o w

apply-Shows : (o : Option String) (s : Session) → Shows o (run (apply o) s [])
unfolding apply
apply-Shows none s = inl (refl, refl)
apply-Shows (some t) s = elim (Bool-cases (truthy t)) [
  | inl full ↦ rw full (inr (t, refl, refl))
  | inr empty ↦ rw empty (inl (refl, refl))
]

handle-Shows :
    (a : Event) (s : Session) (ts : List (Prog Session Req Reply))
    → ts ≡ []
    → Shows (report a) (run (handle a s) s ts)
unfolding handle
handle-Shows (answered o) s ts e =
    subst (λ us. Shows o (run (apply o) s us)) (sym e) (apply-Shows o s)
handle-Shows (changed o) s ts e =
    subst (λ us. Shows o (run (apply o) s us)) (sym e) (apply-Shows o s)

append_not_nil {ℓ} : {A : Type ℓ} (xs ys : List A) (y : A) → [] ≢ xs ++ y ∷ ys
append_not_nil [] ys y e = cc
append_not_nil (x ∷ xs) ys y e = cc

only_item {ℓ} :
    {A : Type ℓ} (x y : A) (xs ys : List A) → x ∷ [] ≡ xs ++ y ∷ ys → (y ≡ x) × (xs ++ ys ≡ [])
only_item x y [] ys e = (cc, cc)
only_item x y (z ∷ xs) ys e = absurd (append_not_nil xs ys y (cc))

settle-Shows :
    (o : Option String) (w : World Session Req Reply) (ts us : List (Prog Session Req Reply))
    (t p : Prog Session Req Reply)
    → w.tasks ≡ ts ++ t ∷ us
    → Settles t p
    → Shows o w
    → Shows o (run p w.state (ts ++ us))
settle-Shows o w ts us t p e m (inl (quiet, _)) = absurd (append_not_nil ts us t (sym quiet ∙ e))
settle-Shows o w ts us t p e m (inr (u, named, waiting)) =
    let (same_task, rest) = only_item (task u) t ts us (sym waiting ∙ e) in
    let (x, next_step) = subst (λ q. Settles q p) same_task m in
    subst (λ q. Shows o (run q w.state (ts ++ us))) (sym next_step) (inl (rw rest refl, sym named))

ShowsLast-settle :
    (o : Option (Option String)) (w : World Session Req Reply)
    (ts us : List (Prog Session Req Reply)) (t p : Prog Session Req Reply)
    → w.tasks ≡ ts ++ t ∷ us
    → Settles t p
    → ShowsLast o w
    → ShowsLast o (run p w.state (ts ++ us))
ShowsLast-settle none w ts us t p e m quiet = absurd (append_not_nil ts us t (sym quiet ∙ e))
ShowsLast-settle (some o) w ts us t p e m h = settle-Shows o w ts us t p e m h

Reach-ShowsLast :
    {s : Session} {w : World Session Req Reply}
    (r : Reach handle (record { state = s; tasks = [] }) w)
    → Orderly r
    → ShowsLast (last_report r) w
Reach-ShowsLast here h = refl
Reach-ShowsLast (next {u} r (event a)) (quiet, h) = handle-Shows a u.state u.tasks quiet
Reach-ShowsLast (next {u} r (settle ts us t p e m)) h =
    ShowsLast-settle (last_report r) u ts us t p e m (Reach-ShowsLast r h)

shown_at_rest :
    (o : Option String) (w : World Session Req Reply) → Shows o w → w.tasks ≡ [] → w.state.token ≡ o
shown_at_rest o w (inl (_, e)) quiet = e
shown_at_rest o w (inr (t, _, waiting)) quiet =
    absurd (append_not_nil [] [] (task t) (sym quiet ∙ waiting))

-- From a hook with no call waiting, and if each report comes when no workspace is being provided:
-- once no call is waiting, the hook shows the last report.
pub last_report_is_shown :
    {s : Session} {w : World Session Req Reply}
    (r : Reach handle (record { state = s; tasks = [] }) w) (o : Option String)
    → Orderly r
    → last_report r ≡ some o
    → w.tasks ≡ []
    → w.state.token ≡ o
last_report_is_shown {w} r o h e quiet =
    shown_at_rest o w (subst (λ l. ShowsLast l w) e (Reach-ShowsLast r h)) quiet

-- Signing out while a workspace is being provided leaves that call waiting.
still_waiting :
    (s : Session) (t : String)
    → truthy t ≡ true
    → let w = run (handle (changed (some t)) s) s [] in
      (run (handle (changed none) w.state) w.state w.tasks).tasks ≡ task t ∷ []
unfolding handle
still_waiting s t h = rw h refl

-- From any state of the hook with no call waiting, and for every nonempty token: a state with no call
-- waiting can be reached whose last report is that nobody is signed in, and which shows the token.
pub signed_out_shows_token :
    (s : Session) (t : String)
    → truthy t ≡ true
    → (w : World Session Req Reply) × (r : Reach handle (record { state = s; tasks = [] }) w)
      × (w.tasks ≡ [])
      × (last_report r ≡ some none)
      × (w.state.token ≡ some t)
signed_out_shows_token s t h =
    let u = run (handle (changed (some t)) s) s [] in
    let v = run (handle (changed none) u.state) u.state u.tasks in
    (
      run (set_session (some t)) v.state [],
      next (next (next here (event (changed (some t)))) (event (changed none)))
          (settle [] [] (task t) (set_session (some t)) (still_waiting s t h) (ok tt, refl)),
      refl,
      refl,
      refl,
    )
