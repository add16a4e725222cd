-- ===== src/Session/Provisioned.antt =====
-- frontend/lib/useSession.ts:
-- When the hook shows a token.
use blackbox_agent_accountab.Prelude.{
  ◌≡◌, ◌⊎◌, refl, inl, inr, String, true, Option, none, some, [], ◌++◌, truthy, All, All-append,
  All-middle, subst, sym, arith, Bool-cases,
}
use blackbox_agent_accountab.Runtime.{
  Prog, call, advance, Settles, World, event, settle, Reach, here, next,
}
use blackbox_agent_accountab.Session.{
  Session, set_session, start, Req, ensure_org, Reply, apply, Event, answered, changed, handle,
}

-- The task of a user's token: once the workspace is provided, the token is shown.
abbrev Provides : String → Prog Session Req Reply → Type 0
Provides u p = p ≡ call (ensure_org u) (λ _. set_session (some u))

abbrev IsTask : Prog Session Req Reply → Type 0
IsTask p = (u : String) × Provides u p

apply-IsTask : (t : Option String) (s : Session) → All IsTask (advance (apply t) s).1
unfolding apply
apply-IsTask none s = tt
apply-IsTask (some t) s = elim (Bool-cases (truthy t)) [
  | inl yes_text ↦ rw yes_text ((t, refl), tt)
  | inr empty ↦ rw empty tt
]

-- Starting `apply` shows a nonempty token only if it was shown before.
apply_shows :
    (t : Option String) (s : Session) (u : String)
    → truthy u ≡ true
    → (advance (apply t) s).0.token ≡ some u
    → s.token ≡ some u
unfolding apply
apply_shows none s u h e = ground arith
apply_shows (some t) s u h e = ground arith

-- The call of a waiting task is `ensureOrg` for that token.
abbrev IsOrgOf : String → Prog Session Req Reply → Type 0
IsOrgOf t (call (ensure_org u) k) = u ≡ t
IsOrgOf t _ = ⊥

-- In this history of the hook a call `ensureOrg(t)` has settled.
abbrev pub Provided : (t : String) {w v : World Session Req Reply} → Reach handle w v → Type 0
Provided t here = ⊥
Provided t (next r (event a)) = Provided t r
Provided t (next r (settle ts us task p e m)) = IsOrgOf t task ⊎ Provided t r

handle-IsTask : (a : Event) (s : Session) → All IsTask (advance (handle a s) s).1
unfolding handle
handle-IsTask (answered t) s = apply-IsTask t s
handle-IsTask (changed t) s = apply-IsTask t s

handle_shows :
    (a : Event) (s : Session) (u : String)
    → truthy u ≡ true
    → (advance (handle a s) s).0.token ≡ some u
    → s.token ≡ some u
unfolding handle
handle_shows (answered t) s u h e = apply_shows t s u h e
handle_shows (changed t) s u h e = apply_shows t s u h e

shown : (u t : String) → some u ≡ some t → u ≡ t
shown u t h = cc

provider_shows :
    (u t : String) (p : Prog Session Req Reply) (s : Session)
    → Settles (call (ensure_org u) (λ _. set_session (some u))) p
    → ((advance p s).0.token ≡ some t → u ≡ t) × ((advance p s).1 ≡ [])
provider_shows u t p s (x, e) =
    subst (λ q. ((advance q s).0.token ≡ some t → u ≡ t) × ((advance q s).1 ≡ [])) (sym e)
      (shown u t, refl)

settled_shows :
    (task p : Prog Session Req Reply) (s : Session) (t : String)
    → IsTask task
    → Settles task p
    → ((advance p s).0.token ≡ some t → IsOrgOf t task) × ((advance p s).1 ≡ [])
settled_shows task p s t (u, e) =
    subst
      (λ q. Settles q p → ((advance p s).0.token ≡ some t → IsOrgOf t q) × ((advance p s).1 ≡ []))
      (sym e) (provider_shows u t p s)

Reach-IsTask :
    {w : World Session Req Reply}
    → Reach handle (record { state = start; tasks = [] }) w
    → All IsTask w.tasks
Reach-IsTask here = tt
Reach-IsTask (next {u} r (event a)) =
    All-append IsTask u.tasks _ (Reach-IsTask r) (handle-IsTask a u.state)
Reach-IsTask (next {u} r (settle ts us task p e m)) =
    let (now, rest) = All-middle IsTask ts task us (subst (All IsTask) e (Reach-IsTask r)) in
    All-append IsTask (ts ++ us) _ rest
      (subst (All IsTask) (sym (settled_shows task p u.state "" now m).1) tt)

-- Whatever `getSession` and the changes of the authentication report, and in whatever order the
-- calls settle: the hook shows a nonempty token only after a call of `ensureOrg` with that very
-- token has settled.
pub token_is_Provided :
    (t : String) {w : World Session Req Reply}
    (r : Reach handle (record { state = start; tasks = [] }) w)
    → truthy t ≡ true
    → w.state.token ≡ some t
    → Provided t r
token_is_Provided t here h e = cc
token_is_Provided t (next {u} r (event a)) h e =
    token_is_Provided t r h (handle_shows a u.state t h e)
token_is_Provided t (next {u} r (settle ts us task p i m)) h e =
    let (now, rest) = All-middle IsTask ts task us (subst (All IsTask) i (Reach-IsTask r)) in
    inl ((settled_shows task p u.state t now m).0 e)
