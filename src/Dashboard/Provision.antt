-- ===== src/Dashboard/Provision.antt =====
-- Which tokens the calls of a page carry.
use blackbox_agent_accountab.Prelude.{
  ◌≡◌, ◌⊎◌, refl, inl, inr, sym, subst, String, true, Option, none, some, List, [], ◌∷◌, ◌++◌, All,
  All-append, All-middle, All-map, truthy,
}
use blackbox_agent_accountab.Runtime.{
  Prog, done, act, call, race, spawn, advance, Settles, World, run, Step, event, settle, Reach,
  next,
}
use blackbox_agent_accountab.Runtime.Frame.{advance-Frames}
use blackbox_agent_accountab.Runtime.Sends.{
  Sends, Waits, Sends-map, advance-Sends, Settles-Sends, Sends-Waits,
}
use blackbox_agent_accountab.Session
use blackbox_agent_accountab.Session.{Session, start}
use blackbox_agent_accountab.Session.Provisioned.{Provided, token_is_Provided}
use blackbox_agent_accountab.Dashboard.{Holds, Steady, Guarded, Joint, opens, hook, shown}

pub Holds_at :
    (T : String → Type 0) (o : Option String) (t : String)
    → Holds T o
    → o ≡ some t
    → truthy t ≡ true
    → T t
Holds_at T o t h e = subst (Holds T) e h

module _ {S Req : Type 0} {R : Req → Type 0} (token : S → Option String) where
  advance-Steady : (p : Prog S Req R) (s : S) → Steady token p → All (Steady token) (advance p s).1
  advance-Steady done s h = tt
  advance-Steady (act f p) s h = advance-Steady p (f s) (λ c. (h c).1)
  advance-Steady (call r k) s h = (h, tt)
  advance-Steady (race r k r' k') s h = (h, tt)
  advance-Steady (spawn p q) s h =
      All-append (Steady token) _ _ (advance-Steady p s (λ c. (h c).0))
        (advance-Steady q (advance p s).0 (λ c. (h c).1))

  Settles-Steady : (t p : Prog S Req R) → Steady token t → Settles t p → Steady token p
  Settles-Steady (call r k) p h (x, e) = subst (Steady token) (sym e) (λ c. h c x)
  Settles-Steady (race r k r' k') p h (inl (x, e)) = subst (Steady token) (sym e) (λ c. (h c).0 x)
  Settles-Steady (race r k r' k') p h (inr (x, e)) = subst (Steady token) (sym e) (λ c. (h c).1 x)
  Settles-Steady _ p h e = elim e [ ]

  -- A segment of such a program leaves the token as it is.
  Steady-token : (p : Prog S Req R) (s : S) → Steady token p → token (advance p s).0 ≡ token s
  Steady-token p s h = advance-Frames (λ u. token u ≡ token s) p s (h (token s)) refl

module _ {A S Req : Type 0} {R : Req → Type 0} (page : Guarded A S Req R) where
  module _ (T : String → Type 0) where
    -- The token of the page and those of its waiting programs satisfy `T`.
    abbrev Inv : World S Req R → Type 0
    Inv w =
        Holds T (page.token w.state)
        × All (Sends (λ q. T (page.bearer q))) w.tasks
        × All (Steady page.token) w.tasks

    run-Inv :
        (p : Prog S Req R) (s : S) (ts : List (Prog S Req R))
        → Sends (λ q. T (page.bearer q)) p
        → Steady page.token p
        → Inv (record { state = s; tasks = ts })
        → Inv (run p s ts)
    run-Inv p s ts sent steady (h, a, b) = (
      subst (Holds T) (sym (Steady-token page.token p s steady)) h,
      All-append _ ts _ a (advance-Sends _ p s sent),
      All-append _ ts _ b (advance-Steady page.token p s steady),
    )

    event-Inv :
        (a : A) (w : World S Req R)
        → Holds T (page.brings a)
        → Inv w
        → Inv (run (page.handle a w.state) w.state w.tasks)
    event-Inv a w t i = elim (page.hears a w.state) [
      | inl steady ↦ run-Inv (page.handle a w.state) w.state w.tasks sent steady i
      | inr (f, q, e, sets, steady) ↦
          subst (λ p. Inv (run p w.state w.tasks)) (sym e)
            (run-Inv q (f w.state) w.tasks (subst (Sends (λ r. T (page.bearer r))) e sent) steady
              (subst (Holds T) (sym (sets w.state)) t, i.1, i.2))
    ]
      where
        sent : Sends (λ q. T (page.bearer q)) (page.handle a w.state)
        sent = page.sends T a w.state t i.0

    settle-Inv :
        (w : World S Req R) (ts us : List (Prog S Req R)) (t p : Prog S Req R)
        → w.tasks ≡ ts ++ t ∷ us
        → Settles t p
        → Inv w
        → Inv (run p w.state (ts ++ us))
    settle-Inv w ts us t p e m (h, a, b) =
        let (sent, others) = All-middle _ ts t us (subst (All _) e a) in
        let (steady, rest) = All-middle _ ts t us (subst (All _) e b) in
        run-Inv p w.state (ts ++ us) (Settles-Sends _ t p sent m)
          (Settles-Steady page.token t p steady m) (h, others, rest)

  Holds-map :
      (T U : String → Type 0) (o : Option String)
      → ((t : String) → T t → U t)
      → Holds T o
      → Holds U o
  Holds-map T U none f h = tt
  Holds-map T U (some t) f h = λ e. f t (h e)

  Inv-map :
      (T U : String → Type 0) (w : World S Req R) → ((t : String) → T t → U t) → Inv T w → Inv U w
  Inv-map T U w f (h, a, b) = (
    Holds-map T U (page.token w.state) f h,
    All-map _ _ w.tasks (Sends-map _ _ (λ q. f (page.bearer q))) a,
    b,
  )

  -- A call that has settled goes on to have settled.
  Provided-next :
      {u v : World Session Session.Req Session.Reply}
      (r : Reach Session.handle (record { state = start; tasks = [] }) u)
      (st : Step Session.handle u v) (t : String)
      → Provided t r
      → Provided t (next r st)
  Provided-next r (event a) t h = h
  Provided-next r (settle ts us task p e m) t h = inr h

  -- The token that the hook shows is provided.
  shown-Provided :
      {v : World Session Session.Req Session.Reply}
      (r : Reach Session.handle (record { state = start; tasks = [] }) v) (o : Option String)
      → v.state.token ≡ o
      → Holds (λ t. Provided t r) o
  shown-Provided r none e = tt
  shown-Provided r (some t) e = λ h. token_is_Provided t r h e

  told-Provided :
      {v : World Session Session.Req Session.Reply}
      (r : Reach Session.handle (record { state = start; tasks = [] }) v) (o : Option String)
      → (o ≡ none) ⊎ (o ≡ v.state.token)
      → Holds (λ t. Provided t r) o
  told-Provided r o (inl e) = subst (Holds (λ t. Provided t r)) (sym e) tt
  told-Provided r o (inr e) = shown-Provided r o (sym e)

  Joint-Inv :
      {v : World Session Session.Req Session.Reply}
      {r : Reach Session.handle (record { state = start; tasks = [] }) v} {w : World S Req R}
      → Joint page v r w
      → Inv (λ t. Provided t r) w
  Joint-Inv (opens s e) = (subst (Holds _) (sym e) tt, tt, tt)
  Joint-Inv (hook {r} {w} j st) =
      Inv-map (λ t. Provided t r) (λ t. Provided t (next r st)) w (Provided-next r st) (Joint-Inv j)
  Joint-Inv (shown {r} {w} j (event a) told) =
      event-Inv (λ t. Provided t r) a w (told-Provided r (page.brings a) told) (Joint-Inv j)
  Joint-Inv (shown {r} {w} j (settle ts us t p e m) told) =
      settle-Inv (λ t. Provided t r) w ts us t p e m (Joint-Inv j)

  -- However the hook and the page interleave: a call of the page that waits carries a token for
  -- which a call of `ensureOrg` has settled.
  pub calls-Provided :
      {v : World Session Session.Req Session.Reply}
      {r : Reach Session.handle (record { state = start; tasks = [] }) v} {w : World S Req R}
      → Joint page v r w
      → All (Waits (λ q. Provided (page.bearer q) r)) w.tasks
  calls-Provided {w} j = Sends-Waits _ w.tasks (Joint-Inv j).1
