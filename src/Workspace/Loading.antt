-- ===== src/Workspace/Loading.antt =====
-- frontend/app/app/page.tsx:
-- What `load` leaves on the page: alone, with errors, and beside another `load`.
use blackbox_agent_accountab.Prelude.{
  ◌≡◌, refl, inl, inr, String, Bool, true, false, Option, none, some, List, [], ◌∷◌, Result, ok,
  ◌∙◌, Any, Any-append_left, Any-append_right, truthy, present, subst, sym, if◌then◌else◌, arith,
}
use blackbox_agent_accountab.Runtime.Sequential.{exec}
use blackbox_agent_accountab.Runtime.Schedule.{Move, starts, settles, play}
use blackbox_agent_accountab.View.{Node, text, when}
use blackbox_agent_accountab.Workspace.{
  Recorded, Page, Req, Reply, get_events, verify, idle, load_session,
}
use blackbox_agent_accountab.Workspace.Events.{Event, click_session, handle}
use blackbox_agent_accountab.Workspace.View.{
  view, shown_page, show_sessions, show_selected, chain_badge,
}

module _ (reply : (r : Req) → Result (Reply r)) (s : Page) (t id : String)
    (signed : s.token ≡ some t) (present_token : truthy t ≡ true)
    (present_id : truthy id ≡ true) where
  -- With a session and a nonempty id, and if both calls succeed: `load` alone selects the session,
  -- shows the events and the chain status that were returned for it and no verdicts, clears the
  -- error and the busy flag, and has made exactly the two calls for that session.
  pub load_session_lem :
      {es : List Recorded} {intact : Bool}
      → reply (get_events t id) ≡ ok es
      → reply (verify t id) ≡ ok intact
      → let (u, calls) = exec reply (load_session (some id) s) s in
        (u.session_id ≡ id)
        × (u.events ≡ es)
        × (u.chain ≡ some intact)
        × (u.verdicts ≡ [])
        × (u.err ≡ none)
        × (u.busy ≡ idle)
        × (calls ≡ get_events t id ∷ verify t id ∷ [])
  unfolding load_session
  load_session_lem p q = ground arith

  -- If the events cannot be fetched, `load` alone shows the error under the newly selected session,
  -- with no verdicts, and asks for no verification; the events and the chain status that were on
  -- the page before, of whatever session, stay.
  pub load_session_failed :
      {e : String}
      → reply (get_events t id) ≡ Result.err e
      → let (u, calls) = exec reply (load_session (some id) s) s in
        (u.session_id ≡ id)
        × (u.events ≡ s.events)
        × (u.chain ≡ s.chain)
        × (u.verdicts ≡ [])
        × (u.err ≡ some e)
        × (u.busy ≡ idle)
        × (calls ≡ get_events t id ∷ [])
  unfolding load_session
  load_session_failed p = ground arith

  load_session_still_shown :
      {e : String}
      → reply (get_events t id) ≡ Result.err e
      → (exec reply (load_session (some id) s) s).0.session_loading ≡ s.session_loading
  unfolding load_session
  load_session_still_shown p = ground arith

abbrev Badge : Node Event → Type 0
Badge n = n ≡ text "chain intact"

badge : (c : Option Bool) → c ≡ some true → Any Badge (chain_badge c)
badge c e = subst (λ c. Any Badge (chain_badge c)) (sym e) (inl refl)

-- A page that is shown with a session selected and the chain status intact says so.
Badge-view :
    (u : Page)
    → u.session_loading ≡ false
    → truthy u.session_id ≡ true
    → u.chain ≡ some true
    → Any Badge (view u)
unfolding view
Badge-view u p q r =
    let selected : Any Badge (show_selected u) = inr (
      inr (
        inr (
          inr (
            Any-append_right Badge (when (present u.confirm) _) _
              (Any-append_left Badge (chain_badge u.chain) _ (badge u.chain r)))))) in
    let shown : Any Badge (when (truthy u.session_id) (show_selected u)) =
      subst (λ b. Any Badge (when b (show_selected u))) (sym q) selected in
    subst (λ b. Any Badge (if b then text "Loading…" ∷ [] else shown_page u)) (sym p)
      (inr (
        Any-append_right Badge (show_sessions u) _
          (Any-append_right Badge (when (present u.err) _) _ shown)))

-- Two clicks on sessions, of which the second is answered first: its events and its chain status come
-- before the events of the first, whose chain status comes last.
abbrev pub overtaken : String → String → List (Move Event)
overtaken a b =
    starts (click_session a)
    ∷ starts (click_session b)
    ∷ settles 1
    ∷ settles 1
    ∷ settles 0
    ∷ settles 0
    ∷ []

-- With a token, on a page that is rendered and whose chain status is intact, of whatever session:
-- after `load` alone has selected a session, with a nonempty id, whose events cannot be fetched,
-- the page still says that the chain is intact.
pub failed_load_shows_intact :
    (reply : (r : Req) → Result (Reply r)) (s : Page) (t id e : String)
    → s.token ≡ some t
    → truthy t ≡ true
    → truthy id ≡ true
    → s.session_loading ≡ false
    → s.chain ≡ some true
    → reply (get_events t id) ≡ Result.err e
    → let u = (exec reply (load_session (some id) s) s).0 in
      (u.session_id ≡ id) × Any (λ n. n ≡ text "chain intact") (view u)
failed_load_shows_intact reply s t id e p q x l c h =
    let f = load_session_failed reply s t id p q x h in
    (
      f.0,
      Badge-view _ (load_session_still_shown reply s t id p q x h ∙ l)
          (subst (λ i. truthy i ≡ true) (sym f.0) x) (f.2 ∙ c),
    )

-- On a page with a session and no call waiting, for any two nonempty ids and any replies that
-- succeed: if a click on the first session is followed by one on the second, and both calls of the
-- second click are answered before those of the first, then no call is left waiting, and the page has
-- the second session selected and shows the events and the chain status of the first.
pub load_overtaken :
    (reply : (r : Req) → Result (Reply r)) (s : Page) (t a b : String) (ea eb : List Recorded)
    (ia ib : Bool)
    → s.token ≡ some t
    → truthy t ≡ true
    → truthy a ≡ true
    → truthy b ≡ true
    → reply (get_events t a) ≡ ok ea
    → reply (get_events t b) ≡ ok eb
    → reply (verify t a) ≡ ok ia
    → reply (verify t b) ≡ ok ib
    → let w = play handle reply (overtaken a b) (record { state = s; tasks = [] }) in
      (w.tasks ≡ []) × (w.state.session_id ≡ b) × (w.state.events ≡ ea) × (w.state.chain ≡ some ia)
unfolding handle
load_overtaken reply s t a b ea eb ia ib p q x y h k i j = ground arith
