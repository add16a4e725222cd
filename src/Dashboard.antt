-- ===== src/Dashboard.antt =====
-- The session hook of frontend/lib/useSession.ts beside a page that uses it, as in
-- frontend/app/app: the page is told the token that the hook shows, and calls the API with it.
pub mod Provision
pub mod Loyal
pub mod Sessions
pub mod Insights
pub mod Keys
pub mod Team
pub mod Billing
pub mod Settings
pub mod Screens
pub mod Leaving
use blackbox_agent_accountab.Prelude.{
  ◌≡◌, ◌⊎◌, ◌∷◌, ◌++◌, String, true, Option, none, some, List, [], truthy,
}
use blackbox_agent_accountab.Runtime.{
  Prog, act, Settles, World, run, Step, event, settle, Reach, here, next,
}
use blackbox_agent_accountab.Runtime.Frame.{Frames}
use blackbox_agent_accountab.Runtime.Sends.{Sends}
use blackbox_agent_accountab.Session
use blackbox_agent_accountab.Session.{Session, start}

-- A token that is text satisfies `T`.
abbrev pub Holds : (String → Type 0) → Option String → Type 0
Holds T none = Unit
Holds T (some t) = truthy t ≡ true → T t

module _ {S Req : Type 0} {R : Req → Type 0} (token : S → Option String) where
  -- No update of the program changes the token.
  abbrev pub Steady : Prog S Req R → Type 0
  Steady p = (c : Option String) → Frames (λ s. token s ≡ c) p

  -- The program first sets the token to `t`, and changes it no more.
  abbrev pub Hears : Option String → Prog S Req R → Type 0
  Hears t p =
      (f : S → S) × (q : Prog S Req R) × (p ≡ act f q) × ((s : S) → token (f s) ≡ t) × Steady q

-- What a page is to the hook: its handlers, the token in its state, the token that an event brings,
-- the token of each call, and how they hang together.
pub record Guarded (A S Req : Type 0) (R : Req → Type 0) : Type 1 where
  pub handle : A → S → Prog S Req R
  pub token : S → Option String
  pub brings : A → Option String
  pub bearer : Req → String
  -- a handler calls with the token of its render or the one that its event brings
  pub sends :
      (T : String → Type 0) (a : A) (s : S)
      → Holds T (brings a)
      → Holds T (token s)
      → Sends (λ q. T (bearer q)) (handle a s)
  -- and changes the token to that one or not at all
  pub hears : (a : A) (s : S) → Steady token (handle a s) ⊎ Hears token (brings a) (handle a s)

module _ {A S Req : Type 0} {R : Req → Type 0} (page : Guarded A S Req R) where
  -- An event brings no token, or the one that the hook shows.
  abbrev pub Told : {v w : World S Req R} → Option String → Step page.handle v w → Type 0
  Told shown (event a) = (page.brings a ≡ none) ⊎ (page.brings a ≡ shown)
  Told shown (settle _ _ _ _ _ _) = Unit

  -- The hook and the page, from a page with no token on, in any interleaving.
  pub data Joint
      : (v : World Session Session.Req Session.Reply)
        → Reach Session.handle (record { state = start; tasks = [] }) v
        → World S Req R
        → Type 0 where
    opens :
        (s : S)
        → page.token s ≡ none
        → Joint (record { state = start; tasks = [] }) here (record { state = s; tasks = [] })
    hook :
        {u v : World Session Session.Req Session.Reply}
        {r : Reach Session.handle (record { state = start; tasks = [] }) u} {w : World S Req R}
        → Joint u r w
        → (st : Step Session.handle u v) → Joint v (next r st) w
    shown :
        {v : World Session Session.Req Session.Reply}
        {r : Reach Session.handle (record { state = start; tasks = [] }) v} {w w' : World S Req R}
        → Joint v r w
        → (st : Step page.handle w w') → Told v.state.token st
        → Joint v r w'
