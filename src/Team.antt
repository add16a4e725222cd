-- ===== src/Team.antt =====
-- frontend/app/app/team/page.tsx: the members of the workspace and the invitations.
pub mod Events
pub mod View
pub mod Quiescence
pub mod Owners
use blackbox_agent_accountab.Prelude.{
  ℕ, String, Bool, true, false, Option, none, some, List, [], ◌∷◌, Result, ok, if◌then◌else◌,
  truthy, ◌===◌,
}
use blackbox_agent_accountab.Js.{template, to_string}
use blackbox_agent_accountab.Json.{str}
use blackbox_agent_accountab.Api.{Options, bare, with_body, fetching}
use blackbox_agent_accountab.Runtime.{
  Prog, done, act, call, with_token, only_if, then_do, await_all, on_result,
}

pub record Member : Type 0 where
  pub user_id : String
  pub role : String
  pub email : Option String

pub record Invite : Type 0 where
  pub id : ℕ
  pub email : String
  pub role : String
  pub created_at : String

-- The state of the page: its hooks, and what it told the router.
pub record Page : Type 0 where
  pub token : Option String
  pub session_loading : Bool
  pub self_id : Option String
  pub members : List Member
  pub invites : List Invite
  pub email : String
  pub role : String
  pub err : Option String
  pub busy : Bool
  pub confirm : Option String
  pub pushed : List String

-- The calls of the API that the page makes.
pub data Req : Type 0 where
  get_members : String → Req
  get_invites : String → Req
  post_invite : String → String → String → Req
  delete_invite : String → ℕ → Req
  put_member : String → String → String → Req
  delete_member : String → String → Req

abbrev pub Reply : Req → Type 0
Reply (get_members _) = List Member
Reply (get_invites _) = List Invite
Reply _ = Unit {0}

-- What the call of a request is given.
unfoldable pub wire : Req → String × Options
wire (get_members t) = ("/orgs/members", fetching t)
wire (get_invites t) = ("/orgs/invites", fetching t)
wire (post_invite t email role) = (
  "/orgs/invites",
  with_body "POST" t (("email", some (str email)) ∷ ("role", some (str role)) ∷ []),
)
wire (delete_invite t id) = (template ("/orgs/invites/" ∷ to_string id ∷ []), bare "DELETE" t)
wire (put_member t id role) =
    (template ("/orgs/members/" ∷ id ∷ []), with_body "PUT" t (("role", some (str role)) ∷ []))
wire (delete_member t id) = (template ("/orgs/members/" ∷ id ∷ []), bare "DELETE" t)

abbrev pub Handler : Type 0
Handler = Prog Page Req Reply

-- `members.find(m => m.user_id === selfId)?.role === "owner"`; no id equals null.
abbrev role_is_owner : List Member → String → Bool
role_is_owner [] id = false
role_is_owner (m ∷ ms) id =
    let rest = role_is_owner ms id in if m.user_id === id then m.role === "owner" else rest

abbrev owns : Option String → List Member → Bool
owns none ms = false
owns (some id) ms = role_is_owner ms id

unfoldable pub is_owner : Page → Bool
is_owner s = owns s.self_id s.members

abbrev set_err : String → Handler
set_err e = act (λ u. record u { err = some e }) done

unfoldable pub refresh : Page → Handler
refresh s = with_token s.token λ t.
    await_all (get_members t) (get_invites t)
      (λ ms is. act (λ u. record u { members = ms; invites = is }) done) set_err

abbrev pub invited : Page → Result (Unit {0}) → Handler
unfolding refresh
invited s (ok _) =
    act (λ u. record u { email = ""; role = "member" })
      (then_do (refresh s) (
        act (λ u. record u { confirm = some "Invite created" })
          (act (λ u. record u { busy = false }) done)))
invited s (Result.err e) =
    act (λ u. record u { err = some e }) (act (λ u. record u { busy = false }) done)

unfoldable pub invite : Page → Handler
unfolding refresh
invite s = with_token s.token λ t. only_if (truthy s.email) (
    act (λ u. record u { err = none; busy = true })
      (call (post_invite t s.email s.role) (invited s)))

-- `try { await call; await refresh(); } catch (e) { setErr(String(e)); }`
abbrev pub then_refresh : Page → Result (Unit {0}) → Handler
unfolding refresh
then_refresh s (ok _) = refresh s
then_refresh s (Result.err e) = set_err e

unfoldable pub revoke_invite : ℕ → Page → Handler
unfolding refresh
revoke_invite id s = with_token s.token λ t. call (delete_invite t id) (then_refresh s)

unfoldable pub change_role : String → String → Page → Handler
unfolding refresh
change_role user role s = with_token s.token λ t. call (put_member t user role) (then_refresh s)

unfoldable pub remove_member : String → Page → Handler
unfolding refresh
remove_member user s = with_token s.token λ t. call (delete_member t user) (then_refresh s)
