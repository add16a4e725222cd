-- ===== src/Billing.antt =====
-- frontend/app/app/billing/page.tsx: the plan of the workspace, its usage, and the ways to the checkout
-- and the portal.
pub mod View
pub mod Quiescence
pub mod Offers
use blackbox_agent_accountab.Prelude.{
  ℕ, String, Bool, true, false, not, ◌&&◌, ◌||◌, Option, none, some, [], ◌∷◌, List, Result, ok,
  if◌then◌else◌, truthy, present, same, or_else, ◌===◌,
}
use blackbox_agent_accountab.Json.{str}
use blackbox_agent_accountab.Api.{Options, bare, with_body, fetching}
use blackbox_agent_accountab.Runtime.{Prog, done, act, call, with_token, only_if, await_all}

pub record Usage : Type 0 where
  pub hosted_audits_used : ℕ
  pub limit : ℕ

pub data Busy : Type 0 where
  idle checkout portal : Busy

-- The state of the page: its hooks, what it told the router to push and to replace, and where the
-- window was sent.
pub record Page : Type 0 where
  pub token : Option String
  pub session_loading : Bool
  pub just_upgraded : Bool
  pub plan : Option String
  pub usage : Option Usage
  pub email : Option String
  pub busy : Busy
  pub err : Option String
  pub loading : Bool
  pub pushed : List String
  pub replaced : List String
  pub location : Option String

-- The page as it starts, with the parameter `upgraded` of its address.
abbrev pub opened : Option String → Page
opened upgraded = record {
  token = none;
  session_loading = true;
  just_upgraded = or_else upgraded "" === "true";
  plan = none;
  usage = none;
  email = none;
  busy = idle;
  err = none;
  loading = true;
  pushed = [];
  replaced = [];
  location = none;
}

-- The calls of the API that the page makes.
pub data Req : Type 0 where
  get_plan : String → Req
  get_usage : String → Req
  post_checkout : String → String → Req
  post_portal : String → Req

-- A plan, a usage, and the addresses to go to.
abbrev pub Reply : Req → Type 0
Reply (get_usage _) = Usage
Reply _ = String

-- What the call of a request is given.
unfoldable pub wire : Req → String × Options
wire (get_plan t) = ("/billing/plan", fetching t)
wire (get_usage t) = ("/billing/usage", fetching t)
wire (post_checkout t email) =
    ("/billing/checkout", with_body "POST" t (("email", some (str email)) ∷ []))
wire (post_portal t) = ("/billing/portal", bare "POST" t)

abbrev pub Handler : Type 0
Handler = Prog Page Req Reply

-- `finally { setLoading(false); }`
abbrev pub loaded : Handler
loaded = act (λ u. record u { loading = false }) done

abbrev pub refresh_failed : String → Handler
refresh_failed e = act (λ u. record u { err = some e }) loaded

unfoldable pub refresh : Page → Handler
refresh s = with_token s.token λ t.
    await_all (get_plan t) (get_usage t)
      (λ p u. act (λ v. record v { plan = some p; usage = some u }) loaded) refresh_failed

-- The window goes to the address that came, or the error is shown.
abbrev pub redirected : Result String → Handler
redirected (ok url) = act (λ u. record u { location = some url }) done
redirected (Result.err e) =
    act (λ u. record u { err = some e }) (act (λ u. record u { busy = idle }) done)

unfoldable pub upgrade : Page → Handler
upgrade s = with_token s.token λ t. with_token s.email λ email.
    act (λ u. record u { err = none; busy = checkout }) (call (post_checkout t email) redirected)

unfoldable pub manage : Page → Handler
manage s =
    with_token s.token
      λ t. act (λ u. record u { err = none; busy = portal }) (call (post_portal t) redirected)

pub data Event : Type 0 where
  -- the session hook reports a token, or that there is none
  session : Option String → Event
  -- the page is mounted
  mounts : Event
  -- `getUser` answers
  user : Option String → Event
  click_upgrade : Event
  click_manage : Event

abbrev pub to_login : Bool → Option String → Page → Page
to_login changed t u = record u {
  pushed = if changed && not (present t) then "/login" ∷ u.pushed else u.pushed;
}

-- The address loses its parameter after an upgrade.
abbrev pub drop_upgraded : Page → Page
drop_upgraded u = record u {
  replaced = if u.just_upgraded then "/app/billing" ∷ u.replaced else u.replaced;
}

unfoldable pub handle : Event → Page → Handler
unfolding refresh upgrade manage
handle (session t) s =
    let changed = not (same s.token t) in
    act (λ u. record u { token = t; session_loading = false })
      (act (to_login (s.session_loading || changed) t)
        (only_if changed (refresh (record s { token = t }))))
handle mounts s = act drop_upgraded done
handle (user email) s = act (λ u. record u { email = email }) done
handle click_upgrade s = upgrade s
handle click_manage s = manage s
