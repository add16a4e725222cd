-- ===== src/AuthCallback.antt =====
-- frontend/app/auth/callback/page.tsx: following the link of a confirmation mail.
--
-- Supabase is a parameter: its answers are the replies of the calls, and the changes of the
-- authentication are events.
pub mod Leaving
pub mod Signing
use blackbox_agent_accountab.Prelude.{
  String, Bool, true, false, ◌&&◌, [], ◌∷◌, List, Result, ok, if◌then◌else◌,
}
use blackbox_agent_accountab.Js.{includes}
use blackbox_agent_accountab.Runtime.{Prog, done, act, call}
use blackbox_agent_accountab.View.{Node, text}

-- The state of the page: its message, what it told the router, whether it is mounted, whether its
-- listener and its timer are set, and whether `unsub` is.
pub record Page : Type 0 where
  pub msg : String
  pub replaced : List String
  pub mounted : Bool
  pub listening : Bool
  pub armed : Bool
  pub unsub : Bool

abbrev pub fresh : Page
fresh = record {
  msg = "Confirming your account…";
  replaced = [];
  mounted = false;
  listening = false;
  armed = false;
  unsub = false;
}

-- The calls of Supabase; `getSession` answers whether there is a session.
pub data Req : Type 0 where
  exchange_code_for_session : String → Req
  get_session : Req

abbrev pub Reply : Req → Type 0
Reply (exchange_code_for_session _) = Unit {0}
Reply get_session = Bool

abbrev pub Handler : Type 0
Handler = Prog Page Req Reply

abbrev pub to_app : Page → Page
to_app u = record u { replaced = "/app" ∷ u.replaced }

-- The rest of `run` after `getSession`, whose rejection ends it.
abbrev pub got_session : Result Bool → Handler
got_session (ok true) = act to_app done
got_session (ok false) =
    act (λ u. record u { listening = true })
      (act (λ u. record u { unsub = true }) (act (λ u. record u { armed = true }) done))
got_session (Result.err e) = done

abbrev pub ask_session : Handler
ask_session = call get_session got_session

-- `run`, at the address `url`
unfoldable pub confirm_link : String → Handler
confirm_link url =
    if includes url "code="
    then call (exchange_code_for_session url) (λ _. ask_session)
    else ask_session

pub data Event : Type 0 where
  mounts : Event
  -- the state of the authentication changes, to one with a session or to one without
  auth_changes : Bool → Event
  -- 5 s after the timer was set
  timer_fires : Event
  unmounts : Event

unfoldable pub handle : String → Event → Page → Handler
unfolding confirm_link
handle url mounts s = act (λ u. record u { mounted = true }) (confirm_link url)
handle url (auth_changes session) s = act (λ u. if u.listening && session then to_app u else u) done
handle url timer_fires s =
    act
      (λ u. record u {
        msg = if u.armed then "Couldn’t confirm automatically. Please try logging in." else u.msg;
        armed = false;
      })
      done
handle url unmounts s =
    act (λ u. record u { mounted = false; listening = if u.unsub then false else u.listening }) done

unfoldable pub view : Page → List (Node Event)
view s = text s.msg ∷ text "Go to log in" ∷ []
