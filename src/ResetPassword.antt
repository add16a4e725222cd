-- ===== src/ResetPassword.antt =====
-- frontend/app/auth/reset/page.tsx: choosing a new password after following the link of a mail.
--
-- Supabase is a parameter: its answers are the replies of the calls.
pub mod View
pub mod Updating
use blackbox_agent_accountab.Prelude.{
  String, Bool, true, false, Option, none, some, [], ◌∷◌, List, Result, ok, if◌then◌else◌,
}
use blackbox_agent_accountab.Js.{includes}
use blackbox_agent_accountab.Runtime.{Prog, done, act, call}

-- The state of the page: its hooks, and what it told the router.
pub record Page : Type 0 where
  pub ready : Bool
  pub password : String
  pub err : Option String
  pub busy : Bool
  pub updated : Bool
  pub pushed : List String

-- The calls of Supabase.
pub data Req : Type 0 where
  exchange_code_for_session : String → Req
  get_session : Req
  update_user : String → Req

-- What `updateUser` answers: an error's message, or none. A call that is rejected with an `Error`
-- settles with its message; `throws_other` is a rejection with anything else.
pub data Answer : Type 0 where
  refused : String → Answer
  accepted : Answer
  throws_other : Answer

-- `getSession` answers whether there is a session.
abbrev pub Reply : Req → Type 0
Reply (exchange_code_for_session _) = Unit {0}
Reply get_session = Bool
Reply (update_user _) = Answer

abbrev pub Handler : Type 0
Handler = Prog Page Req Reply

-- A rejection of `getSession` ends the effect.
abbrev pub got_session : Result Bool → Handler
got_session (ok present_session) = act (λ u. record u { ready = present_session }) done
got_session (Result.err e) = done

abbrev pub ask_session : Handler
ask_session = call get_session got_session

-- The effect, at the address `url`.
unfoldable pub confirm_link : String → Handler
confirm_link url =
    if includes url "code="
    then call (exchange_code_for_session url) (λ _. ask_session)
    else ask_session

-- `finally { setBusy(false); }`
abbrev pub released : Handler
released = act (λ u. record u { busy = false }) done

abbrev pub show_err : String → Handler
show_err e = act (λ u. record u { err = some e }) released

abbrev pub answered : Result Answer → Handler
answered (ok (refused e)) = show_err e
answered (ok accepted) = act (λ u. record u { updated = true }) released
answered (ok throws_other) = show_err "Something went wrong. Try again."
answered (Result.err e) = show_err e

unfoldable pub submit : Page → Handler
submit s =
    act (λ u. record u { err = none })
      (act (λ u. record u { busy = true }) (call (update_user s.password) answered))

pub data Event : Type 0 where
  mounts : Event
  type_password : String → Event
  -- the form is submitted, with a password of at least six characters
  submits : Event
  click_workspace : Event

unfoldable pub handle : String → Event → Page → Handler
unfolding confirm_link submit
handle url mounts s = confirm_link url
handle url (type_password x) s = act (λ u. record u { password = x }) done
handle url submits s = submit s
handle url click_workspace s = act (λ u. record u { pushed = "/app" ∷ u.pushed }) done
