-- ===== src/Login.antt =====
-- frontend/app/login/page.tsx: logging in, signing up and asking for a new password.
--
-- Supabase is a parameter: its answers are the replies of the calls.
pub mod View
pub mod Submitting
pub mod Entering
use blackbox_agent_accountab.Prelude.{
  String, Bool, true, false, Option, none, some, [], ◌∷◌, List, Result, ok,
}
use blackbox_agent_accountab.Js.{template}
use blackbox_agent_accountab.Runtime.{Prog, done, act, call}

pub data Mode : Type 0 where
  login signup reset : Mode

-- The state of the page: its hooks, and what it told the router.
pub record Page : Type 0 where
  pub email : String
  pub password : String
  pub mode : Mode
  pub err : Option String
  pub busy : Bool
  pub sent : Bool
  pub pushed : List String

-- The calls of Supabase: with an address to come back to, with a password, or with both.
pub data Req : Type 0 where
  reset_password_for_email : String → String → Req
  sign_in_with_password : String → String → Req
  sign_up : String → String → String → Req

-- What a call that is not rejected answers: an error's message, or data with or without a session.
-- A call that is rejected with an `Error` settles with its message; `throws_other` is a rejection
-- with anything else.
pub data Answer : Type 0 where
  refused : String → Answer
  accepted : Bool → Answer
  throws_other : Answer

abbrev pub Reply : Req → Type 0
Reply _ = Answer

abbrev pub Handler : Type 0
Handler = Prog Page Req Reply

-- `finally { setBusy(false); }`
abbrev pub released : Handler
released = act (λ u. record u { busy = false }) done

abbrev pub show_err : String → Handler
show_err e = act (λ u. record u { err = some e }) released

abbrev pub enter : Handler
enter = act (λ u. record u { pushed = "/app" ∷ u.pushed }) released

abbrev pub mail_sent : Handler
mail_sent = act (λ u. record u { sent = true }) released

-- What follows an answer without an error.
abbrev pub proceed : Mode → Bool → Handler
proceed reset session = mail_sent
proceed login session = enter
proceed signup true = enter
proceed signup false = mail_sent

abbrev pub answered : Mode → Result Answer → Handler
answered m (ok (refused e)) = show_err e
answered m (ok (accepted session)) = proceed m session
answered m (ok throws_other) = show_err "Something went wrong. Try again."
answered m (Result.err e) = show_err e

-- The call of a mode; `origin` is `window.location.origin`.
abbrev pub ask : String → Mode → Page → Req
ask origin reset s = reset_password_for_email s.email (template (origin ∷ "/auth/reset" ∷ []))
ask origin login s = sign_in_with_password s.email s.password
ask origin signup s = sign_up s.email s.password (template (origin ∷ "/auth/callback" ∷ []))

unfoldable pub submit : String → Page → Handler
submit origin s =
    act (λ u. record u { err = none })
      (act (λ u. record u { busy = true }) (call (ask origin s.mode s) (answered s.mode)))

pub data Event : Type 0 where
  type_email : String → Event
  type_password : String → Event
  -- the form is submitted, with every required field filled in
  submits : Event
  click_forgot : Event
  -- "Back to log in", below the form
  click_back : Event
  -- "Sign up" or "Log in", below the form
  click_other : Event
  -- "Back to log in", after a mail was sent
  click_restart : Event

abbrev pub other_mode : Mode → Mode
other_mode login = signup
other_mode _ = login

unfoldable pub handle : String → Event → Page → Handler
unfolding submit
handle origin (type_email x) s = act (λ u. record u { email = x }) done
handle origin (type_password x) s = act (λ u. record u { password = x }) done
handle origin submits s = submit origin s
handle origin click_forgot s = act (λ u. record u { err = none; mode = reset }) done
handle origin click_back s = act (λ u. record u { err = none; mode = login }) done
handle origin click_other s = act (λ u. record u { err = none; mode = other_mode s.mode }) done
handle origin click_restart s = act (λ u. record u { sent = false; mode = login }) done
