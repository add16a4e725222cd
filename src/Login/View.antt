-- ===== src/Login/View.antt =====
-- frontend/app/login/page.tsx:
-- What the page renders.
use blackbox_agent_accountab.Prelude.{
  String, false, List, [], ◌∷◌, ◌++◌, if◌then◌else◌, present, or_else,
}
use blackbox_agent_accountab.Js.{template}
use blackbox_agent_accountab.View.{Node, text, button, input, when}
use blackbox_agent_accountab.Login.{
  Mode, login, signup, reset, Page, Event, type_email, type_password, submits, click_forgot,
  click_back, click_other, click_restart,
}

abbrev pub sent_notice : Mode → String → String
sent_notice reset email =
    template
      ("We sent a password reset link to " ∷ email ∷ ". Click it to choose a new password." ∷ [])
sent_notice _ email = template (
    "We sent a confirmation link to " ∷ email
    ∷ ". Click it to activate your account, then you’ll be signed in automatically." ∷ [])

abbrev pub heading : Mode → String
heading login = "Welcome back"
heading signup = "Create your account"
heading reset = "Reset your password"

abbrev pub submit_label : Mode → String
submit_label login = "Log in"
submit_label signup = "Sign up"
submit_label reset = "Send reset link"

abbrev pub password_field : Mode → Page → List (Node Event)
password_field reset s = []
password_field _ s = input "Password" s.password type_password ∷ []

abbrev pub forgot_link : Mode → List (Node Event)
forgot_link login = button "Forgot password?" false click_forgot ∷ []
forgot_link _ = []

abbrev pub mode_link : Mode → List (Node Event)
mode_link reset = button "Back to log in" false click_back ∷ []
mode_link login = text "Need an account? " ∷ button "Sign up" false click_other ∷ []
mode_link signup = text "Have an account? " ∷ button "Log in" false click_other ∷ []

abbrev pub show_form : Page → List (Node Event)
show_form s =
    text (heading s.mode)
    ∷ input "Email" s.email type_email
    ∷ (password_field s.mode s
        ++ (forgot_link s.mode
            ++ (button (if s.busy then "…" else submit_label s.mode) s.busy submits
                ∷ (when (present s.err) (text (or_else s.err "") ∷ []) ++ mode_link s.mode))))

abbrev pub sent_page : Page → List (Node Event)
sent_page s =
    text "Check your inbox"
    ∷ text (sent_notice s.mode s.email)
    ∷ button "Back to log in" false click_restart
    ∷ []

unfoldable pub view : Page → List (Node Event)
view s = if s.sent then sent_page s else show_form s
