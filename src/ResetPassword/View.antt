-- ===== src/ResetPassword/View.antt =====
-- frontend/app/auth/reset/page.tsx:
-- What the page renders.
use blackbox_agent_accountab.Prelude.{
  false, not, ◌||◌, List, [], ◌∷◌, if◌then◌else◌, present, or_else,
}
use blackbox_agent_accountab.View.{Node, text, button, input, when}
use blackbox_agent_accountab.ResetPassword.{Page, Event, type_password, submits, click_workspace}

abbrev pub updated_page : List (Node Event)
updated_page =
    text "Password updated"
    ∷ text "You can log in with your new password now."
    ∷ button "Go to workspace" false click_workspace
    ∷ []

abbrev pub show_form : Page → List (Node Event)
show_form s =
    text "Choose a new password"
    ∷ text
        (if s.ready then "Set a new password for your account." else "Confirming your reset link…")
    ∷ input "New password" s.password type_password
    ∷ button (if s.busy then "…" else "Update password") (s.busy || not s.ready) submits
    ∷ when (present s.err) (text (or_else s.err "") ∷ [])

unfoldable pub view : Page → List (Node Event)
view s = if s.updated then updated_page else show_form s
