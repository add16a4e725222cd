-- ===== src/Tests/Entrance.antt =====
-- The ways into the workspace: logging in, a new password and the link of a mail, on concrete histories.
use blackbox_agent_accountab.Prelude.{
  ◌≡◌, refl, String, true, false, none, List, [], ◌∷◌, Result, ok,
}
use blackbox_agent_accountab.Js.{includes}
use blackbox_agent_accountab.Runtime.{World, here}
use blackbox_agent_accountab.Runtime.Schedule.{Move, starts, settles, move, play, play-Reach}
use blackbox_agent_accountab.Runtime.Cause.{Happened}
use blackbox_agent_accountab.Login
use blackbox_agent_accountab.Login.Entering.{SignedIn, entered-SignedIn}
use blackbox_agent_accountab.ResetPassword
use blackbox_agent_accountab.ResetPassword.Updating.{Accepted, updated_is_Accepted}
use blackbox_agent_accountab.AuthCallback
use blackbox_agent_accountab.AuthCallback.Leaving.{left_early, left_page_navigates}
use blackbox_agent_accountab.AuthCallback.Signing.{Signed, replaced-Signed}

abbrev member : Login.Page
member = record {
  email = "a@x.io";
  password = "secret";
  mode = Login.login;
  err = none;
  busy = false;
  sent = false;
  pushed = [];
}

abbrev admit : (r : Login.Req) → Result (Login.Reply r)
admit r = ok (Login.accepted true)

abbrev outside : World Login.Page Login.Req Login.Reply
outside = record { state = member; tasks = [] }

abbrev submitting : List (Move Login.Event)
submitting = starts Login.submits ∷ settles 0 ∷ []

entered-SignedIn_example :
    Happened SignedIn (play-Reach (Login.handle "https://x.io") admit submitting outside here)
unfolding Login.handle
entered-SignedIn_example =
    entered-SignedIn "https://x.io"
      (play-Reach (Login.handle "https://x.io") admit submitting outside here) refl (λ e. cc)

abbrev form : ResetPassword.Page
form = record {
  ready = false;
  password = "";
  err = none;
  busy = false;
  updated = false;
  pushed = [];
}

abbrev link : String
link = "https://x.io/auth/reset?code=1"

abbrev update : (r : ResetPassword.Req) → Result (ResetPassword.Reply r)
update (ResetPassword.exchange_code_for_session _) = Result.err "used"
update ResetPassword.get_session = ok true
update (ResetPassword.update_user _) = ok ResetPassword.accepted

abbrev unread : World ResetPassword.Page ResetPassword.Req ResetPassword.Reply
unread = record { state = form; tasks = [] }

abbrev choosing : List (Move ResetPassword.Event)
choosing =
    starts ResetPassword.mounts
    ∷ settles 0
    ∷ settles 0
    ∷ starts (ResetPassword.type_password "secret")
    ∷ starts ResetPassword.submits
    ∷ settles 0
    ∷ []

updated_is_Accepted_example :
    Happened Accepted (play-Reach (ResetPassword.handle link) update choosing unread here)
unfolding ResetPassword.handle includes
updated_is_Accepted_example =
    updated_is_Accepted link (play-Reach (ResetPassword.handle link) update choosing unread here)
      refl refl

abbrev nothing_yet : (r : AuthCallback.Req) → Result (AuthCallback.Reply r)
nothing_yet (AuthCallback.exchange_code_for_session _) = Result.err "used"
nothing_yet AuthCallback.get_session = ok false

left_page_navigates_example :
    let w =
      play
        (AuthCallback.handle link)
        nothing_yet
        left_early
        (record { state = AuthCallback.fresh; tasks = [] }) in
    (w.tasks ≡ [])
    × (w.state.mounted ≡ false)
    × (w.state.replaced ≡ [])
    × ((move
          (AuthCallback.handle link)
          nothing_yet
          (starts (AuthCallback.auth_changes true))
          w).state.replaced
        ≡ "/app" ∷ [])
left_page_navigates_example = left_page_navigates link nothing_yet refl

abbrev given : (r : AuthCallback.Req) → Result (AuthCallback.Reply r)
given (AuthCallback.exchange_code_for_session _) = ok tt
given AuthCallback.get_session = ok true

abbrev confirming : List (Move AuthCallback.Event)
confirming = starts AuthCallback.mounts ∷ settles 0 ∷ settles 0 ∷ []

abbrev unconfirmed : World AuthCallback.Page AuthCallback.Req AuthCallback.Reply
unconfirmed = record { state = AuthCallback.fresh; tasks = [] }

replaced-Signed_example :
    Signed (play-Reach (AuthCallback.handle link) given confirming unconfirmed here)
unfolding AuthCallback.handle includes
replaced-Signed_example =
    replaced-Signed link (play-Reach (AuthCallback.handle link) given confirming unconfirmed here)
      refl (λ e. cc)
