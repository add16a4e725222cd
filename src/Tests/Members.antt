-- ===== src/Tests/Members.antt =====
-- The members of a workspace, on concrete pages.
use blackbox_agent_accountab.Prelude.{
  ◌≡◌, refl, String, false, none, some, List, [], ◌∷◌, Result, ok, All,
}
use blackbox_agent_accountab.Runtime.{World}
use blackbox_agent_accountab.Runtime.Schedule.{Move, starts, settles}
use blackbox_agent_accountab.Team.{Member, Invite, Page, Req, Reply, get_members, get_invites}
use blackbox_agent_accountab.Team.Events.{Event, click_invite}
use blackbox_agent_accountab.Team.View.{screen, view}
use blackbox_agent_accountab.Team.Owners.{IsOffered, screen-IsOffered, error_is_hidden}

abbrev member : String → String → Member
member id role = record { user_id = id; role = role; email = none }

abbrev asked : Invite
asked = record { id = 3; email = "c@x.io"; role = "member"; created_at = "2026-01-01" }

abbrev page_of : String → Page
page_of self = record {
  token = some "jwt";
  session_loading = false;
  self_id = some self;
  members = member "u1" "owner" ∷ member "u2" "member" ∷ [];
  invites = asked ∷ [];
  email = "d@x.io";
  role = "member";
  err = none;
  busy = false;
  confirm = none;
  pushed = [];
}

abbrev serve : (r : Req) → Result (Reply r)
serve (get_members _) = ok (member "u1" "owner" ∷ [])
serve (get_invites _) = ok (asked ∷ [])
serve _ = Result.err "down"

abbrev calm : World Page Req Reply
calm = record { state = page_of "u1"; tasks = [] }

abbrev inviting : List (Move Event)
inviting = starts click_invite ∷ settles 0 ∷ []

screen-IsOffered_example : All (IsOffered (page_of "u1")) (screen (page_of "u1"))
screen-IsOffered_example = screen-IsOffered (page_of "u1")

error_is_hidden_example : view (record (page_of "u2") { err = some "down" }) ≡ view (page_of "u2")
unfolding blackbox_agent_accountab.Team.is_owner
error_is_hidden_example = error_is_hidden (page_of "u2") (some "down") refl
