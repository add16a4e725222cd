-- ===== src/Team/View.antt =====
-- frontend/app/app/team/page.tsx:
-- What the page renders.
use blackbox_agent_accountab.Prelude.{
  String, Bool, false, not, ◌&&◌, ◌||◌, ◌⊎◌, inl, inr, Option, none, some, List, [], ◌∷◌, ◌++◌,
  if◌then◌else◌, ◌===◌, truthy, present, or_else, is_empty,
}
use blackbox_agent_accountab.Js.{template}
use blackbox_agent_accountab.View.{Node, text, button, input, select, when, each, embed_all}
use blackbox_agent_accountab.TopNav as Bar
use blackbox_agent_accountab.Team.{Member, Invite, Page, is_owner}
use blackbox_agent_accountab.Team.Events.{
  Event, type_email, choose_role, click_invite, click_revoke, click_role, click_remove,
}

-- `m.user_id === selfId`
abbrev pub is_self : Option String → String → Bool
is_self none id = false
is_self (some self) id = id === self

abbrev pub other_role : String → String
other_role r = if r === "owner" then "member" else "owner"

unfoldable pub show_member : Page → Member → List (Node Event)
unfolding is_owner
show_member s m =
    text (
      template (
        or_else m.email m.user_id
        ∷ (if is_self s.self_id m.user_id then " (you)" else "")
        ∷ " · "
        ∷ m.role
        ∷ []))
    ∷ when (is_owner s && not (is_self s.self_id m.user_id)) (
        button (template ("Make " ∷ other_role m.role ∷ [])) false
          (click_role m.user_id (other_role m.role))
        ∷ button "Remove" false (click_remove m.user_id)
        ∷ [])

abbrev pub show_invite : Invite → List (Node Event)
show_invite i =
    text (template (i.email ∷ " · " ∷ i.role ∷ [])) ∷ button "Revoke" false (click_revoke i.id) ∷ []

-- What only an owner sees.
unfoldable pub show_invites : Page → List (Node Event)
show_invites s =
    text "Pending invites"
    ∷ ((if is_empty s.invites then text "None." ∷ [] else each s.invites show_invite)
        ++ (input "teammate@company.com" s.email type_email
            ∷ select "Role" s.role ("member" ∷ "owner" ∷ []) false choose_role
            ∷ button (if s.busy then "Inviting…" else "Send invite")
                (not (truthy s.email) || s.busy) click_invite
            ∷ (when (present s.confirm) (text (or_else s.confirm "") ∷ [])
                ++ when (present s.err) (text (or_else s.err "") ∷ []))))

-- The `main` element.
unfoldable pub view : Page → List (Node Event)
unfolding show_member show_invites is_owner
view s =
    if s.session_loading
    then text "Loading…" ∷ []
    else text "Members" ∷ (each s.members (show_member s) ++ when (is_owner s) (show_invites s))

-- The whole page: the navigation bar, but not while the session is loading, and the `main` element.
unfoldable pub screen : Page → List (Node (Event ⊎ Bar.Event))
unfolding view Bar.view
screen s =
    if s.session_loading
    then embed_all inl (view s)
    else embed_all inr Bar.view ++ embed_all inl (view s)
