-- ===== src/Team/Owners.antt =====
-- frontend/app/app/team/page.tsx:
-- What the page offers to whom.
use blackbox_agent_accountab.Prelude.{
  ◌≡◌, refl, ap, ◌⊎◌, inl, inr, ℕ, String, Bool, true, false, not, ◌&&◌, ◌||◌, Option, List, [],
  ◌∷◌, ◌++◌, All, All-append, if◌then◌else◌, truthy, present, is_empty, arith,
}
use blackbox_agent_accountab.View.{
  Node, text, button, item, input, select, Calls, when, each, embed, embed_all, All-embed_all,
  All-when, All-if, All-each,
}
use blackbox_agent_accountab.TopNav as Bar
use blackbox_agent_accountab.Team.{Page, Member, is_owner}
use blackbox_agent_accountab.Team.Events.{
  Event, click_invite, click_revoke, click_role, click_remove, handle,
}
use blackbox_agent_accountab.Team.View.{
  is_self, other_role, show_member, show_invite, show_invites, view, screen,
}

-- The event does nothing to the user's own membership.
abbrev Spares : Page → Event → Type 0
Spares s (click_role id role) = is_self s.self_id id ≡ false
Spares s (click_remove id) = is_self s.self_id id ≡ false
Spares s _ = Unit

-- A button is there for owners alone, and not to change the user's own membership.
abbrev IsAllowed : Page → Node Event → Type 0
IsAllowed s (button label disabled a) = (is_owner s ≡ true) × Spares s a
IsAllowed s _ = Unit

-- So is every button but the log-out.
abbrev pub IsOffered : Page → Node (Event ⊎ Bar.Event) → Type 0
IsOffered s (button label disabled (inl a)) = IsAllowed s (button label disabled a)
IsOffered s (button label disabled (inr Bar.click_logout)) = label ≡ "Log out"
IsOffered s _ = Unit

not_self : (a b : Bool) → (a && not b) ≡ true → (a ≡ true) × (b ≡ false)
not_self a b h = ground arith

show_member-IsAllowed : (s : Page) (m : Member) → All (IsAllowed s) (show_member s m)
unfolding show_member
show_member-IsAllowed s m = (
  tt,
  All-when (IsAllowed s) (is_owner s && not (is_self s.self_id m.user_id)) _
      λ h. let p = not_self (is_owner s) (is_self s.self_id m.user_id) h in (p, (p, tt)),
)

show_invites-IsAllowed : (s : Page) → is_owner s ≡ true → All (IsAllowed s) (show_invites s)
unfolding show_invites
show_invites-IsAllowed s h = (
  tt,
  All-append (IsAllowed s) (if is_empty s.invites then _ else each s.invites show_invite) _
      (All-if (IsAllowed s) (is_empty s.invites) _ _ (λ _. (tt, tt))
        (λ _. All-each (IsAllowed s) s.invites show_invite (λ i. (tt, ((h, tt), tt)))))
      (
        tt,
        (
          tt,
          (
            (h, tt),
            All-append (IsAllowed s) (when (present s.confirm) _) _
                (All-when (IsAllowed s) (present s.confirm) _ (λ _. (tt, tt)))
                (All-when (IsAllowed s) (present s.err) _ (λ _. (tt, tt))),
          ),
        ),
      ),
)

view-IsAllowed : (s : Page) → All (IsAllowed s) (view s)
unfolding view
view-IsAllowed s =
    All-if (IsAllowed s) s.session_loading _ _ (λ _. (tt, tt))
      λ _. (
        tt,
        All-append (IsAllowed s) (each s.members (show_member s)) _
            (All-each (IsAllowed s) s.members (show_member s) (show_member-IsAllowed s))
            (All-when (IsAllowed s) (is_owner s) _ (show_invites-IsAllowed s)),
      )

embed-IsOffered : (s : Page) (n : Node Event) → IsAllowed s n → IsOffered s (embed inl n)
embed-IsOffered s (text _) h = tt
embed-IsOffered s (button label disabled a) h = h
embed-IsOffered s (item _ _) h = tt
embed-IsOffered s (input _ _ _) h = tt
embed-IsOffered s (select _ _ _ _ _) h = tt

main-IsOffered : (s : Page) → All (IsOffered s) (embed_all inl (view s))
main-IsOffered s =
    All-embed_all (IsAllowed s) (IsOffered s) inl (embed-IsOffered s) (view s) (view-IsAllowed s)

bar-IsOffered : (s : Page) → All (IsOffered s) (embed_all inr Bar.view)
unfolding Bar.view
bar-IsOffered s = (tt, (tt, (tt, (tt, (tt, (tt, (tt, (tt, (refl, tt)))))))))

-- Of the buttons that the page shows, its navigation bar included, only "Log out" is shown to a user
-- who is not an owner among the members; and no other button changes the role of the user or
-- removes the user.
pub screen-IsOffered : (s : Page) → All (IsOffered s) (screen s)
unfolding screen
screen-IsOffered s =
    All-if (IsOffered s) s.session_loading _ _ (λ _. main-IsOffered s)
      λ _. All-append (IsOffered s) (embed_all inr Bar.view) _ (bar-IsOffered s) (main-IsOffered s)

when_hidden : {A : Type 0} (b : Bool) (ms ns : List (Node A)) → b ≡ false → when b ms ≡ when b ns
when_hidden true ms ns h = cc
when_hidden false ms ns h = refl

-- What a page shows to a user who is not an owner among the members that it has is the same
-- whatever its error is.
pub error_is_hidden :
    (s : Page) (e : Option String) → is_owner s ≡ false → view (record s { err = e }) ≡ view s
unfolding view
error_is_hidden s e h =
    ap
      (λ r.
        if s.session_loading
        then text "Loading…" ∷ []
        else text "Members" ∷ (each s.members (show_member s) ++ r))
      (when_hidden (is_owner s) (show_invites (record s { err = e })) (show_invites s) h)

module _ (s : Page) (signed : present s.token ≡ true) where
  invite-Calls : (b : Bool) → Calls handle s (button "" (not (truthy s.email) || b) click_invite)
  unfolding handle
  invite-Calls b = ground arith

  revoke-Calls : (id : ℕ) → Calls handle s (button "" false (click_revoke id))
  unfolding handle
  revoke-Calls id = ground arith

  role-Calls : (id role : String) → Calls handle s (button "" false (click_role id role))
  unfolding handle
  role-Calls id role = ground arith

  remove-Calls : (id : String) → Calls handle s (button "" false (click_remove id))
  unfolding handle
  remove-Calls id = ground arith

  show_invites-Calls : All (Calls handle s) (show_invites s)
  unfolding show_invites
  show_invites-Calls = (
    tt,
    All-append (Calls handle s) (if is_empty s.invites then _ else each s.invites show_invite) _
        (All-if (Calls handle s) (is_empty s.invites) _ _ (λ _. (tt, tt))
          (λ _.
            All-each (Calls handle s) s.invites show_invite (λ i. (tt, (revoke-Calls i.id, tt)))))
        (
          tt,
          (
            tt,
            (
              invite-Calls s.busy,
              All-append (Calls handle s) (when (present s.confirm) _) _
                  (All-when (Calls handle s) (present s.confirm) _ (λ _. (tt, tt)))
                  (All-when (Calls handle s) (present s.err) _ (λ _. (tt, tt))),
            ),
          ),
        ),
  )

  show_member-Calls : (m : Member) → All (Calls handle s) (show_member s m)
  unfolding show_member
  show_member-Calls m = (
    tt,
    All-when (Calls handle s) (is_owner s && not (is_self s.self_id m.user_id)) _
        λ _. (role-Calls m.user_id (other_role m.role), (remove-Calls m.user_id, tt)),
  )

  -- With a session, a click on any button that the page shows as enabled makes a call.
  pub team-view-Calls : All (Calls handle s) (view s)
  unfolding view
  team-view-Calls =
      All-if (Calls handle s) s.session_loading _ _ (λ _. (tt, tt))
        λ _. (
          tt,
          All-append (Calls handle s) (each s.members (show_member s)) _
              (All-each (Calls handle s) s.members (show_member s) show_member-Calls)
              (All-when (Calls handle s) (is_owner s) _ (λ _. show_invites-Calls)),
        )
