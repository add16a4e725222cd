-- ===== src/Team/Quiescence.antt =====
-- frontend/app/app/team/page.tsx:
-- The busy flag of the page, over every interleaving of events and replies.
use blackbox_agent_accountab.Prelude.{
  ◌≡◌, refl, inr, false, not, [], Result, ok, truthy, same, ◌||◌,
}
use blackbox_agent_accountab.Runtime.{World, Reach}
use blackbox_agent_accountab.Runtime.Frame.{
  Frames, Frames-with_token, Frames-await_all, Frames-Keeps,
}
use blackbox_agent_accountab.Runtime.Quiet.{
  Keeps, Keeps-only_if, Keeps-with_token, Restores-then_do,
}
use blackbox_agent_accountab.Runtime.Waiting.{quiet}
use blackbox_agent_accountab.Team.{
  Page, Req, Reply, get_members, get_invites, refresh, invite, revoke_invite, change_role,
  remove_member, set_err, then_refresh,
}
use blackbox_agent_accountab.Team.Events.{
  Event, session, click_invite, click_revoke, click_role, click_remove, to_login, handle,
}

abbrev IsIdle : Page → Type 0
IsIdle s = s.busy ≡ false

refresh-Frames : (s : Page) → Frames IsIdle (refresh s)
unfolding refresh
refresh-Frames s = Frames-with_token IsIdle s.token _ λ t.
    Frames-await_all IsIdle (get_members t) (get_invites t) _ set_err (λ ms is. ((λ v h. h), tt))
      (λ e. ((λ v h. h), tt))

then_refresh-Frames : (s : Page) (x : Result (Unit {0})) → Frames IsIdle (then_refresh s x)
unfolding then_refresh refresh
then_refresh-Frames s (ok _) = refresh-Frames s
then_refresh-Frames s (Result.err e) = ((λ v h. h), tt)

invite-Keeps : (s u : Page) → Keeps IsIdle (IsIdle u) (invite s) u
unfolding invite
invite-Keeps s u =
    Keeps-with_token IsIdle _ s.token _ u (λ h. h)
      λ t.
        Keeps-only_if IsIdle _ (truthy s.email) _ u (λ h. h)
          (inr (elim [
            | ok _ ↦ λ v.
                Restores-then_do IsIdle ⊥ (refresh s) _ _
                  (Frames-Keeps IsIdle ⊥ (refresh s) _ (refresh-Frames s) (λ h. absurd h))
                  (λ w. refl)
            | Result.err e ↦ λ v. refl
          ]))

handle-Keeps : (e : Event) (s : Page) → Keeps IsIdle (IsIdle s) (handle e s) s
unfolding handle
handle-Keeps (session t) s =
    let signed = record s { token = t; session_loading = false } in
    let sent = to_login (s.session_loading || not (same s.token t)) t signed in
    Keeps-only_if IsIdle (IsIdle s) (not (same s.token t)) _ sent (λ h. h)
      (Frames-Keeps IsIdle (IsIdle s) (refresh (record s { token = t })) sent
        (refresh-Frames (record s { token = t })) (λ h. h))
handle-Keeps click_invite s = invite-Keeps s s
handle-Keeps (click_revoke id) s =
    Frames-Keeps IsIdle (IsIdle s) (revoke_invite id s) s
      (Frames-with_token IsIdle s.token _ λ t. then_refresh-Frames s) (λ h. h)
handle-Keeps (click_role id role) s =
    Frames-Keeps IsIdle (IsIdle s) (change_role id role s) s
      (Frames-with_token IsIdle s.token _ λ t. then_refresh-Frames s) (λ h. h)
handle-Keeps (click_remove id) s =
    Frames-Keeps IsIdle (IsIdle s) (remove_member id s) s
      (Frames-with_token IsIdle s.token _ λ t. then_refresh-Frames s) (λ h. h)
handle-Keeps _ s = λ h. h

-- From a page that is not busy, with no call waiting, and however the user's events and the replies
-- interleave, whatever the replies are: once no call is waiting, the page is not left busy.
pub invite_is_released :
    {s : Page} {w : World Page Req Reply}
    → s.busy ≡ false
    → Reach handle (record { state = s; tasks = [] }) w
    → w.tasks ≡ []
    → w.state.busy ≡ false
invite_is_released = quiet IsIdle handle handle-Keeps
