-- ===== src/Team/Events.antt =====
-- frontend/app/app/team/page.tsx:
-- What can happen on the page, with the effects that run when the token changes.
use blackbox_agent_accountab.Prelude.{
  ℕ, String, Bool, not, ◌&&◌, ◌||◌, Option, none, ◌∷◌, if◌then◌else◌, present, same, false,
}
use blackbox_agent_accountab.Runtime.{done, act, only_if}
use blackbox_agent_accountab.Team.{
  Page, Handler, refresh, invite, revoke_invite, change_role, remove_member,
}

pub data Event : Type 0 where
  -- the session hook reports a token, or that there is none
  session : Option String → Event
  -- `getUser` answers
  user : Option String → Event
  type_email : String → Event
  choose_role : String → Event
  click_invite : Event
  click_revoke : ℕ → Event
  click_role : String → String → Event
  click_remove : String → Event
  confirm_expires : Event

abbrev pub to_login : Bool → Option String → Page → Page
to_login changed t u = record u {
  pushed = if changed && not (present t) then "/login" ∷ u.pushed else u.pushed;
}

unfoldable pub handle : Event → Page → Handler
unfolding refresh invite revoke_invite change_role remove_member
handle (session t) s =
    let changed = not (same s.token t) in
    act (λ u. record u { token = t; session_loading = false })
      (act (to_login (s.session_loading || changed) t)
        (only_if changed (refresh (record s { token = t }))))
handle (user id) s = act (λ u. record u { self_id = id }) done
handle (type_email x) s = act (λ u. record u { email = x }) done
handle (choose_role x) s = act (λ u. record u { role = x }) done
handle click_invite s = invite s
handle (click_revoke id) s = revoke_invite id s
handle (click_role id role) s = change_role id role s
handle (click_remove id) s = remove_member id s
handle confirm_expires s = act (λ u. record u { confirm = none }) done
